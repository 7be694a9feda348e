-- ===== src/Tests/Changes.antt =====
-- Examples: new directories and files, a renaming, reads and a stored bitmap.
use linuse_fs.Base.{ℕ, ◌*◌, ◌<◌, ◌≡◌, ◌≢◌, refl, some, List, [], ◌∷◌, arith, inl, inr, str_eq, ◌⊎◌}
use linuse_fs.Platform.{BitArray}
use linuse_fs.Disk.{Fs, ok, bitmap_initial_block}
use linuse_fs.Node.{get_block_num_from_node_num}
use linuse_fs.Bitmap.Alloc.{AllUsed, IsFirstFree, IsMarked}
use linuse_fs.Directory.Path.{is_valid_path, get_pre_dir_path_from_path}
use linuse_fs.Directory.Tree.{HoldsTree}
use linuse_fs.Directory.Walk.{OnlyRead, resolve}
use linuse_fs.Directory.Erased.{set_directory}
use linuse_fs.Directory.Grown.{with_child}
use linuse_fs.Format.{unmap_bitmap, load_bitmap}
use linuse_fs.Format.Stored.{load_bitmap-unmap_bitmap}
use linuse_fs.Sacio.File.{int_of, sac_open}
use linuse_fs.Sacio.Tree.{sac_mkdir, sac_rename}
use linuse_fs.Sacio.NewDirectory.{with_new_child}
use linuse_fs.Sacio.Mkdir.{sac_mkdir-with_new_child}
use linuse_fs.Sacio.Opening.{sac_open-lookup}
use linuse_fs.Sacio.NewFile.{IsCreated, sac_open-IsCreated}
use linuse_fs.Sacio.Missing.{sac_rename-missing}
use linuse_fs.Sacio.Moved.{after_erase, after_addition, sac_rename-moved}
use linuse_fs.Sample.{unix, unix-BitLaws, bit, digit, split}
use linuse_fs.Status
use linuse_fs.Status.{success}
use linuse_fs.Tests.Tree.{
  ab, c, d, root_directory, c_directory, ab_directory, directories, path_ab, disk1, disk2,
  tree_disk, HoldsTree-tree_disk, AreDisjoint-directories,
}

abbrev e : List ℕ
e = b'e' ∷ []

abbrev path_e : List ℕ
path_e = b'/' ∷ e

abbrev path_x : List ℕ
path_x = b'/' ∷ b'x' ∷ []

abbrev path_cd : List ℕ
path_cd = b'/' ∷ b'c' ∷ b'/' ∷ b'd' ∷ []

abbrev path_ce : List ℕ
path_ce = b'/' ∷ b'c' ∷ b'/' ∷ e

-- The node of the first free block is node 6.
tree_disk-AllUsed : AllUsed ⦃p = unix 4⦄ tree_disk.bitmap 2 8
unfolding bit digit tree_disk disk2 disk1
tree_disk-AllUsed i lo hi =
    let cases : ((i ≡ 2) ⊎ (i ≡ 3)) ⊎ (((i ≡ 4) ⊎ (i ≡ 5)) ⊎ ((i ≡ 6) ⊎ (i ≡ 7))) = omega arith in
    elim cases [
      | inl (inl h) ↦ rw h refl
      | inl (inr h) ↦ rw h refl
      | inr (inl (inl h)) ↦ rw h refl
      | inr (inl (inr h)) ↦ rw h refl
      | inr (inr (inl h)) ↦ rw h refl
      | inr (inr (inr h)) ↦ rw h refl
    ]

tree_disk-IsFirstFree : IsFirstFree ⦃p = unix 4⦄ tree_disk.bitmap 2 8
unfolding bit digit tree_disk disk2 disk1
tree_disk-IsFirstFree = (omega arith, refl, tree_disk-AllUsed)

sac_mkdir-with_new_child_example :
    (t : Fs) × (sac_mkdir ⦃p = unix 4⦄ path_e tree_disk ≡ ok success t)
    × HoldsTree ⦃p = unix 4⦄ t (with_new_child directories 0 root_directory e 6)
    × IsMarked ⦃p = unix 4⦄ tree_disk.bitmap 8 t.bitmap
unfolding is_valid_path get_pre_dir_path_from_path split resolve str_eq get_block_num_from_node_num
    tree_disk disk2 disk1
sac_mkdir-with_new_child_example =
    sac_mkdir-with_new_child ⦃p = unix 4⦄ (unix-BitLaws 4) path_e [] e tree_disk directories 0 6
      root_directory refl refl refl tt (λ z. absurd (cc z)) ((λ z. absurd (cc z)), tt) (omega arith)
      HoldsTree-tree_disk AreDisjoint-directories refl refl (omega arith) (omega arith) refl refl
      (omega arith) tree_disk-IsFirstFree (omega arith) (omega arith)

sac_open-lookup_example :
    (t : Fs) × (sac_open ⦃p = unix 4⦄ path_cd tree_disk ≡ ok (Status.pos 5) t)
    × OnlyRead ⦃p = unix 4⦄ directories tree_disk t
unfolding is_valid_path split resolve str_eq int_of
sac_open-lookup_example =
    sac_open-lookup ⦃p = unix 4⦄ path_cd (c ∷ []) d tree_disk directories 4 5 c_directory refl refl
      refl ((λ z. absurd (cc z)), tt) (λ z. absurd (cc z)) HoldsTree-tree_disk refl refl refl

sac_open-IsCreated_example :
    (t : Fs) × (sac_open ⦃p = unix 4⦄ path_e tree_disk ≡ ok (Status.pos 6) t)
    × IsCreated ⦃p = unix 4⦄ tree_disk directories 0 6 root_directory e t
unfolding is_valid_path split resolve str_eq get_block_num_from_node_num tree_disk disk2 disk1
sac_open-IsCreated_example =
    sac_open-IsCreated ⦃p = unix 4⦄ (unix-BitLaws 4) path_e [] e tree_disk directories 0 6
      root_directory refl refl refl tt (λ z. absurd (cc z)) ((λ z. absurd (cc z)), tt) (omega arith)
      HoldsTree-tree_disk AreDisjoint-directories refl refl (omega arith) (omega arith) refl refl
      (omega arith) tree_disk-IsFirstFree (omega arith) (omega arith)

sac_rename-missing_example :
    (t : Fs) × (sac_rename ⦃p = unix 4⦄ path_x path_e tree_disk ≡ ok success t)
    × HoldsTree ⦃p = unix 4⦄ t (
        set_directory
          (set_directory directories 0 (some (with_child root_directory 0 e)))
          0
          (some (record (with_child root_directory 0 e) { parent_block = 2 })))
unfolding is_valid_path get_pre_dir_path_from_path split resolve str_eq get_block_num_from_node_num
sac_rename-missing_example =
    sac_rename-missing ⦃p = unix 4⦄ path_x path_e [] [] (b'x' ∷ []) e tree_disk directories 0 0
      root_directory root_directory (with_child root_directory 0 e) refl refl refl refl refl refl tt
      tt ((λ z. absurd (cc z)), tt) (omega arith) HoldsTree-tree_disk AreDisjoint-directories refl
      refl refl refl refl (omega arith) (omega arith) refl

abbrev empty_array : BitArray
empty_array = record { bitarray = λ i. 0; size = 0 }

sac_rename-moved_example :
    (t : Fs) × (sac_rename ⦃p = unix 4⦄ path_ab path_ce tree_disk ≡ ok success t)
    × HoldsTree ⦃p = unix 4⦄ t (
        set_directory
          (after_addition (after_erase directories 0 root_directory ab) 4 c_directory 3 e)
          3
          (some (record ab_directory { parent_block = 6 })))
unfolding is_valid_path get_pre_dir_path_from_path split resolve str_eq get_block_num_from_node_num
sac_rename-moved_example =
    sac_rename-moved ⦃p = unix 4⦄ path_ab path_ce [] (c ∷ []) ab e tree_disk directories 0 4 3
      root_directory c_directory ab_directory refl refl refl refl refl refl tt
      ((λ z. absurd (cc z)), tt) (λ z. absurd (cc z)) ((λ z. absurd (cc z)), tt) (omega arith)
      HoldsTree-tree_disk AreDisjoint-directories refl refl refl refl refl (omega arith)
      (omega arith) refl

load_bitmap-unmap_bitmap_example :
    (t u : Fs) × (unmap_bitmap ⦃p = unix 4⦄ tree_disk ≡ ok tt t)
    × (load_bitmap ⦃p = unix 4⦄ (record t { bitmap = empty_array }) ≡ ok tt u)
    × (u.bitmap.size ≡ tree_disk.bitmap.size)
    × ((i : ℕ)
        → i < 8 * tree_disk.bitmap.size
        → (unix 4).test_bit u.bitmap i ≡ (unix 4).test_bit tree_disk.bitmap i)
    × ((n : ℕ) → n ≢ bitmap_initial_block → t.disk n ≡ tree_disk.disk n)
    × (u.disk ≡ t.disk)
unfolding tree_disk disk2 disk1
load_bitmap-unmap_bitmap_example =
    load_bitmap-unmap_bitmap ⦃p = unix 4⦄ (unix-BitLaws 4) tree_disk empty_array refl
