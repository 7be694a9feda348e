-- ===== src/Sacio/Opening.antt =====
-- sac-fs/src/sacio.c: `sac_open`, against the tree of directories on the disk.
use linuse_fs.Base.{
  arith, lt→ltb, ◌%◌, ◌^◌, ◌<◌, ℕ, ◌-◌, ◌≡◌, ◌≢◌, refl, ap, ◌∙◌, true, some, List, [], ◌∷◌, ◌++◌,
  length, All,
}
use linuse_fs.Platform.{Platform, slash}
use linuse_fs.Disk.{Fs, ok}
use linuse_fs.Directory.Path.{
  is_valid_path, get_folder_path_from_file_path, get_file_name_from_file_path,
}
use linuse_fs.Directory.Block.{lookup}
use linuse_fs.Directory.Found.{get_entry-small}
use linuse_fs.Directory.Tree.{
  Directory, Directories, HoldsTree, HoldsDirectory, read_node-HoldsDirectory,
  unmap_and_destroy_node-stored_node, stored_node,
}
use linuse_fs.Directory.Walk.{
  resolve, search_path-resolve, number_of-some, OnlyRead, OnlyRead-trans, OnlyRead-visited,
}
use linuse_fs.Status.{Status}
use linuse_fs.Sacio.File.{int_of, create_and_save_file_node, sac_open}
use linuse_fs.Sacio.Removal.{last_component-last}
use linuse_fs.Sacio.Mkdir.{exists_entry-present}

pub int_of-below : (n : ℕ) → n < 2 ^ 31 → int_of n ≡ Status.pos n
unfolding int_of
int_of-below n small =
    let low : n % 2 ^ 32 ≡ n = omega arith in rw (low, lt→ltb n (2 ^ 31) small) refl

module _ ⦃p : Platform⦄ where
  pub get_folder_path-last :
      (path : List ℕ) (cs : List (List ℕ)) (c : List ℕ) (s : Fs)
      → p.string_split path slash ≡ cs ++ (c ∷ [])
      → get_folder_path_from_file_path path s
        ≡ ok (p.string_substring_until path (length path - length c - 1)) s
  unfolding get_folder_path_from_file_path
  get_folder_path-last path cs c s parts = rw (parts, last_component-last cs c s) refl

  pub get_file_name-last :
      (path : List ℕ) (cs : List (List ℕ)) (c : List ℕ) (s : Fs)
      → p.string_split path slash ≡ cs ++ (c ∷ [])
      → get_file_name_from_file_path path s ≡ ok c s
  unfolding get_file_name_from_file_path
  get_file_name-last path cs c s parts = rw parts (last_component-last cs c s)

  create_and_save_file_node-present :
      (s : Fs) (parent child : ℕ) (d : Directory) (c : List ℕ)
      → c ≢ []
      → lookup c d.entries ≡ some child
      → (holds : HoldsDirectory s parent d)
      → create_and_save_file_node c parent s ≡ ok child (stored_node s parent holds.node)
  unfolding create_and_save_file_node
  create_and_save_file_node-present s parent child d c named present holds =
      let (e, run, number, name) = get_entry-small c named s holds.node d.entries holds.small in
      let (found, same) = number_of-some e child (number ∙ present) in
      rw
        (
          read_node-HoldsDirectory s parent d holds,
          exists_entry-present s parent child d c named present holds,
          run,
          unmap_and_destroy_node-stored_node s parent holds.node holds.inside,
        )
        (ap (λ n. ok n (stored_node s parent holds.node)) same)

  -- The path is valid; the library splits it into components and a last one `c`, and the path up
  -- to the slash before `c` into those components; all are not empty. The disk holds the tree,
  -- in which each directory has fewer than 32 entries in one data block. Where the components
  -- lead to a directory with an entry `c`, `sac_open` gives the node number of the first such
  -- entry, converted to an int, and the tree, the bitmap and the blocks behind the node table stay as they were.
  pub sac_open-lookup :
      (path : List ℕ) (cs : List (List ℕ)) (c : List ℕ) (s : Fs) (dirs : Directories)
      (parent num : ℕ) (d : Directory)
      → is_valid_path path ≡ true
      → p.string_split path slash ≡ cs ++ (c ∷ [])
      → p.string_split (p.string_substring_until path (length path - length c - 1)) slash ≡ cs
      → All (λ c. c ≢ []) cs
      → c ≢ []
      → HoldsTree s dirs
      → resolve dirs cs 0 ≡ some (some parent)
      → dirs parent ≡ some d
      → lookup c d.entries ≡ some num
      → (t : Fs) × (sac_open path s ≡ ok (int_of num) t) × OnlyRead dirs s t
  unfolding sac_open
  sac_open-lookup path cs c s dirs parent num d valid parts above named c-ne tree at here present =
      let folder = p.string_substring_until path (length path - length c - 1) in
      let (e, t, searched, number, read) =
        search_path-resolve folder s dirs (some parent) (rw above named) tree (rw above at) in
      let (found, same) = number_of-some e parent number in
      let holds = read.tree parent d here in
      (
        stored_node t parent holds.node,
        rw
            (
              valid,
              get_folder_path-last path cs c s parts,
              searched,
              found,
              get_file_name-last path cs c t parts,
              same,
              create_and_save_file_node-present t parent num d c c-ne present holds,
            )
            refl,
        OnlyRead-trans dirs s t (stored_node t parent holds.node) read
            (OnlyRead-visited t dirs parent d read.tree here holds),
      )
