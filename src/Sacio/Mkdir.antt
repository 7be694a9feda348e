-- ===== src/Sacio/Mkdir.antt =====
-- sac-fs/src/sacio.c: `sac_mkdir`, against the tree of directories on the disk.
use linuse_fs.Base.{
  ℕ, ◌+◌, ◌*◌, ◌^◌, ◌≤◌, ◌<◌, ◌≡◌, ◌≢◌, refl, subst, ◌∙◌, true, false, some, none, List, [], ◌∷◌,
  ◌++◌, length, All,
}
use linuse_fs.Package.Copies.{IsString}
use linuse_fs.Platform.{Platform, BitLaws, slash}
use linuse_fs.Disk.{Fs, ok, node_table_blocks, node_table_initial_block}
use linuse_fs.Bitmap.Alloc.{IsFirstFree, IsMarked}
use linuse_fs.Node.{get_block_num_from_node_num}
use linuse_fs.Directory.Iterate.{exists_entry}
use linuse_fs.Directory.Path.{is_valid_path, get_pre_dir_path_from_path}
use linuse_fs.Directory.Block.{lookup}
use linuse_fs.Directory.Found.{get_entry-small}
use linuse_fs.Directory.Tree.{
  Directory, Directories, HoldsTree, HoldsDirectory, read_node-HoldsDirectory,
  unmap_and_destroy_node-stored_node, stored_node,
}
use linuse_fs.Directory.Walk.{
  resolve, search_path-resolve, number_of-some, number_of-none, OnlyRead, OnlyRead-trans,
  OnlyRead-visited,
}
use linuse_fs.Directory.Erased.{AreDisjoint, IsPending-stored_node}
use linuse_fs.Status.{success, failure}
use linuse_fs.Sacio.Tree.{sac_mkdir}
use linuse_fs.Sacio.Rmdir.{get_new_dir_name-last}
use linuse_fs.Sacio.NewDirectory.{with_new_child, create_dir_node_and_add_entry-IsPending}

module _ ⦃p : Platform⦄ where
  pub exists_entry-absent :
      (s : Fs) (num : ℕ) (d : Directory) (c : List ℕ)
      → c ≢ []
      → lookup c d.entries ≡ none
      → (holds : HoldsDirectory s num d) → exists_entry holds.node c s ≡ ok false s
  unfolding exists_entry
  exists_entry-absent s num d c named absent holds =
      let (e, run, number, name) = get_entry-small c named s holds.node d.entries holds.small in
      rw (run, number_of-none e (number ∙ absent)) refl

  pub exists_entry-present :
      (s : Fs) (num child : ℕ) (d : Directory) (c : List ℕ)
      → c ≢ []
      → lookup c d.entries ≡ some child
      → (holds : HoldsDirectory s num d) → exists_entry holds.node c s ≡ ok true s
  unfolding exists_entry
  exists_entry-present s num child d c named present holds =
      let (e, run, number, name) = get_entry-small c named s holds.node d.entries holds.small in
      rw (run, (number_of-some e child (number ∙ present)).0) refl

  -- Given the laws of the bit arrays. The path is valid; the library splits it into components
  -- and a last one `c`, and the path in front of `c` into those components. They are not empty,
  -- and `c` is a string of 1 to 70 bytes. The disk holds the tree, in which each directory has
  -- fewer than 32 entries in one data block, which no other directory uses. The components lead
  -- to a directory with 1 to 30 entries, none of them `c`. The first free block from the node
  -- table on is that of a node which is no directory of the tree; the bitmap has a bit for each
  -- block of the node table; the clock fits 8 bytes. Then `sac_mkdir` ends with success; the
  -- disk holds the tree with a new empty directory at that node, whose parent is the first, and
  -- with an entry for it at the end of the parent; and exactly the bit of its block is set in
  -- the bitmap.
  pub sac_mkdir-with_new_child :
      (laws : BitLaws p) (path : List ℕ) (cs : List (List ℕ)) (c : List ℕ) (s : Fs)
      (dirs : Directories) (parent num : ℕ) (d : Directory)
      → is_valid_path path ≡ true
      → p.string_split path slash ≡ cs ++ (c ∷ [])
      → p.string_split (get_pre_dir_path_from_path path c) slash ≡ cs
      → All (λ c. c ≢ []) cs
      → c ≢ []
      → IsString c
      → length c < 71
      → HoldsTree s dirs
      → AreDisjoint dirs
      → resolve dirs cs 0 ≡ some (some parent)
      → dirs parent ≡ some d
      → 0 < length d.entries
      → length d.entries < 31
      → lookup c d.entries ≡ none
      → dirs num ≡ none
      → num < node_table_blocks
      → IsFirstFree s.bitmap node_table_initial_block (get_block_num_from_node_num num)
      → node_table_initial_block + node_table_blocks ≤ 8 * s.bitmap.size
      → p.now < 2 ^ 64
      → (t : Fs) × (sac_mkdir path s ≡ ok success t)
        × HoldsTree t (with_new_child dirs parent d c num)
        × IsMarked s.bitmap (get_block_num_from_node_num num) t.bitmap
  unfolding sac_mkdir
  sac_mkdir-with_new_child laws path cs c s dirs parent num d valid parts above named c-ne string
        short tree disjoint at here more few absent fresh inside first_free large clock =
      let (e, t, searched, number, read) =
        search_path-resolve (get_pre_dir_path_from_path path c) s dirs (some parent)
          (rw above named) tree (rw above at) in
      let (found, same) = number_of-some e parent number in
      let holds = read.tree parent d here in
      let (node, u, run, pending, marked) =
        create_dir_node_and_add_entry-IsPending laws t dirs parent num d c read.tree disjoint here
          fresh inside (rw read.bitmap first_free) (rw read.bitmap large) clock more few string
          short holds in
      (
        stored_node u parent node,
        rw
            (
              valid,
              get_new_dir_name-last path cs c s parts,
              searched,
              found,
              same,
              read_node-HoldsDirectory t parent d holds,
              exists_entry-absent t parent d c c-ne absent holds,
              run,
              unmap_and_destroy_node-stored_node u parent node holds.inside,
            )
            refl,
        IsPending-stored_node u _ parent _ node pending,
        subst (λ b. IsMarked b (get_block_num_from_node_num num) u.bitmap) read.bitmap marked,
      )

  -- Where the path is valid and the directory of the tree that its components but the last lead
  -- to has an entry with the last one, `sac_mkdir` gives -1 and changes neither the tree nor the
  -- bitmap nor the blocks behind the node table.
  pub sac_mkdir-exists :
      (path : List ℕ) (cs : List (List ℕ)) (c : List ℕ) (s : Fs) (dirs : Directories)
      (parent child : ℕ) (d : Directory)
      → is_valid_path path ≡ true
      → p.string_split path slash ≡ cs ++ (c ∷ [])
      → p.string_split (get_pre_dir_path_from_path path c) slash ≡ cs
      → All (λ c. c ≢ []) cs
      → c ≢ []
      → HoldsTree s dirs
      → resolve dirs cs 0 ≡ some (some parent)
      → dirs parent ≡ some d
      → lookup c d.entries ≡ some child
      → (t : Fs) × (sac_mkdir path s ≡ ok failure t) × OnlyRead dirs s t
  unfolding sac_mkdir
  sac_mkdir-exists path cs c s dirs parent child d valid parts above named c-ne tree at here
        present =
      let (e, t, searched, number, read) =
        search_path-resolve (get_pre_dir_path_from_path path c) s dirs (some parent)
          (rw above named) tree (rw above at) in
      let (found, same) = number_of-some e parent number in
      let holds = read.tree parent d here in
      (
        stored_node t parent holds.node,
        rw
            (
              valid,
              get_new_dir_name-last path cs c s parts,
              searched,
              found,
              same,
              read_node-HoldsDirectory t parent d holds,
              exists_entry-present t parent child d c c-ne present holds,
              unmap_and_destroy_node-stored_node t parent holds.node holds.inside,
            )
            refl,
        OnlyRead-trans dirs s t (stored_node t parent holds.node) read
            (OnlyRead-visited t dirs parent d read.tree here holds),
      )
