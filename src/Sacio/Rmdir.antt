-- ===== src/Sacio/Rmdir.antt =====
-- sac-fs/src/sacio.c: `sac_rmdir`, against the tree of directories on the disk.
use linuse_fs.Base.{
  ℕ, suc, ◌*◌, ◌<◌, ◌≡◌, ◌≢◌, refl, ap, sym, subst, ◌∙◌, true, false, some, none, List, [], ◌∷◌,
  ◌++◌, arith, length, All, ltb, lt→ltb, ◌==◌, ne→==,
}
use linuse_fs.Platform.{Platform, slash}
use linuse_fs.Disk.{Fs, ok, pure, and_then, ◌>>◌}
use linuse_fs.Node.{get_block_num_from_node_num}
use linuse_fs.Directory.Entry.{DirEntry, is_valid_entry}
use linuse_fs.Directory.Path.{is_valid_path, get_new_dir_name_from_path, search_path}
use linuse_fs.Directory.Update.{is_directory, delete_parent_entry, add_childs_to_list}
use linuse_fs.Directory.Block.{lookup}
use linuse_fs.Directory.Entries.{erase}
use linuse_fs.Directory.Listed.{collected}
use linuse_fs.Directory.Tree.{
  Directory, Directories, HoldsTree, HoldsDirectory, read_node-HoldsDirectory,
  unmap_and_destroy_node-stored_node, stored_node,
}
use linuse_fs.Directory.Visited.{HoldsTree-visited}
use linuse_fs.Directory.Walk.{
  resolve, search_path-child, number_of-some, OnlyRead, OnlyRead-trans, OnlyRead-visited,
}
use linuse_fs.Directory.Erased.{AreDisjoint, set_directory}
use linuse_fs.Status.{success, not_empty}
use linuse_fs.Sacio.Tree.{collect, delete_all, sac_rmdir}
use linuse_fs.Sacio.Removal.{
  last_component-last, delete_parent_entry-HoldsTree, add_childs_to_list-collected,
  delete_all-HoldsTree,
}

-- The directories without the empty one that `c` names in the directory `parent`.
abbrev pub without_child : Directories → ℕ → Directory → List ℕ → ℕ → Directories
without_child dirs parent d c num =
    set_directory (set_directory dirs parent (some (record d { entries = erase c d.entries }))) num
      none

module _ ⦃p : Platform⦄ where
  pub get_new_dir_name-last :
      (path : List ℕ) (cs : List (List ℕ)) (c : List ℕ) (s : Fs)
      → p.string_split path slash ≡ cs ++ (c ∷ [])
      → get_new_dir_name_from_path path s ≡ ok c s
  unfolding get_new_dir_name_from_path
  get_new_dir_name-last path cs c s parts = rw parts (last_component-last cs c s)

  is_directory-HoldsDirectory :
      (s : Fs) (e : DirEntry) (d : Directory)
      → HoldsDirectory s e.node_num d
      → is_directory e s ≡ ok true s
  unfolding is_directory
  is_directory-HoldsDirectory s e d holds =
      let directory : (holds.node.state == 2) ≡ true = rw holds.small.state refl in
      rw (read_node-HoldsDirectory s e.node_num d holds, directory) refl

  collect-done :
      (fuel : ℕ) (e : DirEntry) (s : Fs) → collect (suc fuel) (e ∷ []) 1 s ≡ ok (e ∷ []) s
  unfolding collect
  collect-done fuel e s = refl

  -- The steps of the removal, once the entry is found.
  sac_rmdir-steps :
      (path c : List ℕ) (e : DirEntry) (s t u v w : Fs) (d : Directory)
      → is_valid_path path ≡ true
      → get_new_dir_name_from_path path s ≡ ok c s
      → search_path path s ≡ ok e t
      → is_valid_entry e ≡ true
      → (holds : HoldsDirectory t e.node_num d) → d.entries ≡ []
      → delete_parent_entry e t ≡ ok tt u
      → add_childs_to_list (e ∷ []) e u ≡ ok (e ∷ []) v
      → delete_all (e ∷ []) v ≡ ok tt w
      → sac_rmdir path s ≡ ok success w
  unfolding sac_rmdir
  sac_rmdir-steps path c e s t u v w d valid named searched found holds empty parent children all =
      let size : ltb 0 holds.node.file_size ≡ false = rw (holds.small.size, empty) refl in
      rw
        (
          valid,
          named,
          searched,
          found,
          is_directory-HoldsDirectory t e d holds,
          read_node-HoldsDirectory t e.node_num d holds,
          size,
          parent,
          children,
        )
        (ap (λ r. and_then r (λ list. delete_all list >> pure success)) (collect-done 32 e v)
          ∙ ap (λ r. and_then r (λ u. pure success)) all)

  pub All-last : (cs : List (List ℕ)) (c : List ℕ) → All (λ c. c ≢ []) (cs ++ (c ∷ [])) → c ≢ []
  All-last [] c (ne, named) = ne
  All-last (b ∷ cs) c (ne, named) = All-last cs c named

  -- The removal, for the entry that the search gives.
  sac_rmdir-entry :
      (path c : List ℕ) (e : DirEntry) (s t : Fs) (dirs : Directories) (parent : ℕ)
      (d child : Directory)
      → is_valid_path path ≡ true
      → get_new_dir_name_from_path path s ≡ ok c s
      → search_path path s ≡ ok e t
      → is_valid_entry e ≡ true
      → e.name ≢ []
      → HoldsTree t dirs
      → AreDisjoint dirs
      → dirs parent ≡ some d
      → lookup e.name d.entries ≡ some e.node_num
      → dirs e.node_num ≡ some child
      → child.entries ≡ []
      → child.parent_block ≡ get_block_num_from_node_num parent
      → e.node_num ≢ parent
      → get_block_num_from_node_num e.node_num < 8 * t.bitmap.size
      → (u : Fs) × (sac_rmdir path s ≡ ok success u)
        × HoldsTree u (without_child dirs parent d e.name e.node_num)
        × (u.bitmap ≡ p.clean_bit t.bitmap (get_block_num_from_node_num e.node_num))
  sac_rmdir-entry path c e s t dirs parent d child valid name searched found named tree disjoint
        here listed there empty linked ne marked =
      let d' : Directory = record d { entries = erase e.name d.entries } in
      let dirs' = set_directory dirs parent (some d') in
      let (u, run, tree1, bitmap) =
        delete_parent_entry-HoldsTree t dirs e parent d child named tree disjoint here listed there
          ne linked in
      let there' : dirs' e.node_num ≡ some child = rw (ne→== e.node_num parent ne) there in
      let holds = tree1 e.node_num child there' in
      let v = stored_node u e.node_num holds.node in
      let children : add_childs_to_list (e ∷ []) e u ≡ ok (e ∷ []) v =
        add_childs_to_list-collected u e child (e ∷ []) holds
        ∙ ap (λ es. ok ((e ∷ []) ++ collected (λ e. e) es) v) empty in
      let (w, all, tree2, bitmap') =
        delete_all-HoldsTree v dirs' e child
          (HoldsTree-visited u dirs' e.node_num child tree1 there' holds) there' empty
          (rw bitmap marked) in
      (
        w,
        sac_rmdir-steps path c e s t u v w child valid name searched found
            (tree e.node_num child there) empty run children all,
        tree2,
        bitmap' ∙ ap (λ b. p.clean_bit b (get_block_num_from_node_num e.node_num)) bitmap,
      )

  -- The path is valid, and the library splits it into components `cs` and a last one `c`, none
  -- of them empty. The disk holds the tree, in which each directory has fewer than 32 entries in
  -- one data block, which no other directory uses. `cs` leads to a directory whose first entry
  -- with the name `c` is another directory; that one is empty, has the first as its parent, and
  -- its block has a bit in the bitmap. Then `sac_rmdir` ends with success; the disk holds the
  -- tree without the directory and without its entry, and the bitmap is the old one with the bit
  -- of its block cleared by the library.
  pub sac_rmdir-without_child :
      (path : List ℕ) (cs : List (List ℕ)) (c : List ℕ) (s : Fs) (dirs : Directories)
      (parent num : ℕ) (d child : Directory)
      → is_valid_path path ≡ true
      → p.string_split path slash ≡ cs ++ (c ∷ [])
      → All (λ c. c ≢ []) (cs ++ (c ∷ []))
      → HoldsTree s dirs
      → AreDisjoint dirs
      → resolve dirs cs 0 ≡ some (some parent)
      → dirs parent ≡ some d
      → lookup c d.entries ≡ some num
      → dirs num ≡ some child
      → child.entries ≡ []
      → child.parent_block ≡ get_block_num_from_node_num parent
      → num ≢ parent
      → get_block_num_from_node_num num < 8 * s.bitmap.size
      → (t : Fs) × (sac_rmdir path s ≡ ok success t)
        × HoldsTree t (without_child dirs parent d c num)
        × (t.bitmap ≡ p.clean_bit s.bitmap (get_block_num_from_node_num num))
  sac_rmdir-without_child path cs c s dirs parent num d child valid parts named tree disjoint at
        here listed there empty linked ne marked =
      let (e, t, searched, number, name, read) =
        search_path-child path cs c s dirs parent d parts named tree at here in
      let (found, same) = number_of-some e num (number ∙ listed) in
      let e-name = name found in
      let (u, run, tree', bitmap) =
        sac_rmdir-entry path c e s t dirs parent d child valid
          (get_new_dir_name-last path cs c s parts) searched found
          (λ z. All-last cs c named (sym e-name ∙ z)) read.tree disjoint here
          (ap (λ n. lookup n d.entries) e-name ∙ listed ∙ ap some (sym same)) (ap dirs same ∙ there)
          empty linked (λ z. ne (sym same ∙ z))
          (subst (λ b. get_block_num_from_node_num e.node_num < 8 * b.size) (sym read.bitmap)
            (subst (λ n. get_block_num_from_node_num n < 8 * s.bitmap.size) (sym same) marked)) in
      (
        u,
        run,
        subst (λ n. HoldsTree u (without_child dirs parent d c n)) same
            (subst (λ n. HoldsTree u (without_child dirs parent d n e.node_num)) e-name tree'),
        bitmap
            ∙ ap (λ b. p.clean_bit b (get_block_num_from_node_num e.node_num)) read.bitmap
            ∙ ap (λ n. p.clean_bit s.bitmap (get_block_num_from_node_num n)) same,
      )

  -- The path is valid, and the library splits it into components that are not empty. It leads,
  -- through a directory of the tree, to a directory that has entries; the disk holds the tree,
  -- in which each directory has fewer than 32 entries in one data block. Then `sac_rmdir` gives
  -- -2, and the tree, the bitmap and the blocks behind the node table stay as they were.
  pub sac_rmdir-not_empty :
      (path : List ℕ) (cs : List (List ℕ)) (c : List ℕ) (s : Fs) (dirs : Directories)
      (parent num : ℕ) (d child : Directory)
      → is_valid_path path ≡ true
      → p.string_split path slash ≡ cs ++ (c ∷ [])
      → All (λ c. c ≢ []) (cs ++ (c ∷ []))
      → HoldsTree s dirs
      → resolve dirs cs 0 ≡ some (some parent)
      → dirs parent ≡ some d
      → lookup c d.entries ≡ some num
      → dirs num ≡ some child
      → 0 < length child.entries
      → (t : Fs) × (sac_rmdir path s ≡ ok not_empty t) × OnlyRead dirs s t
  unfolding sac_rmdir
  sac_rmdir-not_empty path cs c s dirs parent num d child valid parts named tree at here listed
        there more =
      let (e, t, searched, number, name, read) =
        search_path-child path cs c s dirs parent d parts named tree at here in
      let (found, same) = number_of-some e num (number ∙ listed) in
      let there' : dirs e.node_num ≡ some child = ap dirs same ∙ there in
      let holds = read.tree e.node_num child there' in
      let size : ltb 0 holds.node.file_size ≡ true =
        lt→ltb 0 holds.node.file_size (omega (arith, holds.small.size)) in
      (
        stored_node t e.node_num holds.node,
        rw
            (
              valid,
              get_new_dir_name-last path cs c s parts,
              searched,
              found,
              is_directory-HoldsDirectory t e child holds,
              read_node-HoldsDirectory t e.node_num child holds,
              size,
              unmap_and_destroy_node-stored_node t e.node_num holds.node holds.inside,
            )
            refl,
        OnlyRead-trans dirs s t (stored_node t e.node_num holds.node) read
            (OnlyRead-visited t dirs e.node_num child read.tree there' holds),
      )
