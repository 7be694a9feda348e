-- ===== src/Sacio/Moved.antt =====
-- sac-fs/src/sacio.c: the renaming of a directory, against the tree of directories on the disk.
use linuse_fs.Base.{
  ℕ, ◌<◌, ◌≡◌, ◌≢◌, ap, sym, ◌∙◌, inl, inr, true, some, List, [], ◌∷◌, ◌++◌, arith, length, All,
  Bool-cases, ==→eq, ◌==◌,
}
use linuse_fs.Package.Copies.{IsString}
use linuse_fs.Platform.{Platform, slash}
use linuse_fs.Disk.{Fs, ok}
use linuse_fs.Node.{get_block_num_from_node_num}
use linuse_fs.Directory.Path.{is_valid_path, get_pre_dir_path_from_path}
use linuse_fs.Directory.Block.{lookup}
use linuse_fs.Directory.Entries.{erase}
use linuse_fs.Directory.Found.{get_entry-small}
use linuse_fs.Directory.Tree.{
  Directory, Directories, HoldsTree, read_node-HoldsDirectory, unmap_and_destroy_node-stored_node,
  stored_node,
}
use linuse_fs.Directory.Walk.{resolve, search_path-resolve, number_of-some}
use linuse_fs.Directory.Erased.{
  AreDisjoint, set_directory, IsPending-stored_node, delete_directory_entry-IsPending,
}
use linuse_fs.Directory.Grown.{with_child}
use linuse_fs.Status.{success}
use linuse_fs.Sacio.Tree.{sac_rename}
use linuse_fs.Sacio.Rmdir.{get_new_dir_name-last}
use linuse_fs.Sacio.Renaming.{sac_rename-IsRelinked, sac_rename-steps}

-- The directories when `name` is taken out of the directory `num`, and when an entry is added.
abbrev pub after_erase : Directories → ℕ → Directory → List ℕ → Directories
after_erase dirs num d name =
    set_directory dirs num (some (record d { entries = erase name d.entries }))

abbrev pub after_addition : Directories → ℕ → Directory → ℕ → List ℕ → Directories
after_addition dirs num d child name = set_directory dirs num (some (with_child d child name))

-- Other entries in the same blocks.
after_erase-AreDisjoint :
    (dirs : Directories) (num : ℕ) (d : Directory) (name : List ℕ)
    → dirs num ≡ some d
    → AreDisjoint dirs
    → AreDisjoint (after_erase dirs num d name)
after_erase-AreDisjoint dirs num d name here disjoint a b e e' ne at at' behind =
    let d' : Directory = record d { entries = erase name d.entries } in
    elim (Bool-cases (a == num)) [
      | inl same ↦
          let f : d' ≡ e = cc (rw same at at) in
          let g : d.entries_at ≡ e.entries_at = ap (λ x. x.entries_at) f in
          elim (Bool-cases (b == num)) [
            | inl same' ↦ absurd (ne (==→eq a num same ∙ sym (==→eq b num same')))
            | inr n' ↦
                let at0 : dirs a ≡ some d = ap dirs (==→eq a num same) ∙ here in
                rw (← g) (disjoint a b d e' ne at0 (rw n' at at') (omega (arith, g, behind)))
          ]
      | inr n ↦ elim (Bool-cases (b == num)) [
        | inl same' ↦
            let f : d' ≡ e' = cc (rw same' at at') in
            let at0 : dirs b ≡ some d = ap dirs (==→eq b num same') ∙ here in
            let (apart, apart') = disjoint a b e d ne (rw n at at) at0 behind in
            (
              λ z. apart (z ∙ sym (ap (λ x. x.pointers_at) f)),
              λ z. apart' (z ∙ sym (ap (λ x. x.entries_at) f)),
            )
        | inr n' ↦ disjoint a b e e' ne (rw n at at) (rw n' at at') behind
      ]
    ]

module _ ⦃p : Platform⦄ where
  -- Renaming a directory. Both paths are valid; the library splits each into components and a
  -- last one, and the path in front of the last one into those components, which are not empty,
  -- nor is the last one of the old path; that of the new path is a string of fewer than 71
  -- bytes. The disk holds the tree, in which each directory has fewer than 32 entries in one
  -- data block, which no other directory uses. The old path's components lead to a directory
  -- with an entry for its last one, whose first one is for a directory of the tree; the new
  -- path's components lead to a directory that has 1 to 30 entries once this entry is erased.
  -- Then `sac_rename` ends with success, and the disk holds the tree in which the entry is
  -- erased from the first directory, an entry with the new name for the same node stands at the
  -- end of the second, and the second is the renamed directory's parent.
  pub sac_rename-moved :
      (old new : List ℕ) (cs ds : List (List ℕ)) (old_name new_name : List ℕ) (s : Fs)
      (dirs : Directories) (from to num : ℕ) (d e child : Directory)
      → is_valid_path old ≡ true
      → is_valid_path new ≡ true
      → p.string_split old slash ≡ cs ++ (old_name ∷ [])
      → p.string_split new slash ≡ ds ++ (new_name ∷ [])
      → p.string_split (get_pre_dir_path_from_path old old_name) slash ≡ cs
      → p.string_split (get_pre_dir_path_from_path new new_name) slash ≡ ds
      → All (λ c. c ≢ []) cs
      → All (λ c. c ≢ []) ds
      → old_name ≢ []
      → IsString new_name
      → length new_name < 71
      → HoldsTree s dirs
      → AreDisjoint dirs
      → resolve dirs cs 0 ≡ some (some from)
      → resolve dirs ds 0 ≡ some (some to)
      → dirs from ≡ some d
      → lookup old_name d.entries ≡ some num
      → after_erase dirs from d old_name to ≡ some e
      → 0 < length e.entries
      → length e.entries < 31
      → after_addition (after_erase dirs from d old_name) to e num new_name num ≡ some child
      → (t : Fs) × (sac_rename old new s ≡ ok success t)
        × HoldsTree t (
            set_directory
              (after_addition (after_erase dirs from d old_name) to e num new_name)
              num
              (some (record child { parent_block = get_block_num_from_node_num to })))
  sac_rename-moved old new cs ds old_name new_name s dirs from to num d e child valid valid' parts
        parts' above above' named named' old_named string short tree disjoint at at' here listed
        there more few moves =
      let (e1, t1, searched1, number1, read1) =
        search_path-resolve (get_pre_dir_path_from_path old old_name) s dirs (some from)
          (rw above named) tree (rw above at) in
      let (e2, t2, searched2, number2, read2) =
        search_path-resolve (get_pre_dir_path_from_path new new_name) t1 dirs (some to)
          (rw above' named') read1.tree (rw above' at') in
      let holds = read2.tree from d here in
      let (f, got, number3, name3) =
        get_entry-small old_name old_named t2 holds.node d.entries holds.small in
      let (found3, same3) = number_of-some f num (number3 ∙ listed) in
      let (node, t2', deleted, pending, bitmap, kept) =
        delete_directory_entry-IsPending t2 dirs from num d old_name old_named read2.tree disjoint
          here listed holds in
      let t3 = stored_node t2' from node in
      let moved =
        sac_rename-IsRelinked t3 (after_erase dirs from d old_name) to num e child new_name
          (IsPending-stored_node t2' dirs from (record d { entries = erase old_name d.entries })
            node pending)
          (after_erase-AreDisjoint dirs from d old_name here disjoint) there more few string short
          moves in
      (
        moved.t6,
        sac_rename-steps old new old_name new_name old_name e1 e2 f from to num holds.node node
            moved.node moved.grown moved.child _ _ _ s t1 t2 t2' t3 moved.t4 moved.t5 moved.t6 valid
            valid' (get_new_dir_name-last old cs old_name s parts)
            (get_new_dir_name-last new ds new_name s parts') searched1 searched2
            (number_of-some e1 from number1) (number_of-some e2 to number2) (same3, name3 found3)
            (read_node-HoldsDirectory t2 from d holds) got deleted
            (unmap_and_destroy_node-stored_node t2' from node holds.inside) moved.read moved.added
            moved.closed moved.read_child moved.closed_child,
        moved.tree,
      )
