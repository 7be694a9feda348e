-- ===== src/Sacio/Missing.antt =====
-- sac-fs/src/sacio.c: the renaming of a file that does not exist, against the tree of directories on
-- the disk.
use linuse_fs.Base.{
  ℕ, ◌+◌, ◌-◌, ◌^◌, ◌<◌, ◌≡◌, ◌≢◌, refl, inl, inr, true, false, some, none, List, [], ◌∷◌, ◌++◌,
  length, All, str_eq, str_eq→eq, Bool-cases,
}
use linuse_fs.Package.Copies.{IsString}
use linuse_fs.Platform.{Platform, slash}
use linuse_fs.Disk.{Fs, ok}
use linuse_fs.Node.{Node, get_block_num_from_node_num}
use linuse_fs.Directory.Entry.{
  DirEntry, invalid_entry, is_valid_entry, with_byte_num, with_block_num, with_pointer_block_num,
}
use linuse_fs.Directory.Iterate.{find_entry, get_entry}
use linuse_fs.Directory.Path.{is_valid_path, get_pre_dir_path_from_path}
use linuse_fs.Directory.Update.{delete_directory_entry}
use linuse_fs.Directory.Block.{lookup, entries_block}
use linuse_fs.Directory.Scan.{
  IsSmallDirectory, scan, placed, iterate_pointers_blocks-scan, iterate_pointers_blocks-empty,
}
use linuse_fs.Directory.Tree.{
  Directory, Directories, HoldsTree, read_node-HoldsDirectory, unmap_and_destroy_node-stored_node,
  stored_node,
}
use linuse_fs.Directory.Visited.{HoldsTree-visited}
use linuse_fs.Directory.Walk.{resolve, search_path-resolve, number_of-some}
use linuse_fs.Directory.Erased.{AreDisjoint, set_directory}
use linuse_fs.Directory.Grown.{with_child}
use linuse_fs.Status.{success}
use linuse_fs.Sacio.Tree.{sac_rename}
use linuse_fs.Sacio.Renaming.{sac_rename-IsRelinked, sac_rename-steps}
use linuse_fs.Sacio.Rmdir.{get_new_dir_name-last}

-- What the search for a name that is not there leaves: no name, and the number of the root.
abbrev IsNothing : DirEntry → Type 0
IsNothing e = (e.name ≡ []) × (e.node_num ≡ 0)

scan-IsNothing :
    (name : List ℕ) (es : List (ℕ × List ℕ)) (k : ℕ)
    → lookup name es ≡ none
    → IsNothing (scan (find_entry name) es k invalid_entry tt).0
unfolding scan find_entry with_byte_num
scan-IsNothing name [] k absent = (refl, refl)
scan-IsNothing name ((num, entry_name) ∷ es) k absent = elim (Bool-cases (str_eq entry_name name)) [
  | inl same ↦ absurd (cc (rw same at absent))
  | inr other ↦ rw other (scan-IsNothing name es (k + 128) (rw other at absent))
]

get_entry-IsNothing :
    (name : List ℕ) (s : Fs) (node : Node) (es : List (ℕ × List ℕ))
    → lookup name es ≡ none
    → IsSmallDirectory s node es
    → (e : DirEntry) × (get_entry node name s ≡ ok e s) × IsNothing e
unfolding get_entry with_pointer_block_num with_block_num
get_entry-IsNothing name s node [] absent small = (
  with_pointer_block_num invalid_entry (2 ^ 32 - 1),
  rw (iterate_pointers_blocks-empty (find_entry name) s node tt small) refl,
  (refl, refl),
)
get_entry-IsNothing name s node (e ∷ es) absent small = (
  (placed (find_entry name) (entries_block s node)
      (scan (find_entry name) (e ∷ es) 0 invalid_entry tt)).0,
  rw (iterate_pointers_blocks-scan (find_entry name) s node e es tt small) refl,
  scan-IsNothing name (e ∷ es) 0 absent,
)

-- An entry without a name is not valid, so nothing is deleted.
scan-nameless :
    (es : List (ℕ × List ℕ)) (k : ℕ) (e : DirEntry)
    → is_valid_entry e ≡ false
    → is_valid_entry (scan (find_entry []) es k e tt).0 ≡ false
unfolding scan find_entry with_byte_num
scan-nameless [] k e invalid = invalid
scan-nameless ((num, name) ∷ es) k e invalid = elim (Bool-cases (str_eq name [])) [
  | inl same ↦
      let empty : name ≡ [] = str_eq→eq name [] same in
      rw (invalid, same) (scan-nameless es (k + 128) _ (rw empty refl))
  | inr other ↦ rw (invalid, other) (scan-nameless es (k + 128) invalid_entry refl)
]

delete_directory_entry-nameless :
    (s : Fs) (node : Node) (es : List (ℕ × List ℕ))
    → IsSmallDirectory s node es
    → delete_directory_entry node [] s ≡ ok node s
unfolding delete_directory_entry with_pointer_block_num with_block_num
delete_directory_entry-nameless s node [] small =
    rw (iterate_pointers_blocks-empty (find_entry []) s node tt small) refl
delete_directory_entry-nameless s node (e ∷ es) small =
    rw
      (
        iterate_pointers_blocks-scan (find_entry []) s node e es tt small,
        scan-nameless (e ∷ es) 0 invalid_entry refl,
      )
      refl

module _ ⦃p : Platform⦄ where
  -- Renaming a file that does not exist. Both paths are valid; the library splits each into
  -- components and a last one, and the path in front of the last one into those components,
  -- which are not empty; the last one of the new path is a string of fewer than 71 bytes. The
  -- disk holds the tree, in which each directory has fewer than 32 entries in one data block,
  -- which no other directory uses. The first path's components lead to a directory without an
  -- entry for its last one, the second's to a directory with 1 to 30 entries, and node 0 is a
  -- directory. Then `sac_rename` ends with success: the second directory gets an entry with the
  -- new name for node 0, the root, and becomes the root's parent.
  pub sac_rename-missing :
      (old new : List ℕ) (cs ds : List (List ℕ)) (old_name new_name : List ℕ) (s : Fs)
      (dirs : Directories) (from to : ℕ) (d e root : Directory)
      → is_valid_path old ≡ true
      → is_valid_path new ≡ true
      → p.string_split old slash ≡ cs ++ (old_name ∷ [])
      → p.string_split new slash ≡ ds ++ (new_name ∷ [])
      → p.string_split (get_pre_dir_path_from_path old old_name) slash ≡ cs
      → p.string_split (get_pre_dir_path_from_path new new_name) slash ≡ ds
      → All (λ c. c ≢ []) cs
      → All (λ c. c ≢ []) ds
      → IsString new_name
      → length new_name < 71
      → HoldsTree s dirs
      → AreDisjoint dirs
      → resolve dirs cs 0 ≡ some (some from)
      → resolve dirs ds 0 ≡ some (some to)
      → dirs from ≡ some d
      → dirs to ≡ some e
      → lookup old_name d.entries ≡ none
      → 0 < length e.entries
      → length e.entries < 31
      → set_directory dirs to (some (with_child e 0 new_name)) 0 ≡ some root
      → (t : Fs) × (sac_rename old new s ≡ ok success t)
        × HoldsTree t (
            set_directory
              (set_directory dirs to (some (with_child e 0 new_name)))
              0
              (some (record root { parent_block = get_block_num_from_node_num to })))
  sac_rename-missing old new cs ds old_name new_name s dirs from to d e root valid valid' parts
        parts' above above' named named' string short tree disjoint at at' here there absent more
        few top =
      let (e1, t1, searched1, number1, read1) =
        search_path-resolve (get_pre_dir_path_from_path old old_name) s dirs (some from)
          (rw above named) tree (rw above at) in
      let (e2, t2, searched2, number2, read2) =
        search_path-resolve (get_pre_dir_path_from_path new new_name) t1 dirs (some to)
          (rw above' named') read1.tree (rw above' at') in
      let holds = read2.tree from d here in
      let (nothing, got, empty) =
        get_entry-IsNothing old_name t2 holds.node d.entries absent holds.small in
      let t3 = stored_node t2 from holds.node in
      let moved =
        sac_rename-IsRelinked t3 dirs to 0 e root new_name
          (HoldsTree-visited t2 dirs from d read2.tree here holds) disjoint there more few string
          short top in
      (
        moved.t6,
        sac_rename-steps old new old_name new_name [] e1 e2 nothing from to 0 holds.node holds.node
            moved.node moved.grown moved.child _ _ _ s t1 t2 t2 t3 moved.t4 moved.t5 moved.t6 valid
            valid' (get_new_dir_name-last old cs old_name s parts)
            (get_new_dir_name-last new ds new_name s parts') searched1 searched2
            (number_of-some e1 from number1) (number_of-some e2 to number2) (empty.1, empty.0)
            (read_node-HoldsDirectory t2 from d holds) got
            (delete_directory_entry-nameless t2 holds.node d.entries holds.small)
            (unmap_and_destroy_node-stored_node t2 from holds.node holds.inside) moved.read
            moved.added moved.closed moved.read_child moved.closed_child,
        moved.tree,
      )
