-- ===== src/Sacio/Tree.antt =====
-- The directory tree: `sac_mkdir`, `sac_rmdir`, `sac_readdir` and `sac_rename`.
use linuse_fs.Base.{
  ℕ, zero, suc, ◌+◌, ◌/◌, ◌&&◌, ◌||◌, not, Option, none, some, List, [], ◌∷◌, ◌++◌, ltb, ◌==◌,
  if◌then◌else◌, length, drop, take,
}
use linuse_fs.Platform.{Platform}
use linuse_fs.Disk.{
  node_table_blocks, node_table_initial_block, dir_entry_size, out_of_fuel, Cmd, pure, crash, ◌>>=◌,
  ◌>>◌,
}
use linuse_fs.Node.{u32, read_node, unmap_and_destroy_node, delete_node}
use linuse_fs.Directory.Entry.{DirEntry, invalid_entry, is_valid_entry}
use linuse_fs.Directory.Iterate.{iterate_pointers_blocks, get_entry, exists_entry}
use linuse_fs.Directory.Path.{
  is_valid_path, search_path, get_new_dir_name_from_path, get_pre_dir_path_from_path,
}
use linuse_fs.Directory.Update.{
  add_directory_entry, delete_directory_entry, delete_all_directory_entries,
  create_dir_node_and_add_entry, add_childs_to_list, is_directory, delete_parent_entry,
}
use linuse_fs.Status.{Status, success, failure, not_empty}

module _ ⦃p : Platform⦄ where
  unfoldable pub sac_mkdir : List ℕ → Cmd Status
  unfolding is_valid_path get_new_dir_name_from_path get_pre_dir_path_from_path search_path
      read_node exists_entry create_dir_node_and_add_entry unmap_and_destroy_node
  sac_mkdir path = if not (is_valid_path path) then pure failure else (do
    new_dir_name ← get_new_dir_name_from_path path
    entry ← search_path (get_pre_dir_path_from_path path new_dir_name)
    if is_valid_entry entry
        then (do
          (pre_dir_node, pre_dir_node_block) ← read_node entry.node_num
          found ← exists_entry pre_dir_node new_dir_name
          if found
              then (do unmap_and_destroy_node pre_dir_node pre_dir_node_block; pure failure)
              else (do
                pre_dir_node' ←
                    create_dir_node_and_add_entry pre_dir_node entry.node_num new_dir_name
                unmap_and_destroy_node pre_dir_node' pre_dir_node_block
                pure success))
        else pure failure)

  -- The loop that adds the children of element `i` to the list, for each `i` below its size. It runs
  -- on fuel, since the list grows meanwhile.
  unfoldable pub collect : ℕ → List DirEntry → ℕ → Cmd (List DirEntry)
  unfolding add_childs_to_list
  collect zero list i = λ _. out_of_fuel
  collect (suc fuel) list i = elim (drop i list) [
    | [] ↦ pure list
    | e ∷ _ ↦ (do list' ← add_childs_to_list list e; collect fuel list' (i + 1))
  ]

  unfoldable pub delete_all : List DirEntry → Cmd (Unit {0})
  unfolding delete_all_directory_entries delete_node
  delete_all [] = pure tt
  delete_all (e ∷ es) = do
    delete_all_directory_entries e.node_num
    delete_node e.node_num
    delete_all es

  -- The directory is empty when it comes to the list, which has one element then: the fuel is one
  -- round for each node that the table can hold, and one more.
  unfoldable pub sac_rmdir : List ℕ → Cmd Status
  unfolding is_valid_path get_new_dir_name_from_path search_path is_directory read_node
      unmap_and_destroy_node delete_parent_entry collect delete_all
  sac_rmdir path = if not (is_valid_path path) then pure failure else (do
    _ ← get_new_dir_name_from_path path
    entry ← search_path path
    if not (is_valid_entry entry) then pure failure else (do
      directory ← is_directory entry
      if not directory then pure failure else (do
        (node, node_block) ← read_node entry.node_num
        if ltb 0 node.file_size
            then (do unmap_and_destroy_node node node_block; pure not_empty)
            else (do
              delete_parent_entry entry
              list ← add_childs_to_list (entry ∷ []) entry
              list' ← collect (node_table_blocks + 1) list 1
              delete_all list'
              pure success))))

  -- The names, in the order of the entries. The array has room for `number_of_entries` names and the
  -- NULL behind them, which overwrites a name more. With two names more the array is left; with fewer
  -- names it has pointers that were never set, up to the NULL, which whoever reads the array follows.
  -- Both are `crash`.
  unfoldable pub sac_readdir : List ℕ → Cmd (Option (List (List ℕ)))
  unfolding is_valid_path search_path read_node unmap_and_destroy_node iterate_pointers_blocks
  sac_readdir path = if not (is_valid_path path) then pure none else (do
    entry ← search_path path
    (dir_node, dir_node_block) ← read_node entry.node_num
    if not (is_valid_entry entry) || not (dir_node.state == 2)
        then (do unmap_and_destroy_node dir_node dir_node_block; pure none)
        else (do
          (_, names) ←
              iterate_pointers_blocks (λ e l. (invalid_entry, l ++ (e.name ∷ []))) dir_node []
          let number = dir_node.file_size / dir_entry_size
          if length names == number
              then (do unmap_and_destroy_node dir_node dir_node_block; pure (some names))
              else if length names == number + 1
              then (do
                unmap_and_destroy_node dir_node dir_node_block
                pure (some (take number names)))
              else crash))

  unfoldable pub sac_rename : List ℕ → List ℕ → Cmd Status
  unfolding is_valid_path get_new_dir_name_from_path get_pre_dir_path_from_path search_path
      read_node get_entry delete_directory_entry unmap_and_destroy_node add_directory_entry
  sac_rename old_path new_path =
      if not (is_valid_path old_path) || not (is_valid_path new_path) then pure failure else (do
        old_file_name ← get_new_dir_name_from_path old_path
        new_file_name ← get_new_dir_name_from_path new_path
        old_dir_entry ← search_path (get_pre_dir_path_from_path old_path old_file_name)
        new_dir_entry ← search_path (get_pre_dir_path_from_path new_path new_file_name)
        if is_valid_entry old_dir_entry && is_valid_entry new_dir_entry
            then (do
              (old_dir_node, old_dir_block) ← read_node old_dir_entry.node_num
              old_file_entry ← get_entry old_dir_node old_file_name
              old_dir_node' ← delete_directory_entry old_dir_node old_file_entry.name
              unmap_and_destroy_node old_dir_node' old_dir_block
              (new_dir_node, new_dir_block) ← read_node new_dir_entry.node_num
              new_dir_node' ← add_directory_entry new_dir_node new_file_name old_file_entry.node_num
              unmap_and_destroy_node new_dir_node' new_dir_block
              (file_node, file_node_block) ← read_node old_file_entry.node_num
              unmap_and_destroy_node
                  (record file_node {
                    parent_block = u32 (new_dir_entry.node_num + node_table_initial_block);
                  })
                  file_node_block
              pure success)
            else pure failure)
