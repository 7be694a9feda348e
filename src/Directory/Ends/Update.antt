-- ===== src/Directory/Ends/Update.antt =====
-- Termination for the walk along a path, and for what changes a directory (sac-fs/src/directory.c).
use linuse_fs.Base.{ℕ, zero, suc, ◌+◌, List, [], ◌∷◌}
use linuse_fs.Platform.{Platform}
use linuse_fs.Disk.{Fs}
use linuse_fs.Disk.Ends.{Ends, ends}
use linuse_fs.Node.{Node}
use linuse_fs.Node.Ends.{
  pointer_at-Ends, free_block-Ends, create_node-Ends, get_free_node_block-Ends, block_to_node-Ends,
  read_node-Ends, create_pointers_block_in_node-Ends, create_data_block_in_pointer_block-Ends,
}
use linuse_fs.Directory.Entry.{DataPosition, DirEntry}
use linuse_fs.Directory.Iterate.{get_entry, exists_entry}
use linuse_fs.Directory.Path.{
  walk, search_path, last_component, get_new_dir_name_from_path, get_folder_path_from_file_path,
  get_file_name_from_file_path,
}
use linuse_fs.Directory.Update.{
  read_next_data_block, add_directory_entry, delete_directory_entry, free_pointers,
  delete_all_directory_entries, create_dir_node, create_and_save_dir_node,
  create_dir_node_and_add_entry, add_childs_to_list, is_directory, delete_parent_entry,
}
use linuse_fs.Directory.Ends.{iterate_pointers_blocks-Ends}

pub get_entry-Ends : (node : Node) (name : List ℕ) (s : Fs) → Ends (get_entry node name s)
unfolding get_entry
get_entry-Ends node name s = search (ends, iterate_pointers_blocks-Ends)

pub exists_entry-Ends : (node : Node) (name : List ℕ) (s : Fs) → Ends (exists_entry node name s)
unfolding exists_entry
exists_entry-Ends node name s = search (ends, get_entry-Ends)

pub delete_directory_entry-Ends :
    (node : Node) (name : List ℕ) (s : Fs) → Ends (delete_directory_entry node name s)
unfolding delete_directory_entry
delete_directory_entry-Ends node name s = search (ends, iterate_pointers_blocks-Ends)

module _ ⦃p : Platform⦄ where
  walk-Ends : (path : List (List ℕ)) (entry : DirEntry) (s : Fs) → Ends (walk path entry s)
  unfolding walk
  walk-Ends [] entry s = tt
  walk-Ends (component ∷ rest) entry s =
      let next : (e : DirEntry) (s' : Fs) → Ends (walk rest e s') = walk-Ends rest in
      search (ends, read_node-Ends, get_entry-Ends) depth 9

  pub search_path-Ends : (path : List ℕ) (s : Fs) → Ends (search_path path s)
  unfolding search_path
  search_path-Ends path s = search walk-Ends

  last_component-Ends : (path : List (List ℕ)) (s : Fs) → Ends (last_component path s)
  unfolding last_component
  last_component-Ends [] s = tt
  last_component-Ends (c ∷ []) s = tt
  last_component-Ends (c ∷ d ∷ cs) s = last_component-Ends (d ∷ cs) s

  pub get_new_dir_name_from_path-Ends :
      (path : List ℕ) (s : Fs) → Ends (get_new_dir_name_from_path path s)
  unfolding get_new_dir_name_from_path
  get_new_dir_name_from_path-Ends path s = search last_component-Ends

  pub get_folder_path_from_file_path-Ends :
      (path : List ℕ) (s : Fs) → Ends (get_folder_path_from_file_path path s)
  unfolding get_folder_path_from_file_path
  get_folder_path_from_file_path-Ends path s = search (ends, last_component-Ends)

  pub get_file_name_from_file_path-Ends :
      (path : List ℕ) (s : Fs) → Ends (get_file_name_from_file_path path s)
  unfolding get_file_name_from_file_path
  get_file_name_from_file_path-Ends path s = search last_component-Ends

  read_next_data_block-Ends :
      (node : Node) (position : DataPosition) (s : Fs) → Ends (read_next_data_block node position s)
  unfolding read_next_data_block
  read_next_data_block-Ends node position s = search (
    ends, pointer_at-Ends, create_pointers_block_in_node-Ends,
    create_data_block_in_pointer_block-Ends,
  )

  pub add_directory_entry-Ends :
      (node : Node) (name : List ℕ) (n : ℕ) (s : Fs) → Ends (add_directory_entry node name n s)
  unfolding add_directory_entry
  add_directory_entry-Ends node name n s = search (ends, read_next_data_block-Ends)

  free_pointers-Ends :
      (left : ℕ) (node : Node) (i : ℕ) (s : Fs) → Ends (free_pointers left node i s)
  unfolding free_pointers
  free_pointers-Ends zero node i s = tt
  free_pointers-Ends (suc left) node i s =
      let next : (s' : Fs) → Ends (free_pointers left node (i + 1) s') =
        free_pointers-Ends left node (i + 1) in
      search (ends, free_block-Ends)

  pub delete_all_directory_entries-Ends : (n : ℕ) (s : Fs) → Ends (delete_all_directory_entries n s)
  unfolding delete_all_directory_entries
  delete_all_directory_entries-Ends n s = search (ends, read_node-Ends, free_pointers-Ends)

  create_dir_node-Ends : (name : List ℕ) (n : ℕ) (s : Fs) → Ends (create_dir_node name n s)
  unfolding create_dir_node
  create_dir_node-Ends name n s = create_node-Ends _ name _ _ _ _ _ s

  create_and_save_dir_node-Ends :
      (name : List ℕ) (parent n : ℕ) (s : Fs) → Ends (create_and_save_dir_node name parent n s)
  unfolding create_and_save_dir_node
  create_and_save_dir_node-Ends name parent n s = search (ends, create_dir_node-Ends)

  pub create_dir_node_and_add_entry-Ends :
      (node : Node) (n : ℕ) (name : List ℕ) (s : Fs)
      → Ends (create_dir_node_and_add_entry node n name s)
  unfolding create_dir_node_and_add_entry
  create_dir_node_and_add_entry-Ends node n name s =
      search
        (ends, get_free_node_block-Ends, create_and_save_dir_node-Ends, add_directory_entry-Ends)

  pub add_childs_to_list-Ends :
      (list : List DirEntry) (entry : DirEntry) (s : Fs) → Ends (add_childs_to_list list entry s)
  unfolding add_childs_to_list
  add_childs_to_list-Ends list entry s = search (ends, read_node-Ends, iterate_pointers_blocks-Ends)

  pub is_directory-Ends : (entry : DirEntry) (s : Fs) → Ends (is_directory entry s)
  unfolding is_directory
  is_directory-Ends entry s = search (ends, read_node-Ends)

  pub delete_parent_entry-Ends : (entry : DirEntry) (s : Fs) → Ends (delete_parent_entry entry s)
  unfolding delete_parent_entry
  delete_parent_entry-Ends entry s =
      search (ends, read_node-Ends, block_to_node-Ends, delete_directory_entry-Ends) depth 9
