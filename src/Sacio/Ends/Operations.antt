-- ===== src/Sacio/Ends/Operations.antt =====
-- Termination for the operations of sac-fs/src/sacio.c, `sac_rmdir` apart.
use linuse_fs.Base.{ℕ, zero, suc, ◌+◌, ◌-◌, ◌%◌, ◌^◌, ◌<◌, List, arith}
use linuse_fs.Memory.{Bytes}
use linuse_fs.Platform.{Platform}
use linuse_fs.Disk.{Fs}
use linuse_fs.Disk.Ends.{Ends, ends}
use linuse_fs.Node.{Node}
use linuse_fs.Node.Ends.{
  free_block-Ends, create_node-Ends, get_free_node_block-Ends, block_to_node-Ends, read_node-Ends,
}
use linuse_fs.Directory.Ends.{iterate_pointers_blocks-Ends}
use linuse_fs.Directory.Ends.Update.{
  get_entry-Ends, exists_entry-Ends, search_path-Ends, get_new_dir_name_from_path-Ends,
  get_folder_path_from_file_path-Ends, get_file_name_from_file_path-Ends, add_directory_entry-Ends,
  delete_directory_entry-Ends, create_dir_node_and_add_entry-Ends,
}
use linuse_fs.Status.{Status}
use linuse_fs.Sacio.File.{
  create_file_node, create_and_save_file_node, sac_open, free_slots, free_file_blocks, sac_remove,
  sac_stat,
}
use linuse_fs.Sacio.Tree.{sac_mkdir, sac_readdir, sac_rename}
use linuse_fs.Sacio.Data.{clamp, shrink_loop, sac_truncate, int_limit}
use linuse_fs.Sacio.Ends.{sac_write-Ends, shrink_loop-Ends}

module _ ⦃p : Platform⦄ where
  create_file_node-Ends : (name : List ℕ) (n : ℕ) (s : Fs) → Ends (create_file_node name n s)
  unfolding create_file_node
  create_file_node-Ends name n s = search create_node-Ends

  create_and_save_file_node-Ends :
      (name : List ℕ) (n : ℕ) (s : Fs) → Ends (create_and_save_file_node name n s)
  unfolding create_and_save_file_node
  create_and_save_file_node-Ends name n s =
      search
        (
          ends, read_node-Ends, exists_entry-Ends, get_entry-Ends, create_file_node-Ends,
          get_free_node_block-Ends, add_directory_entry-Ends,
        )
        depth 14

  pub sac_open-Ends : (path : List ℕ) (s : Fs) → Ends (sac_open path s)
  unfolding sac_open
  sac_open-Ends path s =
      search
        (
          ends, get_folder_path_from_file_path-Ends, search_path-Ends,
          get_file_name_from_file_path-Ends, create_and_save_file_node-Ends,
        )
        depth 12

  free_slots-Ends : (blocks : ℕ) (b : Bytes) (j : ℕ) (s : Fs) → Ends (free_slots blocks b j s)
  unfolding free_slots
  free_slots-Ends zero b j s = tt
  free_slots-Ends (suc blocks) b j s =
      let next : (s' : Fs) → Ends (free_slots blocks b (j + 1) s') =
        free_slots-Ends blocks b (j + 1) in
      search (ends, free_block-Ends)

  free_file_blocks-Ends :
      (left : ℕ) (node : Node) (i blocks : ℕ) (s : Fs)
      → Ends (free_file_blocks left node i blocks s)
  unfolding free_file_blocks
  free_file_blocks-Ends zero node i blocks s = tt
  free_file_blocks-Ends (suc left) node i blocks s =
      let next : (s' : Fs) → Ends (free_file_blocks left node (i + 1) (blocks - 1024) s') =
        free_file_blocks-Ends left node (i + 1) (blocks - 1024) in
      search (ends, free_slots-Ends, free_block-Ends) depth 9

  pub sac_remove-Ends : (path : List ℕ) (s : Fs) → Ends (sac_remove path s)
  unfolding sac_remove
  sac_remove-Ends path s =
      search
        (
          ends, search_path-Ends, read_node-Ends, free_file_blocks-Ends, block_to_node-Ends,
          get_file_name_from_file_path-Ends, delete_directory_entry-Ends, free_block-Ends,
        )
        depth 20 fits 2000

  pub sac_stat-Ends : (path : List ℕ) (s : Fs) → Ends (sac_stat path s)
  unfolding sac_stat
  sac_stat-Ends path s = search (ends, search_path-Ends, read_node-Ends) depth 9

  pub sac_mkdir-Ends : (path : List ℕ) (s : Fs) → Ends (sac_mkdir path s)
  unfolding sac_mkdir
  sac_mkdir-Ends path s =
      search
        (
          ends, get_new_dir_name_from_path-Ends, search_path-Ends, read_node-Ends,
          exists_entry-Ends, create_dir_node_and_add_entry-Ends,
        )
        depth 14

  pub sac_readdir-Ends : (path : List ℕ) (s : Fs) → Ends (sac_readdir path s)
  unfolding sac_readdir
  sac_readdir-Ends path s =
      search (ends, search_path-Ends, read_node-Ends, iterate_pointers_blocks-Ends) depth 14

  pub sac_rename-Ends :
      (old_path new_path : List ℕ) (s : Fs) → Ends (sac_rename old_path new_path s)
  unfolding sac_rename
  sac_rename-Ends old_path new_path s =
      search
        (
          ends, get_new_dir_name_from_path-Ends, search_path-Ends, read_node-Ends, get_entry-Ends,
          delete_directory_entry-Ends, add_directory_entry-Ends,
        )
        depth 20 fits 2000

  pub sac_truncate-Ends :
      (path : List ℕ) (length : Status) (s : Fs)
      → clamp length < int_limit
      → Ends (sac_truncate path length s)
  unfolding sac_truncate
  sac_truncate-Ends path length s small =
      let low = clamp length % 2 ^ 32 in
      let shrink : (node : Node) (s' : Fs) → Ends (shrink_loop (node.file_size + 1) node low s') =
        λ node s'.
          shrink_loop-Ends (node.file_size + 1) node low s' (omega (arith, small)) (omega arith) in
      search (ends, search_path-Ends, read_node-Ends, sac_open-Ends, sac_write-Ends) depth 20 fits
        2000
