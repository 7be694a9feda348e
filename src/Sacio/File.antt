-- ===== src/Sacio/File.antt =====
-- Files made, opened, removed and described: `sac_open`, `sac_remove`, `sac_stat`, `sac_close`, and
-- file.c.
use linuse_fs.Base.{
  ℕ, zero, suc, ◌+◌, ◌-◌, ◌*◌, ◌/◌, Bool, true, false, ◌&&◌, not, Option, none, some, List, leb,
  ltb, ◌%◌, ◌^◌, ◌==◌, if◌then◌else◌,
}
use linuse_fs.Memory.{Bytes, load}
use linuse_fs.Platform.{Platform}
use linuse_fs.Disk.{
  block_size, node_table_blocks, node_table_initial_block, Cmd, pure, min, ◌>>=◌, ◌>>◌, read_block,
  write_block,
}
use linuse_fs.Node.{
  Node, node_to_block, get_block_num_from_node_num, create_node, block_to_node, read_node,
  unmap_and_destroy_node,
}
use linuse_fs.Bitmap.{free_block, get_free_node_block}
use linuse_fs.Directory.Entry.{is_valid_entry}
use linuse_fs.Directory.Iterate.{get_entry, exists_entry}
use linuse_fs.Directory.Path.{
  is_valid_path, search_path, get_folder_path_from_file_path, get_file_name_from_file_path,
}
use linuse_fs.Directory.Update.{add_directory_entry, delete_directory_entry}
use linuse_fs.Status.{Status, success, failure}

-- A u_int32_t converted to an `int`.
unfoldable pub int_of : ℕ → Status
int_of w =
    if ltb (w % 2 ^ 32) (2 ^ 31)
    then Status.pos (w % 2 ^ 32)
    else Status.negsuc (2 ^ 32 - 1 - w % 2 ^ 32)

module _ ⦃p : Platform⦄ where
  unfoldable pub create_file_node : List ℕ → ℕ → Cmd Node
  unfolding create_node get_block_num_from_node_num
  create_file_node new_file_name folder_node_num =
      create_node 1 new_file_name (get_block_num_from_node_num folder_node_num) 0 p.now p.now
        (λ _. 0)

  -- The number of the file's node: of the entry that is there, or of a new one.
  unfoldable pub create_and_save_file_node : List ℕ → ℕ → Cmd ℕ
  unfolding read_node exists_entry get_entry create_file_node add_directory_entry
      unmap_and_destroy_node
  create_and_save_file_node file_name folder_node_num = do
    (folder_node, folder_node_block) ← read_node folder_node_num
    found ← exists_entry folder_node file_name
    if found
        then (do
          entry ← get_entry folder_node file_name
          unmap_and_destroy_node folder_node folder_node_block
          pure entry.node_num)
        else (do
          new_file_node ← create_file_node file_name folder_node_num
          new_block_num ← get_free_node_block
          write_block new_block_num (node_to_block new_file_node)
          folder_node' ←
              add_directory_entry folder_node file_name (new_block_num - node_table_initial_block)
          unmap_and_destroy_node new_file_node new_block_num
          unmap_and_destroy_node folder_node' folder_node_block
          pure (new_block_num - node_table_initial_block))

  -- The u_int32_t is returned as an `int`.
  unfoldable pub sac_open : List ℕ → Cmd Status
  unfolding is_valid_path get_folder_path_from_file_path search_path get_file_name_from_file_path
      create_and_save_file_node int_of
  sac_open path = if not (is_valid_path path) then pure failure else (do
    folder_path ← get_folder_path_from_file_path path
    folder_entry ← search_path folder_path
    if not (is_valid_entry folder_entry) then pure failure else (do
      file_name ← get_file_name_from_file_path path
      node_num ← create_and_save_file_node file_name folder_entry.node_num
      pure (int_of node_num)))

  -- The first `blocks` elements of a pointers block, from `j` on, are freed.
  unfoldable pub free_slots : ℕ → Bytes → ℕ → Cmd (Unit {0})
  unfolding free_block
  free_slots zero b j = pure tt
  free_slots (suc blocks) b j = do free_block (load 4 b (j * 4)); free_slots blocks b (j + 1)

  -- The loop over the pointers blocks; `blocks` is the number of data blocks still to free.
  unfoldable pub free_file_blocks : ℕ → Node → ℕ → ℕ → Cmd (Unit {0})
  unfolding free_slots
  free_file_blocks zero node i blocks = pure tt
  free_file_blocks (suc left) node i blocks =
      let pointer = node.indirect_pointer_block i in
      if pointer == 0 then pure tt else (do
        b ← read_block pointer
        free_slots (min 1024 blocks) b 0
        free_block pointer
        free_file_blocks left node (i + 1) (blocks - 1024))

  unfoldable pub sac_remove : List ℕ → Cmd Status
  unfolding is_valid_path search_path read_node unmap_and_destroy_node free_file_blocks
      block_to_node get_file_name_from_file_path delete_directory_entry get_block_num_from_node_num
  sac_remove path = if not (is_valid_path path) then pure failure else (do
    entry ← search_path path
    if not (is_valid_entry entry) then pure failure else (do
      (file_node, file_node_block) ← read_node entry.node_num
      if not (file_node.state == 1)
          then (do unmap_and_destroy_node file_node file_node_block; pure failure)
          else (do
            free_file_blocks 1000 file_node 0 (file_node.file_size / block_size + 1)
            b ← read_block file_node.parent_block
            parent ← block_to_node b
            file_name ← get_file_name_from_file_path path
            parent' ← delete_directory_entry parent file_name
            unmap_and_destroy_node parent' file_node.parent_block
            unmap_and_destroy_node (record file_node { state = 0 }) file_node_block
            free_block (get_block_num_from_node_num entry.node_num)
            pure success)))

-- The fields of `struct stat` that `sac_stat` fills.
pub record Stat : Type 0 where
  pub is_dir : Bool
  pub ino : ℕ
  pub size : ℕ
  pub mtime : ℕ
  pub ctime : ℕ

unfoldable pub stat_of : Node → ℕ → Option Stat
stat_of node node_num =
    let filled : Bool → Option Stat = λ is_dir. some (record {
      is_dir = is_dir;
      ino = node_num;
      size = node.file_size;
      mtime = node.modification_date;
      ctime = node.creation_date;
    }) in
    if node.state == 1 then filled false else if node.state == 2 then filled true else none

module _ ⦃p : Platform⦄ where
  -- `none` is the status -1.
  unfoldable pub sac_stat : List ℕ → Cmd (Option Stat)
  unfolding is_valid_path search_path read_node unmap_and_destroy_node stat_of
  sac_stat path = if not (is_valid_path path) then pure none else (do
    entry ← search_path path
    if not (is_valid_entry entry) then pure none else (do
      (file_node, file_node_block) ← read_node entry.node_num
      unmap_and_destroy_node file_node file_node_block
      pure (stat_of file_node entry.node_num)))

unfoldable pub sac_close : ℕ → Cmd Status
sac_close fd = pure (
    if leb node_table_initial_block fd && leb fd (node_table_initial_block + node_table_blocks)
    then Status.pos 1
    else Status.pos 0)
