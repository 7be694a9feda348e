-- ===== src/Directory/Update.antt =====
-- Entries added and deleted, directories made, and the children of a directory.
use linuse_fs.Base.{
  ℕ, zero, suc, ◌+◌, ◌-◌, ◌*◌, ◌%◌, ◌^◌, Bool, List, [], ◌∷◌, ◌++◌, ltb, leb, ◌==◌, if◌then◌else◌,
  length,
}
use linuse_fs.Memory.{Bytes, memcpy, object_bytes, load, strcpy}
use linuse_fs.Platform.{Platform}
use linuse_fs.Disk.{
  block_size, node_table_initial_block, dir_entry_size, Cmd, pure, crash, ◌>>=◌, ◌>>◌, read_block,
  write_block,
}
use linuse_fs.Node.{
  Node, node_to_block, pointer_at, set_pointer, u32, get_block_num_from_node_num, create_node,
  block_to_node, read_node, unmap_and_destroy_node, create_pointers_block_in_node,
  create_data_block_in_pointer_block,
}
use linuse_fs.Bitmap.{free_block, get_free_node_block}
use linuse_fs.Directory.Entry.{
  DataPosition, DirEntry, invalid_entry, is_valid_entry, get_next_write_position,
}
use linuse_fs.Directory.Iterate.{iterate_pointers_blocks, find_entry}

module _ ⦃p : Platform⦄ where
  -- The number of the data block at `position`, made if the node has no pointers block there.
  unfoldable pub read_next_data_block : Node → DataPosition → Cmd (Node × ℕ)
  read_next_data_block node position = do
    pointer ← pointer_at node position.pointer_block_num
    if pointer == 0
        then (do
          (node', _) ← create_pointers_block_in_node node position.pointer_block_num
          n ← create_data_block_in_pointer_block node' position.pointer_block_num position.block_num
          pure (node', n))
        else (do
          pointers_block ← read_block pointer
          pure (node, load 4 pointers_block (position.block_num * 4)))

  -- The entry is the node number and a char[124] that `strcpy` fills as far as the name goes.
  unfoldable pub add_directory_entry : Node → List ℕ → ℕ → Cmd Node
  add_directory_entry node name node_num =
      if ltb (length name) 124
      then (do
        let position = get_next_write_position node
        (node', data_block) ← read_next_data_block node position
        if leb (position.byte_num + dir_entry_size) block_size
            then write_block data_block (λ b.
              memcpy (memcpy b position.byte_num (object_bytes node_num) 0 4)
                (position.byte_num + 4) (strcpy p.garbage name) 0 124)
            else crash
        pure (record node' { file_size = u32 (node'.file_size + 128) }))
      else crash

-- The entries behind the deleted one move up by one place.
unfoldable pub close_gap : ℕ → Bytes → Bytes
close_gap k b = memcpy b k b (k + dir_entry_size) (block_size - (k + dir_entry_size))

unfoldable pub delete_directory_entry : Node → List ℕ → Cmd Node
unfolding iterate_pointers_blocks find_entry close_gap set_pointer
delete_directory_entry node name = do
  (entry, _) ← iterate_pointers_blocks (find_entry name) node tt
  if is_valid_entry entry
      then (do
        write_block entry.position.block_num (close_gap entry.position.byte_num)
        let file_size' = u32 (node.file_size + 2 ^ 32 - dir_entry_size)
        let node' = record node { file_size = file_size' }
        if file_size' == 0 then set_pointer node' 0 0 else pure node')
      else pure node

module _ ⦃p : Platform⦄ where
  unfoldable pub free_pointers : ℕ → Node → ℕ → Cmd (Unit {0})
  unfolding free_block
  free_pointers zero node i = pure tt
  free_pointers (suc left) node i =
      if node.indirect_pointer_block i == 0
      then pure tt
      else (do free_block (node.indirect_pointer_block i); free_pointers left node (i + 1))

  unfoldable pub delete_all_directory_entries : ℕ → Cmd (Unit {0})
  unfolding read_node free_pointers unmap_and_destroy_node
  delete_all_directory_entries node_num = do
    (node, node_block) ← read_node node_num
    free_pointers 1000 node 0
    unmap_and_destroy_node node node_block

  unfoldable pub create_dir_node : List ℕ → ℕ → Cmd Node
  unfolding create_node get_block_num_from_node_num
  create_dir_node name parent_node_num =
      create_node 2 name (get_block_num_from_node_num parent_node_num) 0 p.now p.now (λ _. 0)

  unfoldable pub create_and_save_dir_node : List ℕ → ℕ → ℕ → Cmd (Unit {0})
  unfolding create_dir_node unmap_and_destroy_node
  create_and_save_dir_node new_dir_name pre_dir_node_num new_block_num = do
    new_dir_node ← create_dir_node new_dir_name pre_dir_node_num
    write_block new_block_num (node_to_block new_dir_node)
    unmap_and_destroy_node new_dir_node new_block_num

  unfoldable pub create_dir_node_and_add_entry : Node → ℕ → List ℕ → Cmd Node
  unfolding create_and_save_dir_node add_directory_entry
  create_dir_node_and_add_entry pre_dir_node pre_dir_node_num new_dir_name = do
    new_block_num ← get_free_node_block
    create_and_save_dir_node new_dir_name pre_dir_node_num new_block_num
    add_directory_entry pre_dir_node new_dir_name
        ((new_block_num + 2 ^ 16 - node_table_initial_block) % 2 ^ 16)

  -- Unfinished in the sources, with the same body.
  unfoldable pub delete_dir_node_and_remove_entry : Node → ℕ → List ℕ → Cmd Node
  unfolding create_dir_node_and_add_entry
  delete_dir_node_and_remove_entry = create_dir_node_and_add_entry

  unfoldable pub add_childs_to_list : List DirEntry → DirEntry → Cmd (List DirEntry)
  unfolding read_node iterate_pointers_blocks unmap_and_destroy_node
  add_childs_to_list list dir_entry = do
    (node, node_block) ← read_node dir_entry.node_num
    (_, list') ← iterate_pointers_blocks (λ e l. (invalid_entry, l ++ (e ∷ []))) node list
    unmap_and_destroy_node node node_block
    pure list'

  unfoldable pub is_directory : DirEntry → Cmd Bool
  unfolding read_node
  is_directory entry = do (node, _) ← read_node entry.node_num; pure (node.state == 2)

  -- utils.c
  unfoldable pub delete_parent_entry : DirEntry → Cmd (Unit {0})
  unfolding read_node block_to_node delete_directory_entry unmap_and_destroy_node
  delete_parent_entry entry = do
    (node, node_block) ← read_node entry.node_num
    b ← read_block node.parent_block
    parent ← block_to_node b
    parent' ← delete_directory_entry parent entry.name
    unmap_and_destroy_node node node_block
    unmap_and_destroy_node parent' node.parent_block
