-- ===== src/Node/Ends.antt =====
-- Termination for sac-fs/src/node.c and bitmap.c.
use linuse_fs.Base.{
  ℕ, ◌+◌, ◌*◌, ◌/◌, ◌-◌, ◌<◌, ◌≡◌, Option, none, some, List, arith, false, ◌==◌, if◌then◌else◌,
}
use linuse_fs.Memory.{Bytes, read_string}
use linuse_fs.Platform.{Platform}
use linuse_fs.Disk.{Fs, node_table_initial_block, node_table_blocks, block_size, total_blocks}
use linuse_fs.Disk.Ends.{Ends, Post-crash, Post, ends}
use linuse_fs.Bitmap.{
  free_block, scan_free, reserve, get_free_block, get_free_node_block, get_free_data_block,
}
use linuse_fs.Node.{
  copy_out, Node, pointer_at, set_pointer, create_node, block_to_node, read_node,
  unmap_and_destroy_node, delete_node, create_pointers_block_in_node,
  create_data_block_in_pointer_block, add_data_block_to_node, copy_slot, get_data_block_from_node,
  get_block_number_from_node_data_block, delete_last_data_block,
}

pub pointer_at-Ends : (node : Node) (i : ℕ) (s : Fs) → Ends (pointer_at node i s)
unfolding pointer_at
pointer_at-Ends node i s = search ends

pub set_pointer-Ends : (node : Node) (i v : ℕ) (s : Fs) → Ends (set_pointer node i v s)
unfolding set_pointer
set_pointer-Ends node i v s = search ends

pub unmap_and_destroy_node-Ends :
    (node : Node) (b : ℕ) (s : Fs) → Ends (unmap_and_destroy_node node b s)
unfolding unmap_and_destroy_node
unmap_and_destroy_node-Ends node b s = search ends

module _ ⦃p : Platform⦄ where
  pub free_block-Ends : (b : ℕ) (s : Fs) → Ends (free_block b s)
  unfolding free_block
  free_block-Ends b s = search ends

  reserve-Ends : (found : Option ℕ) (to : ℕ) (s : Fs) → Ends (reserve found to s)
  unfolding reserve
  reserve-Ends none to s = tt
  reserve-Ends (some i) to s = search ends

  get_free_block-Ends : (from to : ℕ) (s : Fs) → Ends (get_free_block from to s)
  unfolding get_free_block
  get_free_block-Ends from to s =
      reserve-Ends (scan_free (8 * s.bitmap.size - from) s.bitmap from) to s

  pub get_free_node_block-Ends : (s : Fs) → Ends (get_free_node_block s)
  unfolding get_free_node_block
  get_free_node_block-Ends s =
      get_free_block-Ends node_table_initial_block (node_table_initial_block + node_table_blocks) s

  pub get_free_data_block-Ends : (s : Fs) → Ends (get_free_data_block s)
  unfolding get_free_data_block
  get_free_data_block-Ends s =
      get_free_block-Ends (node_table_initial_block + node_table_blocks) total_blocks s

  pub create_node-Ends :
      (state : ℕ) (name : List ℕ) (parent size created modified : ℕ) (pointers : ℕ → ℕ) (s : Fs)
      → Ends (create_node state name parent size created modified pointers s)
  unfolding create_node
  create_node-Ends state name parent size created modified pointers s = search ends

  pub block_to_node-Ends : (b : Bytes) (s : Fs) → Ends (block_to_node b s)
  unfolding block_to_node
  block_to_node-Ends b s =
      Post-crash (λ _. Unit) (read_string 71 b 1) _ s λ name. create_node-Ends _ name _ _ _ _ _ s

  pub read_node-Ends : (n : ℕ) (s : Fs) → Ends (read_node n s)
  unfolding read_node
  read_node-Ends n s = search (ends, block_to_node-Ends)

  pub delete_node-Ends : (n : ℕ) (s : Fs) → Ends (delete_node n s)
  unfolding delete_node
  delete_node-Ends n s = search (ends, read_node-Ends, free_block-Ends)

  pub create_pointers_block_in_node-Ends :
      (node : Node) (pos : ℕ) (s : Fs) → Ends (create_pointers_block_in_node node pos s)
  unfolding create_pointers_block_in_node
  create_pointers_block_in_node-Ends node pos s =
      search (ends, get_free_data_block-Ends, set_pointer-Ends)

  pub create_data_block_in_pointer_block-Ends :
      (node : Node) (pos at : ℕ) (s : Fs) → Ends (create_data_block_in_pointer_block node pos at s)
  unfolding create_data_block_in_pointer_block
  create_data_block_in_pointer_block-Ends node pos at s =
      search (ends, get_free_data_block-Ends, pointer_at-Ends)

  pub add_data_block_to_node-Ends : (node : Node) (s : Fs) → Ends (add_data_block_to_node node s)
  unfolding add_data_block_to_node
  add_data_block_to_node-Ends node s =
      search (ends, create_pointers_block_in_node-Ends, create_data_block_in_pointer_block-Ends)

  copy_slot-Ends : (b : Bytes) (slot : ℕ) (s : Fs) → Ends (copy_slot b slot s)
  unfolding copy_slot copy_out
  copy_slot-Ends b slot s = search ends

  pub get_data_block_from_node-Ends :
      (node : Node) (n : ℕ) (s : Fs) → Ends (get_data_block_from_node node n s)
  unfolding get_data_block_from_node
  get_data_block_from_node-Ends node n s = search (ends, pointer_at-Ends, copy_slot-Ends)

  get_block_number_from_node_data_block-Ends :
      (node : Node) (n : ℕ) (s : Fs) → Ends (get_block_number_from_node_data_block node n s)
  unfolding get_block_number_from_node_data_block
  get_block_number_from_node_data_block-Ends node n s =
      search (ends, pointer_at-Ends, copy_slot-Ends)

  -- The last block of a file that is not empty is taken off its size.
  pub delete_last_data_block-Post :
      (node : Node) (s : Fs)
      → 0 < node.file_size
      → Post (λ node'. node'.file_size < node.file_size) (delete_last_data_block node s)
  unfolding delete_last_data_block
  delete_last_data_block-Post node s full =
      let e : (node.file_size == 0) ≡ false = ground arith in
      let smaller : (if node.file_size / block_size == 0
            then 0
            else (node.file_size / block_size - 1) * block_size)
          < node.file_size =
        ground arith in
      rw e (
        search
          (
            ends, get_block_number_from_node_data_block-Ends, free_block-Ends, pointer_at-Ends,
            set_pointer-Ends,
          )
          depth 12)
