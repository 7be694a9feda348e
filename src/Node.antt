-- ===== src/Node.antt =====
-- sac-fs/src/node.c, and the part of utils.c that turns a `t_node` into the bytes of its block and
-- back. A node in memory is a value; the callers that change it in place return the new value.
pub mod Blocks
pub mod Ends
pub mod Slots
use linuse_fs.Base.{
  ℕ, zero, suc, ◌+◌, ◌-◌, ◌*◌, ◌/◌, ◌%◌, ◌^◌, none, some, List, [], ltb, ◌==◌, if◌then◌else◌,
  length,
}
use linuse_fs.Memory.{Bytes, memcpy, object_bytes, array_bytes, load, strcpy, read_string}
use linuse_fs.Platform.{Platform}
use linuse_fs.Disk.{
  ◌>>=◌, ◌>>◌, block_size, node_table_initial_block, Cmd, pure, crash, read_block, write_block,
}
use linuse_fs.Bitmap.{free_block, get_free_data_block}

-- `t_node`. `file_name` is the array char[71], the pointers are the array u_int32_t[1000].
pub record Node : Type 0 where
  pub state : ℕ
  pub file_name : Bytes
  pub parent_block : ℕ
  pub file_size : ℕ
  pub creation_date : ℕ
  pub modification_date : ℕ
  pub indirect_pointer_block : ℕ → ℕ

-- The seven copies of `node_to_block`, over what the block held.
unfoldable pub node_to_block : Node → Bytes → Bytes
node_to_block node b0 =
    let b1 = memcpy b0 0 (object_bytes node.state) 0 1 in
    let b2 = memcpy b1 1 node.file_name 0 71 in
    let b3 = memcpy b2 72 (object_bytes node.parent_block) 0 4 in
    let b4 = memcpy b3 76 (object_bytes node.file_size) 0 4 in
    let b5 = memcpy b4 80 (object_bytes node.creation_date) 0 8 in
    let b6 = memcpy b5 88 (object_bytes node.modification_date) 0 8 in
    memcpy b6 96 (array_bytes node.indirect_pointer_block) 0 4000

-- node->indirect_pointer_block[i], read and written; the array has 1000 elements.
unfoldable pub pointer_at : Node → ℕ → Cmd ℕ
pointer_at node i = if ltb i 1000 then pure (node.indirect_pointer_block i) else crash

abbrev pub update_pointer : (ℕ → ℕ) → ℕ → ℕ → ℕ → ℕ
update_pointer a i v j = if j == i then v else a j

unfoldable pub set_pointer : Node → ℕ → ℕ → Cmd Node
set_pointer node i v =
    if ltb i 1000
    then pure
        (record node { indirect_pointer_block = update_pointer node.indirect_pointer_block i v })
    else crash

-- u_int32_t numbers.
abbrev pub u32 : ℕ → ℕ
u32 n = n % 2 ^ 32

unfoldable pub get_block_num_from_node_num : ℕ → ℕ
get_block_num_from_node_num node_num = u32 (node_table_initial_block + node_num)

-- The number of the block that element `slot` of a pointers block names.
-- memcpy of `n` bytes from a block at `from` to the front of an object of `size` bytes.
unfoldable pub copy_out : ℕ → Bytes → Bytes → ℕ → ℕ → Cmd Bytes
copy_out size object b from n =
    if ltb size n
    then crash
    else if ltb block_size (from + n)
    then crash
    else pure (memcpy object 0 b from n)

unfoldable pub slot_value : Bytes → ℕ → ℕ
slot_value b slot = load 4 b (slot * 4)

module _ ⦃p : Platform⦄ where
  -- `strcpy` into the 71 bytes of `file_name`: a longer name leaves the array.
  unfoldable pub create_node : ℕ → List ℕ → ℕ → ℕ → ℕ → ℕ → (ℕ → ℕ) → Cmd Node
  create_node state file_name parent_block file_size creation_date modification_date pointers =
      if ltb (length file_name) 71
      then pure (record {
        state = state;
        file_name = strcpy p.garbage file_name;
        parent_block = parent_block;
        file_size = file_size;
        creation_date = creation_date;
        modification_date = modification_date;
        indirect_pointer_block = pointers;
      })
      else crash

  -- The name is read from a copy of its 71 bytes: without a terminator there the read leaves it.
  unfoldable pub block_to_node : Bytes → Cmd Node
  unfolding create_node
  block_to_node b = elim (read_string 71 b 1) [
    | none ↦ crash
    | some file_name ↦
        create_node (load 1 b 0) file_name (load 4 b 72) (load 4 b 76) (load 8 b 80) (load 8 b 88)
          (λ i. load 4 b (96 + 4 * i))
  ]

  -- The node and the number of its block, which stays mapped.
  unfoldable pub read_node : ℕ → Cmd (Node × ℕ)
  read_node node_num = do
    let block_pos = get_block_num_from_node_num node_num
    b ← read_block block_pos
    node ← block_to_node b
    pure (node, block_pos)

unfoldable pub unmap_and_destroy_node : Node → ℕ → Cmd (Unit {0})
unmap_and_destroy_node node node_block = write_block node_block (node_to_block node)

module _ ⦃p : Platform⦄ where
  unfoldable pub delete_node : ℕ → Cmd (Unit {0})
  unfolding read_node unmap_and_destroy_node
  delete_node node_num = do
    (node, node_block) ← read_node node_num
    unmap_and_destroy_node
        (record node { file_name = memcpy node.file_name 0 (λ _. 0) 0 1; state = 0 }) node_block
    free_block (get_block_num_from_node_num node_num)

  unfoldable pub create_pointers_block_in_node : Node → ℕ → Cmd (Node × ℕ)
  unfolding set_pointer
  create_pointers_block_in_node node pos = do
    new_pointers_block_num ← get_free_data_block
    node' ← set_pointer node pos new_pointers_block_num
    pure (node', new_pointers_block_num)

  unfoldable pub create_data_block_in_pointer_block : Node → ℕ → ℕ → Cmd ℕ
  unfolding pointer_at
  create_data_block_in_pointer_block node pos position = do
    new_data_block_num ← get_free_data_block
    pointers_block ← pointer_at node pos
    write_block pointers_block (λ b. memcpy b (position * 4) (object_bytes new_data_block_num) 0 4)
    pure new_data_block_num

  -- How many elements from `i` on, of the `left` ones, stand before the first 0.
  unfoldable pub count_pointers : ℕ → Node → ℕ → ℕ
  count_pointers zero node i = i
  count_pointers (suc left) node i =
      let rest = count_pointers left node (i + 1) in
      if node.indirect_pointer_block i == 0 then i else rest

  -- `posicionArray` is one less than `used`, the number of pointers blocks of the node.
  unfoldable pub add_data_block_to_node : Node → Cmd Node
  unfolding count_pointers create_pointers_block_in_node create_data_block_in_pointer_block
  add_data_block_to_node node =
      let used = count_pointers 1000 node 0 in
      let data_blocks = node.file_size / block_size + 1 in
      if ltb data_blocks (1024 * used)
      then (do
        _ ← create_data_block_in_pointer_block node (used - 1) (data_blocks % 1024)
        pure node)
      else (do
        (node', _) ← create_pointers_block_in_node node used
        _ ← create_data_block_in_pointer_block node' used 0
        pure node')

  -- The copy of `sizeof(u_int32_t*)` bytes, at a multiple of that size, into an object of 4 bytes.
  unfoldable pub copy_slot : Bytes → ℕ → Cmd ℕ
  copy_slot b slot = do
    object ← copy_out 4 p.garbage b (slot * p.pointer_size) p.pointer_size
    pure (load 4 object 0)

  unfoldable pub get_block_number_from_node_data_block : Node → ℕ → Cmd ℕ
  unfolding copy_slot pointer_at
  get_block_number_from_node_data_block node block_num = do
    pointers_block ← pointer_at node (block_num / 1024)
    b ← read_block pointers_block
    copy_slot b (block_num % 1024)

  -- The number of the data block: what is mapped is this block.
  unfoldable pub get_data_block_from_node : Node → ℕ → Cmd ℕ
  unfolding copy_slot pointer_at
  get_data_block_from_node node block_num = do
    pointers_block ← pointer_at node (block_num / 1024)
    b ← read_block pointers_block
    copy_slot b (block_num % 1024)

  unfoldable pub delete_last_data_block : Node → Cmd Node
  unfolding get_block_number_from_node_data_block
  delete_last_data_block node =
      let last_data_block = node.file_size / block_size in
      let last_pointers_block = last_data_block / 1024 in
      let file_size' = if last_data_block == 0 then 0 else (last_data_block - 1) * block_size in
      if node.file_size == 0 then pure node else (do
        n ← get_block_number_from_node_data_block node last_data_block
        free_block n
        node' ←
            if last_data_block % 1024 == 0
            then (do
              pointers_block ← pointer_at node last_pointers_block
              free_block pointers_block
              set_pointer node last_pointers_block 0)
            else pure node
        pure (record node' { file_size = file_size' }))
