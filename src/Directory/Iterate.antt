-- ===== src/Directory/Iterate.antt =====
-- The iteration over the entries of a directory, and the search for one by its name.
use linuse_fs.Base.{
  ℕ, zero, suc, ◌+◌, ◌-◌, ◌*◌, ◌^◌, Bool, ◌&&◌, not, List, [], ◌∷◌, ◌++◌, ◌==◌, if◌then◌else◌,
  str_eq,
}
use linuse_fs.Memory.{Bytes, load}
use linuse_fs.Disk.{block_size, out_of_fuel, Cmd, pure, ◌>>=◌, read_block}
use linuse_fs.Node.{Node, pointer_at, u32}
use linuse_fs.Directory.Entry.{
  DataPosition, DirEntry, invalid_entry, is_valid_entry, get_next_write_position, next_byte,
  read_directory_entry, Process, with_byte_num, with_block_num, with_pointer_block_num,
}

module _ {A : Type 0} (process : Process A) where
  -- The loop over the bytes of a data block. `limit` is `position.byte_num - 1` in u_int32_t.
  unfoldable pub bytes_loop : ℕ → Bytes → Bool → ℕ → ℕ → DirEntry → A → Cmd (DirEntry × A)
  bytes_loop zero b is_last limit k result acc = λ _. out_of_fuel
  bytes_loop (suc fuel) b is_last limit k result acc =
      if not (is_valid_entry result) && next_byte k limit block_size is_last
      then (do
        entry ← read_directory_entry b k
        let (result', acc') = process entry acc
        bytes_loop fuel b is_last limit (k + 128) result' acc')
      else pure (with_byte_num result (u32 (k + 2 ^ 32 - 128)), acc)

  -- A block holds 32 entries; a 33rd round reads behind it.
  unfoldable pub iterate_bytes_in_block : Bytes → Bool → DataPosition → A → Cmd (DirEntry × A)
  iterate_bytes_in_block data_block is_last position acc =
      bytes_loop 34 data_block is_last (u32 (position.byte_num + 2 ^ 32 - 1)) 0 invalid_entry acc

  -- The loop over the elements of a pointers block; `last_block` is the block read last.
  unfoldable pub blocks_loop :
      ℕ → Bytes → Bool → DataPosition → ℕ → ℕ → DirEntry → A → Cmd (DirEntry × A)
  blocks_loop zero b is_last position j last_block result acc = λ _. out_of_fuel
  blocks_loop (suc fuel) b is_last position j last_block result acc =
      if not (is_valid_entry result) && next_byte j position.block_num 1024 is_last
      then (do
        let block = load 4 b (j * 4)
        data_block ← read_block block
        (result', acc') ←
            iterate_bytes_in_block data_block (j == position.block_num && is_last) position acc
        blocks_loop fuel b is_last position (j + 1) block result' acc')
      else pure (with_block_num result last_block, acc)

  unfoldable pub iterate_blocks : Bytes → Bool → DataPosition → A → Cmd (DirEntry × A)
  iterate_blocks pointers_block is_last position acc =
      blocks_loop 1025 pointers_block is_last position 0 0 invalid_entry acc

  unfoldable pub pointers_loop : ℕ → Node → DataPosition → ℕ → DirEntry → A → Cmd (DirEntry × A)
  pointers_loop zero node position i result acc = λ _. out_of_fuel
  pointers_loop (suc fuel) node position i result acc =
      let done = pure (with_pointer_block_num result (2 ^ 32 - 1), acc) in
      if is_valid_entry result then done else (do
        pointer ← pointer_at node i
        if not (pointer == 0) && not (node.state == 0)
            then (do
              pointers_block ← read_block pointer
              (result', acc') ←
                  iterate_blocks pointers_block (i == position.pointer_block_num) position acc
              pointers_loop fuel node position (i + 1) result' acc')
            else done)

  unfoldable pub iterate_pointers_blocks : Node → A → Cmd (DirEntry × A)
  iterate_pointers_blocks node acc =
      pointers_loop 1001 node (get_next_write_position node) 0 invalid_entry acc

-- The test of `find_entry` and of `delete_this_entry`.
unfoldable pub find_entry : List ℕ → Process (Unit {0})
find_entry entry_name entry acc =
    (if str_eq entry.name entry_name then entry else invalid_entry, tt)

unfoldable pub get_entry : Node → List ℕ → Cmd DirEntry
get_entry node entry_name = do
  (result, _) ← iterate_pointers_blocks (find_entry entry_name) node tt
  pure result

unfoldable pub exists_entry : Node → List ℕ → Cmd Bool
exists_entry node entry_name = do entry ← get_entry node entry_name; pure (is_valid_entry entry)

-- The loop over the pointers blocks that adds the result of each to a list, be it valid or not. It
-- leaves the result without a name, so it goes on behind a valid one. The position of an entry in the
-- list is not copied by the code, and nothing reads it.
unfoldable pub add_list_loop :
    {A : Type 0}
    → Process A
    → ℕ
    → Node
    → DataPosition
    → ℕ
    → List DirEntry
    → A
    → Cmd (List DirEntry × A)
add_list_loop process zero node position i list acc = λ _. out_of_fuel
add_list_loop process (suc fuel) node position i list acc = do
  pointer ← pointer_at node i
  if not (pointer == 0)
      then (do
        pointers_block ← read_block pointer
        (result, acc') ←
            iterate_blocks process pointers_block (i == position.pointer_block_num) position acc
        add_list_loop process fuel node position (i + 1) (list ++ (result ∷ [])) acc')
      else pure (list, acc)

unfoldable pub iterate_pointers_add_list :
    {A : Type 0} → Process A → List DirEntry → Node → A → Cmd (List DirEntry × A)
unfolding add_list_loop
iterate_pointers_add_list process list node acc =
    add_list_loop process 1001 node (get_next_write_position node) 0 list acc
