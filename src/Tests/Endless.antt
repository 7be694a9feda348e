-- ===== src/Tests/Endless.antt =====
-- An example for a truncation that never ends: the file "a" of three bytes, cut to 2 ^ 32 - 10 bytes.
use linuse_fs.Base.{ℕ, List, ◌-◌, ◌%◌, ◌^◌, ◌≡◌, refl, [], ◌∷◌, arith, str_eq}
use linuse_fs.Memory.{load, read_string, memcpy, object_bytes, array_bytes}
use linuse_fs.Disk.{Run, ok, exited, fault, out_of_fuel, read_block, write_block}
use linuse_fs.Node.{
  Node, read_node, block_to_node, create_node, get_block_num_from_node_num, pointer_at,
  unmap_and_destroy_node, node_to_block,
}
use linuse_fs.Directory.Entry.{
  DirEntry, invalid_entry, next_byte, get_next_write_position, read_directory_entry, with_byte_num,
  with_block_num, with_pointer_block_num,
}
use linuse_fs.Directory.Iterate.{
  get_entry, find_entry, iterate_pointers_blocks, pointers_loop, iterate_blocks, blocks_loop,
  iterate_bytes_in_block, bytes_loop,
}
use linuse_fs.Directory.Path.{is_valid_path, search_path, walk}
use linuse_fs.Status
use linuse_fs.Sacio.Data.{shrink_loop, sac_truncate}
use linuse_fs.Sacio.Endless.{sac_truncate-endless}
use linuse_fs.Sample.{unix, split}
use linuse_fs.Tests.Calls.{small, state_of}

-- What a run returns.
abbrev entry_of : Run DirEntry → DirEntry
entry_of (ok e s) = e
entry_of (exited s) = invalid_entry
entry_of fault = invalid_entry
entry_of out_of_fuel = invalid_entry

abbrev no_node : Node
no_node = record {
  state = 0;
  file_name = λ _. 0;
  parent_block = 0;
  file_size = 0;
  creation_date = 0;
  modification_date = 0;
  indirect_pointer_block = λ _. 0;
}

abbrev path_a : List ℕ
path_a = b'/' ∷ b'a' ∷ []

abbrev searched : Run DirEntry
searched = search_path ⦃p = unix 4⦄ path_a small

abbrev file_of : Run (Node × ℕ) → Node
file_of (ok (n, b) s) = n
file_of (exited s) = no_node
file_of fault = no_node
file_of out_of_fuel = no_node

abbrev file : Node
file = file_of (read_node ⦃p = unix 4⦄ 1 (state_of searched))

sac_truncate-endless_example :
    (sac_truncate ⦃p = unix 4⦄ path_a (Status.pos (2 ^ 32 - 10)) small ≡ out_of_fuel)
    × ((rounds : ℕ)
        → shrink_loop ⦃p = unix 4⦄ rounds file ((2 ^ 32 - 10) % 2 ^ 32) (state_of searched)
          ≡ out_of_fuel)
unfolding is_valid_path search_path walk get_entry find_entry read_node block_to_node read_string
    pointers_loop load get_next_write_position create_node read_block write_block str_eq
    iterate_pointers_blocks split get_block_num_from_node_num pointer_at blocks_loop bytes_loop
    read_directory_entry next_byte iterate_blocks iterate_bytes_in_block with_byte_num
    with_block_num with_pointer_block_num unmap_and_destroy_node node_to_block memcpy object_bytes
    array_bytes
sac_truncate-endless_example =
    sac_truncate-endless ⦃p = unix 4⦄ path_a (2 ^ 32 - 10) (entry_of searched) file 3 small
      (state_of searched) refl refl refl refl refl (omega arith) (omega arith) (omega arith)
