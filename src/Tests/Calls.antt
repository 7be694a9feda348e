-- ===== src/Tests/Calls.antt =====
-- Examples for the callbacks of the mounted file system: a blank disk, and one with a file and a
-- directory.
use linuse_fs.Base.{
  ℕ, ◌+◌, ◌≡◌, ◌==◌, refl, true, some, List, [], ◌∷◌, arith, if◌then◌else◌, ltb, str_eq,
}
use linuse_fs.Memory.{Bytes, memcpy, load, string_bytes, read_string}
use linuse_fs.Disk.{
  Fs, Run, ok, fault, exited, out_of_fuel, Cmd, pure, crash, ◌>>=◌, read_block, write_block,
}
use linuse_fs.Package.{Package, Function}
use linuse_fs.Package.Copies.{IsString}
use linuse_fs.Status.{Status, failure}
use linuse_fs.Node.{
  copy_out, read_node, block_to_node, create_node, unmap_and_destroy_node,
  get_block_num_from_node_num, get_data_block_from_node, copy_slot, pointer_at,
}
use linuse_fs.Directory.Iterate.{
  iterate_pointers_blocks, pointers_loop, blocks_loop, bytes_loop, iterate_blocks,
  iterate_bytes_in_block,
}
use linuse_fs.Directory.Entry.{
  get_next_write_position, read_directory_entry, next_byte, with_byte_num, with_block_num,
}
use linuse_fs.Directory.Path.{is_valid_path, search_path}
use linuse_fs.Sacio.File.{sac_open, sac_remove}
use linuse_fs.Sacio.Tree.{sac_rmdir, sac_rename, sac_readdir, sac_mkdir}
use linuse_fs.Sacio.Data.{sac_write, sac_read, read_loop, sac_truncate}
use linuse_fs.Client.Exchange.{server}
use linuse_fs.Fuse.{correct_path}
use linuse_fs.Fuse.Callbacks.{
  int32, do_remove, do_rmdir, do_rename, do_open, do_create, do_write, do_read, do_getattr,
  do_mkdir, do_truncate,
}
use linuse_fs.Fuse.Effects.{
  opened, removed, do_remove-sac_remove, do_rmdir-sac_rmdir, do_rename-sac_rename, do_open-sac_open,
  do_mkdir-sac_mkdir, do_truncate-sac_truncate,
}
use linuse_fs.Fuse.Data.{do_write-sac_write, do_getattr-fault}
use linuse_fs.Fuse.Reading.{do_read-sac_read, do_read-failure}
use linuse_fs.Server.Execute.{signed}
use linuse_fs.Sample.{unix, split}

-- The local file system is not used.
abbrev no_local : Function → Cmd Package
no_local f = crash

abbrev blank : Fs
blank = record { disk = λ _ _. 0; bitmap = record { bitarray = λ _. 0; size = 375 } }

-- "/a" and "/b"
abbrev path_a : List ℕ
path_a = b'/' ∷ b'a' ∷ []

abbrev path_b : List ℕ
path_b = b'/' ∷ b'b' ∷ []

path_a-IsString : IsString path_a
path_a-IsString = (omega arith, (omega arith, tt))

path_b-IsString : IsString path_b
path_b-IsString = (omega arith, (omega arith, tt))

path_a-shown : correct_path ⦃p = unix 4⦄ path_a ≡ true
unfolding correct_path str_eq
path_a-shown = refl

do_remove-sac_remove_example :
    do_remove ⦃p = unix 4⦄ (server ⦃p = unix 4⦄ no_local) path_a blank
    ≡ (sac_remove ⦃p = unix 4⦄ path_a >>= λ st. pure (int32 st)) blank
do_remove-sac_remove_example =
    do_remove-sac_remove ⦃p = unix 4⦄ no_local path_a blank path_a-IsString (omega arith)

do_rmdir-sac_rmdir_example :
    do_rmdir ⦃p = unix 4⦄ (server ⦃p = unix 4⦄ no_local) path_a blank
    ≡ (sac_rmdir ⦃p = unix 4⦄ path_a >>= λ st. pure (removed (int32 st))) blank
unfolding str_eq
do_rmdir-sac_rmdir_example =
    do_rmdir-sac_rmdir ⦃p = unix 4⦄ no_local path_a blank path_a-IsString (omega arith) refl

do_mkdir-sac_mkdir_example :
    do_mkdir ⦃p = unix 4⦄ (server ⦃p = unix 4⦄ no_local) path_a 511 blank
    ≡ (sac_mkdir ⦃p = unix 4⦄ path_a >>= λ st. pure (int32 st)) blank
do_mkdir-sac_mkdir_example =
    do_mkdir-sac_mkdir ⦃p = unix 4⦄ no_local path_a 511 blank path_a-IsString (omega arith)

do_truncate-sac_truncate_example :
    do_truncate ⦃p = unix 4⦄ (server ⦃p = unix 4⦄ no_local) path_a 300 blank
    ≡ (sac_truncate ⦃p = unix 4⦄ path_a (signed 8 300) >>= λ st. pure (int32 st)) blank
do_truncate-sac_truncate_example =
    do_truncate-sac_truncate ⦃p = unix 4⦄ no_local path_a 300 blank path_a-IsString (omega arith)
      (omega arith) (omega arith)

do_rename-sac_rename_example :
    do_rename ⦃p = unix 4⦄ (server ⦃p = unix 4⦄ no_local) path_a path_b blank
    ≡ (sac_rename ⦃p = unix 4⦄ path_a path_b >>= λ st. pure (int32 st)) blank
do_rename-sac_rename_example =
    do_rename-sac_rename ⦃p = unix 4⦄ no_local path_a path_b blank path_a-IsString path_b-IsString
      (omega arith) (omega arith)

do_open-sac_open_example :
    let run = (sac_open ⦃p = unix 4⦄ path_a >>= λ st. pure (opened (int32 st))) blank in
    (do_open ⦃p = unix 4⦄ (server ⦃p = unix 4⦄ no_local) path_a blank ≡ run)
    × (do_create ⦃p = unix 4⦄ (server ⦃p = unix 4⦄ no_local) path_a blank ≡ run)
do_open-sac_open_example =
    do_open-sac_open ⦃p = unix 4⦄ no_local path_a blank path_a-IsString (omega arith) path_a-shown

do_write-sac_write_example :
    do_write ⦃p = unix 4⦄ (server ⦃p = unix 4⦄ no_local) (string_bytes path_a) 2 100 5 blank
    ≡ (sac_write ⦃p = unix 4⦄ 5 (string_bytes path_a) 2 100 >>= λ n. pure (int32 (Status.pos n)))
        blank
do_write-sac_write_example =
    do_write-sac_write ⦃p = unix 4⦄ no_local path_a 100 5 blank refl (omega arith) (omega arith)

do_getattr-fault_example :
    do_getattr ⦃p = unix 4⦄ (server ⦃p = unix 4⦄ no_local) path_a blank ≡ fault
do_getattr-fault_example =
    do_getattr-fault ⦃p = unix 4⦄ no_local path_a blank (omega arith) path_a-shown

-- A disk whose node 0 is the root directory, with the entry "a", whose node 1 is a file of three
-- bytes "abc" in block 41.
abbrev pub small : Fs
small = record {
  disk = λ b i.
      if b == 2
      then (if i == 0 then 2 else if i == 76 then 128 else if i == 96 then 50 else 0)
      else if b == 50
      then (if i == 0 then 51 else 0)
      else if b == 51
      then (if i == 0 then 1 else if i == 4 then b'a' else 0)
      else if b == 3
      then (if i == 0 then 1 else if i == 76 then 3 else if i == 96 then 40 else 0)
      else if b == 40
      then (if i == 0 then 41 else 0)
      else if b == 41
      then (if ltb i 3 then b'a' + i else 0)
      else 0;
  bitmap = blank.bitmap;
}

-- The state that a run ends in, and what it returns.
abbrev pub state_of : {A : Type 0} → Run A → Fs
state_of (ok a s) = s
state_of (exited s) = s
state_of fault = blank
state_of out_of_fuel = blank

pub listed :
    sac_readdir ⦃p = unix 4⦄ (b'/' ∷ []) small
    ≡ ok (some ((b'a' ∷ []) ∷ [])) (state_of (sac_readdir ⦃p = unix 4⦄ (b'/' ∷ []) small))
unfolding sac_readdir is_valid_path search_path read_node block_to_node read_string pointers_loop
    load get_next_write_position create_node read_block write_block str_eq iterate_pointers_blocks
    split get_block_num_from_node_num pointer_at blocks_loop bytes_loop read_directory_entry
    next_byte iterate_blocks iterate_bytes_in_block with_byte_num with_block_num
listed = refl

-- The bytes that are read from the file, which are its three.
abbrev pub read_abc : Bytes
read_abc = memcpy (λ _. 0xee) 0 (small.disk 41) 0 3

pub read_small :
    sac_read ⦃p = unix 4⦄ 1 (λ _. 0xee) 10 0 small
    ≡ ok (Status.pos 3, read_abc) (state_of (sac_read ⦃p = unix 4⦄ 1 (λ _. 0xee) 10 0 small))
unfolding sac_read read_node block_to_node read_string load create_node read_block write_block
    get_block_num_from_node_num get_data_block_from_node copy_slot copy_out memcpy pointer_at
    read_loop unmap_and_destroy_node
read_small = refl

do_read-sac_read_example :
    do_read ⦃p = unix 4⦄ (server ⦃p = unix 4⦄ no_local) path_a (λ _. 0) 10 0 1 small
    ≡ ok
        (Status.pos 3, memcpy (λ _. 0) 0 read_abc 0 3)
        (state_of (sac_read ⦃p = unix 4⦄ 1 (λ _. 0xee) 10 0 small))
do_read-sac_read_example =
    do_read-sac_read ⦃p = unix 4⦄ no_local path_a (λ _. 0) 10 0 1 3 read_abc small
      (state_of (sac_read ⦃p = unix 4⦄ 1 (λ _. 0xee) 10 0 small)) path_a-shown (omega arith)
      read_small (omega arith)

-- The root directory cannot be read.
failed :
    sac_read ⦃p = unix 4⦄ 0 (λ _. 0xee) 10 0 small
    ≡ ok (failure, λ _. 0xee) (state_of (sac_read ⦃p = unix 4⦄ 0 (λ _. 0xee) 10 0 small))
unfolding sac_read read_node block_to_node read_string load create_node read_block write_block
    get_block_num_from_node_num unmap_and_destroy_node
failed = refl

do_read-failure_example :
    do_read ⦃p = unix 4⦄ (server ⦃p = unix 4⦄ no_local) path_a (λ _. 0) 10 0 0 small
    ≡ ok
        (Status.pos 10, memcpy (λ _. 0) 0 (λ _. 0xee) 0 10)
        (state_of (sac_read ⦃p = unix 4⦄ 0 (λ _. 0xee) 10 0 small))
do_read-failure_example =
    do_read-failure ⦃p = unix 4⦄ no_local path_a (λ _. 0) 10 0 0 small
      (state_of (sac_read ⦃p = unix 4⦄ 0 (λ _. 0xee) 10 0 small)) path_a-shown (omega arith)
      (omega arith) failed
