-- ===== src/Directory/Ends.antt =====
-- Termination for the iteration over a directory (sac-fs/src/directory.c).
pub mod Update
use linuse_fs.Base.{
  ℕ, zero, suc, ◌+◌, ◌*◌, ◌-◌, ◌%◌, ◌^◌, ◌<◌, ◌≤◌, ◌≡◌, Bool, true, false, ◌&&◌, not, Bool-cases,
  ltb→lt, inl, inr, List, [], ◌∷◌, arith, ltb, leb, ◌==◌, if◌then◌else◌,
}
use linuse_fs.Memory.{Bytes, read_string}
use linuse_fs.Platform.{Platform}
use linuse_fs.Disk.{Fs, block_size, Cmd, and_then}
use linuse_fs.Disk.Ends.{Ends, Post, Post-and_then, Post-crash, ends}
use linuse_fs.Node.{Node, pointer_at, u32}
use linuse_fs.Node.Ends.{read_node-Ends, unmap_and_destroy_node-Ends}
use linuse_fs.Directory.Entry.{
  DataPosition, DirEntry, invalid_entry, is_valid_entry, get_next_write_position, next_byte,
  read_directory_entry, Process,
}
use linuse_fs.Directory.Iterate.{
  bytes_loop, iterate_bytes_in_block, blocks_loop, iterate_blocks, pointers_loop,
  iterate_pointers_blocks, get_entry, exists_entry, find_entry,
}

-- An entry is read inside its block only.
read_directory_entry-Post :
    {B : Type 0} (Q : B → Type 0) (b : Bytes) (k : ℕ) (rest : DirEntry → Cmd B) (s : Fs)
    → (k < block_size → (entry : DirEntry) (s' : Fs) → Post Q (rest entry s'))
    → Post Q (and_then (read_directory_entry b k s) rest)
unfolding read_directory_entry
read_directory_entry-Post Q b k rest s then_ends = elim (Bool-cases (ltb k block_size)) [
  | inl e ↦ rw e (
      Post-and_then (λ _. k < block_size) Q _ rest
        (Post-crash (λ _. k < block_size) (read_string 71 b (k + 4)) _ s λ _. ltb→lt _ _ e)
        λ entry s' inside. then_ends inside entry s')
  | inr e ↦ rw e tt
]

-- A pointer is read inside the array only.
pointer_at-Post :
    {B : Type 0} (Q : B → Type 0) (node : Node) (i : ℕ) (rest : ℕ → Cmd B) (s : Fs)
    → (i < 1000 → (pointer : ℕ) (s' : Fs) → Post Q (rest pointer s'))
    → Post Q (and_then (pointer_at node i s) rest)
unfolding pointer_at
pointer_at-Post Q node i rest s then_ends = elim (Bool-cases (ltb i 1000)) [
  | inl e ↦ rw e (then_ends (ltb→lt i 1000 e) _ s)
  | inr e ↦ rw e tt
]

next_byte_lt :
    (j limit : ℕ) (is_last going : Bool)
    → limit < 1024
    → (going && next_byte j limit 1024 is_last) ≡ true
    → j < 1024
unfolding next_byte
next_byte_lt j limit is_last going inside test = ground arith

module _ {A : Type 0} (process : Process A) where
  -- The entry behind the block is not read, and each round goes one entry on.
  bytes_loop-Ends :
      (fuel : ℕ) (b : Bytes) (is_last : Bool) (limit k : ℕ) (result : DirEntry) (acc : A) (s : Fs)
      → 0 < fuel
      → block_size + 128 ≤ k + 128 * fuel
      → Ends (bytes_loop process fuel b is_last limit k result acc s)
  unfolding bytes_loop
  bytes_loop-Ends zero b is_last limit k result acc s some_left enough = absurd (omega arith)
  bytes_loop-Ends (suc fuel) b is_last limit k result acc s some_left enough =
      let next : (r : DirEntry) (a : A) (s' : Fs)
          → k < block_size
          → Ends (bytes_loop process fuel b is_last limit (k + 128) r a s') =
        λ r a s' inside.
          bytes_loop-Ends fuel b is_last limit (k + 128) r a s' (omega arith) (omega arith) in
      search (ends, read_directory_entry-Post)

  iterate_bytes_in_block-Ends :
      (b : Bytes) (is_last : Bool) (position : DataPosition) (acc : A) (s : Fs)
      → Ends (iterate_bytes_in_block process b is_last position acc s)
  unfolding iterate_bytes_in_block
  iterate_bytes_in_block-Ends b is_last position acc s =
      bytes_loop-Ends 34 b is_last (u32 (position.byte_num + 2 ^ 32 - 1)) 0 invalid_entry acc s
        (omega arith) (omega arith)

  -- The test of the loop holds inside the pointers block only.
  blocks_loop-Ends :
      (fuel : ℕ) (b : Bytes) (is_last : Bool) (position : DataPosition) (j last_block : ℕ)
      (result : DirEntry) (acc : A) (s : Fs)
      → position.block_num < 1024
      → 0 < fuel
      → 1025 ≤ j + fuel
      → Ends (blocks_loop process fuel b is_last position j last_block result acc s)
  unfolding blocks_loop
  blocks_loop-Ends zero b is_last position j last_block result acc s inside some_left enough =
      absurd (omega arith)
  blocks_loop-Ends (suc fuel) b is_last position j last_block result acc s inside some_left enough =
      let next : (last : ℕ) (r : DirEntry) (a : A) (s' : Fs)
          → (not (is_valid_entry result) && next_byte j position.block_num 1024 is_last) ≡ true
          → Ends (blocks_loop process fuel b is_last position (j + 1) last r a s') =
        λ last r a s' test.
          let here : j < 1024 = next_byte_lt j position.block_num is_last _ inside test in
          blocks_loop-Ends fuel b is_last position (j + 1) last r a s' inside (omega arith)
            (omega arith) in
      search (ends, iterate_bytes_in_block-Ends)

  iterate_blocks-Ends :
      (b : Bytes) (is_last : Bool) (position : DataPosition) (acc : A) (s : Fs)
      → position.block_num < 1024
      → Ends (iterate_blocks process b is_last position acc s)
  unfolding iterate_blocks
  iterate_blocks-Ends b is_last position acc s inside =
      blocks_loop-Ends 1025 b is_last position 0 0 invalid_entry acc s inside (omega arith)
        (omega arith)

  pointers_loop-Ends :
      (fuel : ℕ) (node : Node) (position : DataPosition) (i : ℕ) (result : DirEntry) (acc : A)
      (s : Fs)
      → position.block_num < 1024
      → 0 < fuel
      → 1001 ≤ i + fuel
      → Ends (pointers_loop process fuel node position i result acc s)
  unfolding pointers_loop
  pointers_loop-Ends zero node position i result acc s inside some_left enough =
      absurd (omega arith)
  pointers_loop-Ends (suc fuel) node position i result acc s inside some_left enough =
      let next : (r : DirEntry) (a : A) (s' : Fs)
          → i < 1000
          → Ends (pointers_loop process fuel node position (i + 1) r a s') =
        λ r a s' here.
          pointers_loop-Ends fuel node position (i + 1) r a s' inside (omega arith) (omega arith) in
      search (ends, pointer_at-Post, iterate_blocks-Ends) depth 9

  -- The iteration over the entries of any node ends, whatever the disk holds.
  pub iterate_pointers_blocks-Ends :
      (node : Node) (acc : A) (s : Fs) → Ends (iterate_pointers_blocks process node acc s)
  unfolding iterate_pointers_blocks get_next_write_position
  iterate_pointers_blocks-Ends node acc s =
      pointers_loop-Ends 1001 node (get_next_write_position node) 0 invalid_entry acc s
        (omega arith) (omega arith) (omega arith)
