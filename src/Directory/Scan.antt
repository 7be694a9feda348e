-- ===== src/Directory/Scan.antt =====
-- The iteration over a directory with one data block, for every callback, against the list of its
-- entries.
use linuse_fs.Base.{
  ℕ, zero, suc, ◌+◌, ◌-◌, ◌*◌, ◌/◌, ◌%◌, ◌^◌, ◌<◌, ◌≡◌, ◌≢◌, inl, inr, true, false, List, [], ◌∷◌,
  arith, ltb, leb, length, if◌then◌else◌, Bool-cases, lt→ltb, ne→==,
}
use linuse_fs.Memory.{Bytes, load}
use linuse_fs.Disk.{total_blocks, block_size, Fs, ok, read_block}
use linuse_fs.Node.{Node, u32, pointer_at}
use linuse_fs.Directory.Entry.{
  DirEntry, invalid_entry, is_valid_entry, get_next_write_position, read_directory_entry, Process,
  with_byte_num, with_block_num, with_pointer_block_num,
}
use linuse_fs.Directory.Iterate.{
  bytes_loop, iterate_bytes_in_block, blocks_loop, iterate_blocks, pointers_loop,
  iterate_pointers_blocks,
}
use linuse_fs.Directory.Block.{HoldsEntries, entries_block, behind, next_byte-last}

-- An entry as it is read.
abbrev pub entry_of : ℕ → List ℕ → DirEntry
entry_of num name = record { name = name; node_num = num; position = invalid_entry.position }

-- The directory's one data block holds the entries; with no entry it has no block.
abbrev pub Stored : Fs → Node → List (ℕ × List ℕ) → Type 0
Stored s node [] = node.indirect_pointer_block 0 ≡ 0
Stored s node (e ∷ es) =
    (node.indirect_pointer_block 0 ≢ 0)
    × (node.indirect_pointer_block 0 < total_blocks)
    × (entries_block s node < total_blocks)
    × (node.indirect_pointer_block 0 ≢ entries_block s node)
    × HoldsEntries (s.disk (entries_block s node)) 0 (e ∷ es)

-- A directory with fewer than 32 entries, its node in memory and the entries on the disk.
pub record IsSmallDirectory (s : Fs) (node : Node) (es : List (ℕ × List ℕ)) : Type 0 where
  pub state : node.state ≡ 2
  pub size : node.file_size ≡ 128 * length es
  pub few : length es < 32
  pub single : node.indirect_pointer_block 1 ≡ 0
  pub stored : Stored s node es

module _ {A : Type 0} (process : Process A) where
  -- The callback gets the entries in their order until it answers with a valid one.
  unfoldable pub scan : List (ℕ × List ℕ) → ℕ → DirEntry → A → DirEntry × A
  scan [] k result acc = (with_byte_num result (u32 (k + 2 ^ 32 - 128)), acc)
  scan ((num, name) ∷ es) k result acc =
      let (result', acc') = process (entry_of num name) acc in
      let rest = scan es (k + 128) result' acc' in
      if is_valid_entry result then (with_byte_num result (u32 (k + 2 ^ 32 - 128)), acc) else rest

  -- What the iteration makes of the result: the block of the entry, and its pointers block.
  abbrev pub placed : ℕ → DirEntry × A → DirEntry × A
  placed block (e, acc) = (with_pointer_block_num (with_block_num e block) (2 ^ 32 - 1), acc)

  bytes_loop-scan :
      (es : List (ℕ × List ℕ)) (fuel : ℕ) (b : Bytes) (limit k : ℕ) (e : DirEntry) (acc : A)
      (s : Fs)
      → length es < fuel
      → k + 128 * length es ≡ limit + 1
      → limit < block_size
      → HoldsEntries b k es
      → bytes_loop process fuel b true limit k e acc s ≡ ok (scan es k e acc) s
  unfolding bytes_loop scan read_directory_entry
  bytes_loop-scan es zero b limit k e acc s h end small holds = absurd (omega arith)
  bytes_loop-scan [] (suc fuel) b limit k e acc s h end small holds =
      let past : leb k limit ≡ false = ground arith in
      elim (Bool-cases (is_valid_entry e)) [
        | inl v ↦ rw v
        | inr v ↦ rw (v, next_byte-last k limit block_size, past)
      ]
  bytes_loop-scan ((num, name) ∷ es) (suc fuel) b limit k e acc s h end small (e0, e1, holds) =
      let before : leb k limit ≡ true = ground arith in
      let inside : ltb k block_size ≡ true = ground arith in
      elim (Bool-cases (is_valid_entry e)) [
        | inl v ↦ rw v
        | inr v ↦
            rw (v, next_byte-last k limit block_size, before, inside, e1, e0)
              (bytes_loop-scan es fuel b limit (k + 128) _ _ s (omega arith) (omega arith) small
                holds)
      ]

  blocks_loop-end :
      (fuel : ℕ) (es : List (ℕ × List ℕ)) (b : Bytes) (last : ℕ) (e : DirEntry) (acc : A) (s : Fs)
      → blocks_loop process (suc fuel) b true (behind es) 1 last e acc s
        ≡ ok (with_block_num e last, acc) s
  unfolding blocks_loop
  blocks_loop-end fuel es b last e acc s = elim (Bool-cases (is_valid_entry e)) [
    | inl v ↦ rw v
    | inr v ↦ rw (v, next_byte-last 1 0 1024)
  ]

  pointers_loop-end :
      (fuel : ℕ) (es : List (ℕ × List ℕ)) (node : Node) (e : DirEntry) (acc : A) (s : Fs)
      → 0 < fuel
      → node.indirect_pointer_block 1 ≡ 0
      → pointers_loop process fuel node (behind es) 1 e acc s
        ≡ ok (with_pointer_block_num e (2 ^ 32 - 1), acc) s
  unfolding pointers_loop pointer_at
  pointers_loop-end zero es node e acc s h last = absurd (omega arith)
  pointers_loop-end (suc fuel) es node e acc s h last = elim (Bool-cases (is_valid_entry e)) [
    | inl v ↦ rw v
    | inr v ↦ rw (v, last)
  ]

  iterate_bytes-scan :
      (es : List (ℕ × List ℕ)) (b : Bytes) (acc : A) (s : Fs)
      → 0 < length es
      → length es < 32
      → HoldsEntries b 0 es
      → iterate_bytes_in_block process b true (behind es) acc s ≡ ok (scan es 0 invalid_entry acc) s
  unfolding iterate_bytes_in_block
  iterate_bytes-scan es b acc s some_entries few holds =
      bytes_loop-scan es 34 b (u32 (128 * length es + 2 ^ 32 - 1)) 0 invalid_entry acc s
        (omega arith) (omega arith) (omega arith) holds

  blocks_loop-scan :
      (fuel : ℕ) (es : List (ℕ × List ℕ)) (b : Bytes) (acc : A) (s : Fs)
      → 0 < length es
      → length es < 32
      → load 4 b 0 < total_blocks
      → HoldsEntries (s.disk (load 4 b 0)) 0 es
      → blocks_loop process (suc (suc fuel)) b true (behind es) 0 0 invalid_entry acc s ≡ (
          let (e, acc') = scan es 0 invalid_entry acc in ok (with_block_num e (load 4 b 0), acc') s)
  blocks_loop-scan fuel es b acc s some_entries few inside holds =
      let (e, acc') = scan es 0 invalid_entry acc in
      unfold blocks_loop read_block in
      rw
        (
          next_byte-last 0 0 1024,
          lt→ltb (load 4 b 0) total_blocks inside,
          iterate_bytes-scan es (s.disk (load 4 b 0)) acc s some_entries few holds,
        )
        (blocks_loop-end fuel es b (load 4 b 0) e acc' s)

  position_behind :
      (node : Node) (es : List (ℕ × List ℕ))
      → node.file_size ≡ 128 * length es
      → length es < 32
      → get_next_write_position node ≡ behind es
  unfolding get_next_write_position
  position_behind node es size few =
      let q : node.file_size / block_size / 1024 ≡ 0 = omega arith in
      let j : node.file_size / block_size % 1024 ≡ 0 = omega arith in
      let k : node.file_size % block_size ≡ 128 * length es = omega arith in rw (q, j, k)

  pointers_loop-scan :
      (fuel : ℕ) (s : Fs) (node : Node) (e : ℕ × List ℕ) (es : List (ℕ × List ℕ)) (acc : A)
      → 0 < fuel
      → IsSmallDirectory s node (e ∷ es)
      → pointers_loop process (suc fuel) node (behind (e ∷ es)) 0 invalid_entry acc s
        ≡ ok (placed (entries_block s node) (scan (e ∷ es) 0 invalid_entry acc)) s
  unfolding pointers_loop pointer_at read_block iterate_blocks
  pointers_loop-scan fuel s node e es acc rounds small =
      let (here, inside, block_inside, apart, holds) = small.stored in
      let (last, acc') = scan (e ∷ es) 0 invalid_entry acc in
      let used : node.state ≢ 0 = λ z. absurd (omega (arith, small.state, z)) in
      rw
        (
          ne→== (node.indirect_pointer_block 0) 0 here,
          ne→== node.state 0 used,
          lt→ltb (node.indirect_pointer_block 0) total_blocks inside,
          blocks_loop-scan 1023 (e ∷ es) (s.disk (node.indirect_pointer_block 0)) acc s
              (omega arith) small.few block_inside holds,
        )
        (pointers_loop-end fuel (e ∷ es) node (with_block_num last (entries_block s node)) acc' s
          rounds small.single)

  -- The iteration over a directory with one entry or more.
  pub iterate_pointers_blocks-scan :
      (s : Fs) (node : Node) (e : ℕ × List ℕ) (es : List (ℕ × List ℕ)) (acc : A)
      → IsSmallDirectory s node (e ∷ es)
      → iterate_pointers_blocks process node acc s
        ≡ ok (placed (entries_block s node) (scan (e ∷ es) 0 invalid_entry acc)) s
  unfolding iterate_pointers_blocks
  iterate_pointers_blocks-scan s node e es acc small =
      rw (position_behind node (e ∷ es) small.size small.few)
        (pointers_loop-scan 1000 s node e es acc (omega arith) small)

  pointers_loop-empty :
      (fuel : ℕ) (s : Fs) (node : Node) (acc : A)
      → node.indirect_pointer_block 0 ≡ 0
      → pointers_loop process (suc fuel) node (get_next_write_position node) 0 invalid_entry acc s
        ≡ ok (with_pointer_block_num invalid_entry (2 ^ 32 - 1), acc) s
  unfolding pointers_loop pointer_at
  pointers_loop-empty fuel s node acc z = rw z

  -- The iteration over an empty directory.
  pub iterate_pointers_blocks-empty :
      (s : Fs) (node : Node) (acc : A)
      → IsSmallDirectory s node []
      → iterate_pointers_blocks process node acc s
        ≡ ok (with_pointer_block_num invalid_entry (2 ^ 32 - 1), acc) s
  unfolding iterate_pointers_blocks
  iterate_pointers_blocks-empty s node acc small = pointers_loop-empty 1000 s node acc small.stored
