-- ===== src/Directory/Full.antt =====
-- The search in a directory whose entries fill a data block.
use linuse_fs.Base.{
  ℕ, zero, suc, ◌+◌, ◌-◌, ◌*◌, ◌/◌, ◌%◌, ◌^◌, ◌≤◌, ◌<◌, ◌≡◌, ◌≢◌, inl, inr, true, false, none, List,
  [], ◌∷◌, arith, ltb, leb, length, str_eq, Bool-cases, lt→ltb, ne→==,
}
use linuse_fs.Memory.{Bytes, load}
use linuse_fs.Disk.{total_blocks, block_size, Fs, fault, read_block}
use linuse_fs.Node.{Node, pointer_at}
use linuse_fs.Directory.Entry.{
  DataPosition, invalid_entry, get_next_write_position, next_byte, read_directory_entry,
}
use linuse_fs.Directory.Iterate.{
  bytes_loop, iterate_bytes_in_block, blocks_loop, iterate_blocks, pointers_loop,
  iterate_pointers_blocks, find_entry, get_entry,
}
use linuse_fs.Directory.Block.{lookup, HoldsEntries, entries_block}

module _ (name : List ℕ) where
  bytes_loop-overrun :
      (es : List (ℕ × List ℕ)) (fuel : ℕ) (b : Bytes) (limit k : ℕ) (s : Fs)
      → length es < fuel
      → k + 128 * length es ≡ block_size
      → block_size ≤ limit
      → HoldsEntries b k es
      → lookup name es ≡ none
      → bytes_loop (find_entry name) fuel b false limit k invalid_entry tt s ≡ fault
  unfolding bytes_loop find_entry read_directory_entry next_byte
  bytes_loop-overrun es zero b limit k s h end wide holds absent = absurd (omega arith)
  bytes_loop-overrun [] (suc fuel) b limit k s h end wide holds absent =
      let before : leb k limit ≡ true = ground arith in
      let outside : ltb k block_size ≡ false = ground arith in rw (before, outside)
  bytes_loop-overrun ((num, entry_name) ∷ es) (suc fuel) b limit k s h end wide (e0, e1, holds)
        absent =
      let before : leb k limit ≡ true = ground arith in
      let inside : ltb k block_size ≡ true = ground arith in
      elim (Bool-cases (str_eq entry_name name)) [
        | inl same ↦ absurd (cc (rw same at absent))
        | inr other ↦
            rw (before, inside, e1, other)
              (bytes_loop-overrun es fuel b limit (k + 128) s (omega arith) (omega arith) wide holds
                (rw other at absent))
      ]

  -- The position behind 32 entries.
  abbrev second_block : DataPosition
  second_block = record { pointer_block_num = 0; block_num = 1; byte_num = 0 }

  blocks_loop-overrun :
      (fuel : ℕ) (es : List (ℕ × List ℕ)) (b : Bytes) (s : Fs)
      → length es ≡ 32
      → load 4 b 0 < total_blocks
      → HoldsEntries (s.disk (load 4 b 0)) 0 es
      → lookup name es ≡ none
      → blocks_loop (find_entry name) (suc fuel) b true second_block 0 0 invalid_entry tt s ≡ fault
  unfolding blocks_loop read_block iterate_bytes_in_block next_byte
  blocks_loop-overrun fuel es b s full inside holds absent = rw (
    lt→ltb (load 4 b 0) total_blocks inside,
    bytes_loop-overrun es 34 (s.disk (load 4 b 0)) (2 ^ 32 - 1) 0 s (omega arith) (omega arith)
        (omega arith) holds absent,
  )

  pointers_loop-overrun :
      (fuel : ℕ) (es : List (ℕ × List ℕ)) (node : Node) (s : Fs)
      → length es ≡ 32
      → node.state ≢ 0
      → node.indirect_pointer_block 0 ≢ 0
      → node.indirect_pointer_block 0 < total_blocks
      → entries_block s node < total_blocks
      → HoldsEntries (s.disk (entries_block s node)) 0 es
      → lookup name es ≡ none
      → pointers_loop (find_entry name) (suc fuel) node second_block 0 invalid_entry tt s ≡ fault
  unfolding pointers_loop pointer_at read_block iterate_blocks
  pointers_loop-overrun fuel es node s full used here inside block_inside holds absent = rw (
    ne→== (node.indirect_pointer_block 0) 0 here,
    ne→== node.state 0 used,
    lt→ltb (node.indirect_pointer_block 0) total_blocks inside,
    blocks_loop-overrun 1024 es (s.disk (node.indirect_pointer_block 0)) s full block_inside holds
        absent,
  )

  -- In a directory with 32 entries, which fill its data block, the search for a name that no
  -- entry has reads behind the block. The directory's pointers block and its data block are on
  -- the disk.
  pub get_entry_full :
      (node : Node) (es : List (ℕ × List ℕ)) (s : Fs)
      → node.state ≢ 0
      → node.file_size ≡ 128 * length es
      → length es ≡ 32
      → node.indirect_pointer_block 0 ≢ 0
      → node.indirect_pointer_block 0 < total_blocks
      → entries_block s node < total_blocks
      → HoldsEntries (s.disk (entries_block s node)) 0 es
      → lookup name es ≡ none
      → get_entry node name s ≡ fault
  unfolding get_entry iterate_pointers_blocks get_next_write_position
  get_entry_full node es s used size full here inside block_inside holds absent =
      let q : node.file_size / block_size / 1024 ≡ 0 = omega arith in
      let j : node.file_size / block_size % 1024 ≡ 1 = omega arith in
      let k : node.file_size % block_size ≡ 0 = omega arith in
      rw (
        q,
        j,
        k,
        pointers_loop-overrun 1000 es node s full used here inside block_inside holds absent,
      )
