-- ===== src/Directory/Lookup.antt =====
-- The search for a name in a directory, against a list of names and node numbers.
use linuse_fs.Base.{
  ℕ, zero, suc, ◌-◌, ◌*◌, ◌/◌, ◌%◌, ◌^◌, ◌<◌, ◌≡◌, ◌≢◌, inl, inr, true, List, [], arith, length,
  Bool-cases, lt→ltb, ne→==,
}
use linuse_fs.Memory.{Bytes, load}
use linuse_fs.Disk.{total_blocks, block_size, Fs, ok, read_block}
use linuse_fs.Node.{Node, pointer_at}
use linuse_fs.Directory.Entry.{
  DirEntry, invalid_entry, is_valid_entry, get_next_write_position, with_block_num,
  with_pointer_block_num,
}
use linuse_fs.Directory.Iterate.{
  blocks_loop, iterate_blocks, pointers_loop, iterate_pointers_blocks, find_entry, get_entry,
}
use linuse_fs.Directory.Block.{
  lookup, HoldsEntries, number_of, entries_block, behind, next_byte-last, iterate_bytes-lookup,
}

module _ (name : List ℕ) (named : name ≢ []) where
  blocks_loop-end :
      (fuel : ℕ) (es : List (ℕ × List ℕ)) (b : Bytes) (last : ℕ) (e : DirEntry) (s : Fs)
      → 0 < fuel
      → blocks_loop (find_entry name) fuel b true (behind es) 1 last e tt s
        ≡ ok (with_block_num e last, tt) s
  unfolding blocks_loop
  blocks_loop-end zero es b last e s h = absurd (omega arith)
  blocks_loop-end (suc fuel) es b last e s h = elim (Bool-cases (is_valid_entry e)) [
    | inl v ↦ rw v
    | inr v ↦ rw (v, next_byte-last 1 0 1024)
  ]

  -- A pointers block with one element, the last of the directory.
  blocks_loop-lookup :
      (fuel : ℕ) (es : List (ℕ × List ℕ)) (b : Bytes) (s : Fs)
      → 0 < fuel
      → 0 < length es
      → length es < 32
      → load 4 b 0 < total_blocks
      → HoldsEntries (s.disk (load 4 b 0)) 0 es
      → (e : DirEntry) × (blocks_loop
            (find_entry name)
            (suc fuel)
            b
            true
            (behind es)
            0
            0
            invalid_entry
            tt
            s
          ≡ ok (e, tt) s)
        × (number_of e ≡ lookup name es)
  unfolding blocks_loop read_block with_block_num
  blocks_loop-lookup fuel es b s rounds some_entries few inside holds =
      let (e, run, number) =
        iterate_bytes-lookup name named es (s.disk (load 4 b 0)) s some_entries few holds in
      (
        with_block_num e (load 4 b 0),
        rw (next_byte-last 0 0 1024, lt→ltb (load 4 b 0) total_blocks inside, run)
            (blocks_loop-end fuel es b (load 4 b 0) e s rounds),
        number,
      )

  pointers_loop-end :
      (fuel : ℕ) (es : List (ℕ × List ℕ)) (node : Node) (e : DirEntry) (s : Fs)
      → 0 < fuel
      → node.indirect_pointer_block 1 ≡ 0
      → pointers_loop (find_entry name) fuel node (behind es) 1 e tt s
        ≡ ok (with_pointer_block_num e (2 ^ 32 - 1), tt) s
  unfolding pointers_loop pointer_at
  pointers_loop-end zero es node e s h last = absurd (omega arith)
  pointers_loop-end (suc fuel) es node e s h last = elim (Bool-cases (is_valid_entry e)) [
    | inl v ↦ rw v
    | inr v ↦ rw (v, last)
  ]

  pointers_loop-lookup :
      (fuel : ℕ) (es : List (ℕ × List ℕ)) (node : Node) (s : Fs)
      → 0 < fuel
      → 0 < length es
      → length es < 32
      → node.state ≢ 0
      → node.indirect_pointer_block 0 ≢ 0
      → node.indirect_pointer_block 0 < total_blocks
      → node.indirect_pointer_block 1 ≡ 0
      → load 4 (s.disk (node.indirect_pointer_block 0)) 0 < total_blocks
      → HoldsEntries (s.disk (load 4 (s.disk (node.indirect_pointer_block 0)) 0)) 0 es
      → (e : DirEntry) × (pointers_loop
            (find_entry name)
            (suc fuel)
            node
            (behind es)
            0
            invalid_entry
            tt
            s
          ≡ ok (e, tt) s)
        × (number_of e ≡ lookup name es)
  unfolding pointers_loop pointer_at read_block iterate_blocks with_pointer_block_num
  pointers_loop-lookup fuel es node s rounds some_entries few used here inside last block_inside
        holds =
      let (e, run, number) =
        blocks_loop-lookup 1024 es (s.disk (node.indirect_pointer_block 0)) s (omega arith)
          some_entries few block_inside holds in
      (
        with_pointer_block_num e (2 ^ 32 - 1),
        rw
            (
              ne→== (node.indirect_pointer_block 0) 0 here,
              ne→== node.state 0 used,
              lt→ltb (node.indirect_pointer_block 0) total_blocks inside,
              run,
            )
            (pointers_loop-end fuel es node e s rounds last),
        number,
      )

  get_entry-pointers_loop :
      (node : Node) (es : List (ℕ × List ℕ)) (e : DirEntry) (s : Fs)
      → node.file_size ≡ 128 * length es
      → length es < 32
      → pointers_loop (find_entry name) 1001 node (behind es) 0 invalid_entry tt s ≡ ok (e, tt) s
      → get_entry node name s ≡ ok e s
  unfolding get_entry iterate_pointers_blocks get_next_write_position
  get_entry-pointers_loop node es e s size few run =
      let q : node.file_size / block_size / 1024 ≡ 0 = omega arith in
      let j : node.file_size / block_size % 1024 ≡ 0 = omega arith in
      let k : node.file_size % block_size ≡ 128 * length es = omega arith in rw (q, j, k, run)

  -- In a directory with one to 31 entries, the search for a name that is not empty changes nothing,
  -- and gives a valid entry just when an entry has the name, with the node number of the first such
  -- entry. The directory has one pointers block, and both its blocks are on the disk.
  pub get_entry-lookup :
      (node : Node) (es : List (ℕ × List ℕ)) (s : Fs)
      → node.state ≢ 0
      → node.file_size ≡ 128 * length es
      → 0 < length es
      → length es < 32
      → node.indirect_pointer_block 0 ≢ 0
      → node.indirect_pointer_block 1 ≡ 0
      → node.indirect_pointer_block 0 < total_blocks
      → entries_block s node < total_blocks
      → HoldsEntries (s.disk (entries_block s node)) 0 es
      → (e : DirEntry) × (get_entry node name s ≡ ok e s) × (number_of e ≡ lookup name es)
  get_entry-lookup node es s used size some_entries few here last inside block_inside holds =
      let (e, run, number) =
        pointers_loop-lookup 1000 es node s (omega arith) some_entries few used here inside last
          block_inside holds in
      (e, get_entry-pointers_loop node es e s size few run, number)
