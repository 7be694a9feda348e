-- ===== src/Sacio/Loops.antt =====
-- sac-fs/src/sacio.c: a write and a read that stay inside one data block.
use linuse_fs.Base.{
  ℕ, suc, ◌+◌, ◌-◌, ◌/◌, ◌%◌, ◌≤◌, ◌<◌, ◌≡◌, ◌≢◌, refl, sym, ap, ◌∙◌, inl, inr, true, false, arith,
  ltb, leb, ◌==◌, Bool-cases, lt→ltb, le→ltb, le→leb, ne→==,
}
use native.Mathlib.Nat.{mod-le}
use linuse_fs.Memory.{Bytes, memcpy}
use linuse_fs.Memory.Laws.{memcpy-inside}
use linuse_fs.Platform.{Platform}
use linuse_fs.Disk.{
  total_blocks, block_size, min, Fs, ok, pure, update_block, ◌>>◌, read_block, write_block,
}
use linuse_fs.Node.{Node, get_data_block_from_node, read_node, unmap_and_destroy_node}
use linuse_fs.Status.{Status}
use linuse_fs.Sacio.Data.{
  write_bytes, write_loop, fill_loop, read_loop, sac_write, sac_read, int_limit, int_lt, sum_limit,
}

-- The disk after `count` bytes of `buffer` were put into block `d` at `byte`.
abbrev pub written : Fs → ℕ → ℕ → Bytes → ℕ → Fs
written s d byte buffer count = record s {
  disk = update_block s.disk d (memcpy (s.disk d) byte buffer 0 count);
}

-- What is copied into a place and from there to the front of a buffer.
pub memcpy-memcpy :
    (old b : Bytes) (byte : ℕ) (buffer : Bytes) (count i : ℕ)
    → i < count
    → memcpy old 0 (memcpy b byte buffer 0 count) byte count i ≡ buffer i
memcpy-memcpy old b byte buffer count i h =
    let z : 0 + i ≡ i = omega arith in
    ap (memcpy old 0 (memcpy b byte buffer 0 count) byte count) (sym z)
    ∙ memcpy-inside old 0 (memcpy b byte buffer 0 count) byte count i h
    ∙ memcpy-inside b byte buffer 0 count i h
    ∙ ap buffer z

ltb_mod : (size a m : ℕ) → a ≤ size → ltb size (a % m) ≡ false
ltb_mod size a m h = let below : a % m ≤ a = mod-le a m in le→ltb size (a % m) (omega arith)

module _ ⦃p : Platform⦄ where
  write_loop-done :
      (fuel : ℕ) (buffer : Bytes) (count offset size : ℕ) (n : Node) (block byte in_block w : ℕ)
      (s : Fs)
      → w ≡ count
      → write_loop (suc fuel) buffer count offset size n block byte w in_block s ≡ ok n s
  unfolding write_loop
  write_loop-done fuel buffer count offset size n block byte in_block w s e =
      let done : ltb w count ≡ false = ground arith in rw done refl

  write_loop-step :
      (fuel : ℕ) (buffer : Bytes) (count offset size : ℕ) (n : Node) (block byte d : ℕ) (s : Fs)
      → get_data_block_from_node n block s ≡ ok d s
      → d < total_blocks
      → 0 < count
      → byte + count < block_size
      → offset + count ≤ size
      → size < int_limit
      → write_loop (suc fuel) buffer count offset size n block byte 0 0 s
        ≡ write_loop fuel buffer count offset size n block byte count count
            (written s d byte buffer count)
  unfolding write_loop write_bytes write_block
  write_loop-step fuel buffer count offset size n block byte d s at inside some_bytes room fits
        limit =
      let short : ltb (block_size - byte) count ≡ false = ground arith in
      let part : (count == block_size - byte) ≡ false = ground arith in
      let kept : ltb size (offset + count) ≡ false = ground arith in
      let no_overflow : leb int_limit count ≡ false = ground arith in
      let positive : leb int_limit size ≡ false = ground arith in
      let rest : count - 0 ≡ count = omega arith in
      let all : 0 + count ≡ count = omega arith in
      let start : byte + 0 ≡ byte = omega arith in
      rw (
        lt→ltb 0 count some_bytes,
        at,
        rest,
        short,
        all,
        part,
        no_overflow,
        start,
        positive,
        kept,
        le→leb (byte + count) block_size (omega arith),
        lt→ltb d total_blocks inside,
      )

  fill_loop-filled :
      (fuel : ℕ) (n : Node) (offset : ℕ) (s : Fs)
      → offset ≤ n.file_size
      → fill_loop (suc fuel) n offset s ≡ ok n s
  unfolding fill_loop
  fill_loop-filled fuel n offset s h =
      let filled : ltb n.file_size offset ≡ false = ground arith in rw filled

  pub sac_write-written :
      (fd : ℕ) (buffer : Bytes) (count offset : ℕ) (n : Node) (node_block d : ℕ) (s : Fs)
      → read_node fd s ≡ ok (n, node_block) s
      → n.indirect_pointer_block 0 ≢ 0
      → get_data_block_from_node n (offset / block_size) s ≡ ok d s
      → d < total_blocks
      → 0 < count
      → offset % block_size + count < block_size
      → offset + count ≤ n.file_size
      → n.file_size < int_limit
      → sac_write fd buffer count offset s
        ≡ (unmap_and_destroy_node n node_block >> pure count)
            (written s d (offset % block_size) buffer count)
  unfolding sac_write
  sac_write-written fd buffer count offset n node_block d s node used at inside some_bytes room fits
        limit =
      let low : leb int_limit offset ≡ false = ground arith in
      let rounds : count + 1 ≡ suc (suc (count - 1)) = omega arith in
      let fill_rounds : offset + 1 ≡ suc offset = omega arith in
      rw (
        node,
        ne→== (n.indirect_pointer_block 0) 0 used,
        low,
        fill_rounds,
        fill_loop-filled offset n offset s (omega arith),
        rounds,
        write_loop-step (suc (count - 1)) buffer count offset n.file_size n (offset / block_size)
            (offset % block_size) d s at inside some_bytes room fits limit,
        write_loop-done (count - 1) buffer count offset n.file_size n (offset / block_size)
            (offset % block_size) count count (written s d (offset % block_size) buffer count) refl,
      )

  read_loop-done :
      (fuel : ℕ) (n : Node) (count block d byte w : ℕ) (b : Bytes) (s : Fs)
      → w ≡ count
      → read_loop (suc fuel) n count block d byte w b s ≡ ok (w, b) s
  unfolding read_loop
  read_loop-done fuel n count block d byte w b s e =
      let done : ltb w count ≡ false = ground arith in rw done

  read_loop-step :
      (fuel : ℕ) (n : Node) (count block d byte : ℕ) (old : Bytes) (s : Fs)
      → d < total_blocks
      → 0 < count
      → byte + count < block_size
      → byte + count ≤ n.file_size
      → read_loop (suc (suc fuel)) n count block d byte 0 old s
        ≡ ok (count, memcpy old 0 (s.disk d) byte count) s
  unfolding read_block
  read_loop-step fuel n count block d byte old s inside some_bytes room fits =
      let out = memcpy old 0 (s.disk d) byte count in
      let rest : count - 0 ≡ count = omega arith in
      let all : 0 + count ≡ count = omega arith in
      let enough : ltb (min block_size n.file_size - byte) count ≡ false = ground arith in
      let same : ltb count count ≡ false = ground arith in
      unfold read_loop in
      rw (lt→ltb 0 count some_bytes, lt→ltb d total_blocks inside, rest, enough, all, same)
        (elim (Bool-cases (leb n.file_size count)) [ inl e ↦ rw e | inr e ↦ rw e ])

  pub sac_read-result :
      (fd : ℕ) (old : Bytes) (count offset : ℕ) (n : Node) (node_block d : ℕ) (s : Fs)
      → read_node fd s ≡ ok (n, node_block) s
      → n.state ≡ 1
      → n.indirect_pointer_block 0 ≢ 0
      → get_data_block_from_node n (offset / block_size) s ≡ ok d s
      → d < total_blocks
      → 0 < count
      → offset % block_size + count < block_size
      → offset + count ≤ n.file_size
      → n.file_size < int_limit
      → sac_read fd old count offset s
        ≡ (unmap_and_destroy_node n node_block
              >> pure (Status.pos count, memcpy old 0 (s.disk d) (offset % block_size) count))
            s
  unfolding sac_read
  sac_read-result fd old count offset n node_block d s node is_file used at inside some_bytes room
        fits limit =
      let rounds : count + 1 ≡ suc (suc (count - 1)) = omega arith in
      let file : (n.state == 1) ≡ true = rw is_file refl in
      let small : leb int_limit offset ≡ false = ground arith in
      let before_end : int_lt offset n.file_size ≡ true = ground arith in
      let no_cut : ltb n.file_size ((count + offset) % sum_limit) ≡ false =
        ltb_mod n.file_size (count + offset) sum_limit (omega arith) in
      rw (
        node,
        file,
        ne→== (n.indirect_pointer_block 0) 0 used,
        before_end,
        small,
        at,
        no_cut,
        rounds,
        read_loop-step (count - 1) n count (offset / block_size) d (offset % block_size) old s
            inside some_bytes room (omega arith),
      )
