-- ===== src/Sacio/Contents.antt =====
-- sac-fs/src/sacio.c: bytes that are written to a file and read back.
use linuse_fs.Base.{ℕ, ◌+◌, ◌/◌, ◌%◌, ◌≤◌, ◌<◌, ◌≡◌, ◌≢◌, ◌∙◌, List, arith, ne→==, ==-refl}
use linuse_fs.Memory.{Bytes, memcpy}
use linuse_fs.Platform.{Platform}
use linuse_fs.Disk.{total_blocks, block_size, Fs, ok}
use linuse_fs.Node.{
  Node, get_block_num_from_node_num, slot_value, get_data_block_from_node, read_node,
}
use linuse_fs.Node.Slots.{get_data_block_from_node-slot_value}
use linuse_fs.Node.Blocks.{IsInRange, HasName, SameNode-IsInRange, read_node-unmap_and_destroy_node}
use linuse_fs.Status.{Status}
use linuse_fs.Sacio.Data.{sac_write, sac_read, int_limit}
use linuse_fs.Sacio.Loops.{written, memcpy-memcpy, sac_write-written, sac_read-result}

-- The pointers block of a file, and its data block, for an offset.
abbrev pub pointers_block : Node → ℕ → ℕ
pointers_block n offset = n.indirect_pointer_block (offset / block_size / 1024)

abbrev pub data_block : Fs → Node → ℕ → ℕ
data_block s n offset = slot_value (s.disk (pointers_block n offset)) (offset / block_size % 1024)

module _ ⦃p : Platform⦄ where
  -- Where a pointer has 4 bytes, one byte or more that are written over bytes of a file, inside
  -- one data block and not up to its end, are what a read at the same place gives, and both
  -- calls return the count asked for. But for the blocks of the node and of the data, the write
  -- leaves the disk as it was. The file's node is as it is read, with fields that fit their
  -- sizes and a name that ends in its 71 bytes; it has its first pointers block and a size
  -- below 2 ^ 31; the blocks of the node, of the pointers and of the data are three different
  -- ones of the disk.
  pub sac_read-sac_write :
      (fd : ℕ) (buffer old : Bytes) (count offset : ℕ) (n : Node) (name : List ℕ) (s : Fs)
      → p.pointer_size ≡ 4
      → read_node fd s ≡ ok (n, get_block_num_from_node_num fd) s
      → IsInRange n
      → HasName n name
      → n.state ≡ 1
      → n.file_size < int_limit
      → n.indirect_pointer_block 0 ≢ 0
      → get_block_num_from_node_num fd < total_blocks
      → pointers_block n offset < total_blocks
      → data_block s n offset < total_blocks
      → pointers_block n offset ≢ get_block_num_from_node_num fd
      → data_block s n offset ≢ get_block_num_from_node_num fd
      → pointers_block n offset ≢ data_block s n offset
      → 0 < count
      → offset % block_size + count < block_size
      → offset + count ≤ n.file_size
      → (t u : Fs) × (out : Bytes) × (sac_write fd buffer count offset s ≡ ok count t)
        × (sac_read fd old count offset t ≡ ok (Status.pos count, out) u)
        × ((i : ℕ) → i < count → out i ≡ buffer i)
        × ((b : ℕ)
            → b ≢ get_block_num_from_node_num fd
            → b ≢ data_block s n offset
            → t.disk b ≡ s.disk b)
  sac_read-sac_write fd buffer old count offset n name s size node range has_name is_file limit used
        node_inside pointers_inside data_inside pointers_apart data_apart blocks_apart some_bytes
        room fits =
      let node_block = get_block_num_from_node_num fd in
      let byte = offset % block_size in
      let p0 = pointers_block n offset in
      let d = data_block s n offset in
      let slot : offset / block_size / 1024 < 1000 = omega arith in
      let w : Fs = written s d byte buffer count in
      let at : get_data_block_from_node n (offset / block_size) s ≡ ok d s =
        get_data_block_from_node-slot_value n (offset / block_size) s size slot pointers_inside in
      let (m, t, closed, again, same, others) =
        read_node-unmap_and_destroy_node fd n name w node_inside range has_name in
      let same_pointers : pointers_block m offset ≡ p0 =
        same.pointers (offset / block_size / 1024) slot in
      let kept : t.disk p0 ≡ s.disk p0 = others p0 pointers_apart ∙ rw (ne→== p0 d blocks_apart) in
      let changed : t.disk d ≡ memcpy (s.disk d) byte buffer 0 count =
        others d data_apart ∙ rw (==-refl d) in
      let at' : get_data_block_from_node m (offset / block_size) t ≡ ok d t =
        get_data_block_from_node-slot_value m (offset / block_size) t size slot
          (rw same_pointers pointers_inside)
        ∙ rw (same_pointers, kept) in
      let (m', u, closed', again', same', others') =
        read_node-unmap_and_destroy_node fd m name t node_inside (SameNode-IsInRange m n same range)
          (same.name ∙ has_name) in
      (
        t,
        u,
        memcpy old 0 (t.disk d) byte count,
        sac_write-written fd buffer count offset n node_block d s node used at data_inside
              some_bytes room fits limit
            ∙ rw closed,
        sac_read-result fd old count offset m node_block d t again (same.state ∙ is_file)
              (rw (same.pointers 0 (omega arith)) used) at' data_inside some_bytes room
              (rw same.file_size fits) (rw same.file_size limit)
            ∙ rw closed',
        λ i hi. rw changed (memcpy-memcpy old (s.disk d) byte buffer count i hi),
        λ b other_node other_data. others b other_node ∙ rw (ne→== b d other_data),
      )
