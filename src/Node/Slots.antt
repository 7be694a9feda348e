-- ===== src/Node/Slots.antt =====
-- sac-fs/src/node.c: the elements of a pointers block, as they are written and read.
use linuse_fs.Base.{
  false, ℕ, ◌+◌, ◌*◌, ◌/◌, ◌%◌, ◌≤◌, ◌<◌, ◌≡◌, ◌≢◌, ◌∙◌, arith, ltb, lt→ltb, ne→==, ==-refl,
}
use linuse_fs.Memory.{memcpy, load, object_bytes}
use linuse_fs.Memory.Laws.{load-memcpy, load-memcpy_ne}
use linuse_fs.Platform.{Platform, BitLaws}
use linuse_fs.Disk.{
  block_size, total_blocks, node_table_blocks, node_table_initial_block, Fs, ok, update_block,
  read_block, write_block,
}
use linuse_fs.Bitmap.{get_free_data_block}
use linuse_fs.Bitmap.Alloc.{IsFirstFree, IsMarked, get_free_block_lem}
use linuse_fs.Node.{
  Node, pointer_at, slot_value, copy_slot, copy_out, get_data_block_from_node,
  create_data_block_in_pointer_block,
}

module _ ⦃p : Platform⦄ where
  -- Where a pointer has 4 bytes, a lookup reads the element of its block number.
  pub get_data_block_from_node-slot_value :
      (node : Node) (block : ℕ) (s : Fs)
      → p.pointer_size ≡ 4
      → block / 1024 < 1000
      → node.indirect_pointer_block (block / 1024) < total_blocks
      → get_data_block_from_node node block s
        ≡ ok (slot_value (s.disk (node.indirect_pointer_block (block / 1024))) (block % 1024)) s
  unfolding get_data_block_from_node pointer_at read_block copy_slot copy_out slot_value load memcpy
  get_data_block_from_node-slot_value node block s size slot inside =
      let in_block : ltb block_size (block % 1024 * 4 + 4) ≡ false = ground arith in
      rw (lt→ltb (block / 1024) 1000 slot, lt→ltb _ total_blocks inside, size, in_block)

  -- Given the laws of the bit arrays and pointers of 4 bytes: a data block that is made for a
  -- place of a node, whose pointers block is on the disk, is what a lookup at that place gives:
  -- the first free data block of the disk, which is marked as used and lies in the bitmap. The
  -- other elements of the pointers block, and the other blocks of the disk, are as they were.
  pub get_data_block_from_node-create_data_block_in_pointer_block :
      (laws : BitLaws p) (node : Node) (pos position i : ℕ) (s : Fs)
      → p.pointer_size ≡ 4
      → pos < 1000
      → position < 1024
      → node.indirect_pointer_block pos < total_blocks
      → IsFirstFree s.bitmap (node_table_initial_block + node_table_blocks) i
      → i < total_blocks
      → total_blocks ≤ 8 * s.bitmap.size
      → (t : Fs) × (create_data_block_in_pointer_block node pos position s ≡ ok i t)
        × (get_data_block_from_node node (1024 * pos + position) t ≡ ok i t)
        × IsMarked s.bitmap i t.bitmap
        × ((k : ℕ)
            → k ≢ position
            → slot_value (t.disk (node.indirect_pointer_block pos)) k
              ≡ slot_value (s.disk (node.indirect_pointer_block pos)) k)
        × ((b : ℕ) → b ≢ node.indirect_pointer_block pos → t.disk b ≡ s.disk b)
  unfolding create_data_block_in_pointer_block get_free_data_block pointer_at write_block slot_value
      memcpy
  get_data_block_from_node-create_data_block_in_pointer_block laws node pos position i s size hp hq
        inside first hi k =
      let (b', taken, marked) =
        get_free_block_lem laws (node_table_initial_block + node_table_blocks) total_blocks i s
          first hi k in
      let block = node.indirect_pointer_block pos in
      let t : Fs = record {
        disk =
            update_block s.disk block (memcpy (s.disk block) (position * 4) (object_bytes i) 0 4);
        bitmap = b';
      } in
      let at : (1024 * pos + position) / 1024 ≡ pos = omega arith in
      let slot : (1024 * pos + position) % 1024 ≡ position = omega arith in
      (
        t,
        rw (taken, lt→ltb pos 1000 hp, lt→ltb block total_blocks inside),
        get_data_block_from_node-slot_value node (1024 * pos + position) t size (omega arith)
              (rw at inside)
            ∙ rw (at, slot, ==-refl block, slot_value)
                (rw (load-memcpy 4 (s.disk block) (position * 4) i (omega arith))),
        marked,
        λ k ne.
            rw (==-refl block, slot_value)
              (load-memcpy_ne 4 (s.disk block) (position * 4) (object_bytes i) 0 4 (k * 4)
                (omega arith)),
        λ b ne. rw (ne→== b block ne),
      )
