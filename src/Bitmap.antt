-- ===== src/Bitmap.antt =====
-- sac-fs/src/bitmap.c: the free-block bitmap. A bit past the end of the bit array is a read or a
-- write outside it.
pub mod Alloc
use linuse_fs.Base.{
  ℕ, zero, suc, ◌+◌, ◌-◌, ◌*◌, ◌/◌, Bool, not, Option, none, some, ltb, leb, if◌then◌else◌,
}
use linuse_fs.Memory.{Bytes}
use linuse_fs.Platform.{BitArray, Platform}
use linuse_fs.Disk.{
  total_blocks, node_table_blocks, node_table_initial_block, ok, exited, fault, Cmd,
}

unfoldable pub init_bitmap : Bytes → Cmd (Unit {0})
init_bitmap bitarray s =
    ok tt (record s { bitmap = record { bitarray = bitarray; size = total_blocks / 8 } })

module _ ⦃p : Platform⦄ where
  unfoldable pub block_is_free : ℕ → Cmd Bool
  block_is_free block_number s =
      if ltb block_number (8 * s.bitmap.size)
      then ok (not (p.test_bit s.bitmap block_number)) s
      else fault

  unfoldable pub free_block : ℕ → Cmd (Unit {0})
  free_block block_number s =
      if ltb block_number (8 * s.bitmap.size)
      then ok tt (record s { bitmap = p.clean_bit s.bitmap block_number })
      else fault

  -- The loop of `_get_free_block`, with as many rounds as bits are left: the first clear bit from
  -- `bit_index` on. `none` is a read past the bit array.
  unfoldable pub scan_free : ℕ → BitArray → ℕ → Option ℕ
  scan_free zero b bit_index = none
  scan_free (suc left) b bit_index =
      let rest = scan_free left b (bit_index + 1) in
      if p.test_bit b bit_index then rest else some bit_index

  unfoldable pub reserve : Option ℕ → ℕ → Cmd ℕ
  reserve none to_block_num s = fault
  reserve (some bit_index) to_block_num s =
      if leb to_block_num bit_index
      then exited s
      else ok bit_index (record s { bitmap = p.set_bit s.bitmap bit_index })

  unfoldable pub get_free_block : ℕ → ℕ → Cmd ℕ
  unfolding scan_free reserve
  get_free_block from_block_num to_block_num s =
      reserve (scan_free (8 * s.bitmap.size - from_block_num) s.bitmap from_block_num) to_block_num
        s

  unfoldable pub get_free_node_block : Cmd ℕ
  unfolding get_free_block
  get_free_node_block =
      get_free_block node_table_initial_block (node_table_initial_block + node_table_blocks)

  unfoldable pub get_free_data_block : Cmd ℕ
  unfolding get_free_block
  get_free_data_block = get_free_block (node_table_initial_block + node_table_blocks) total_blocks
