-- ===== src/Format.antt =====
-- The disk laid out anew, and the bitmap loaded and stored: `format_disk` of sac-fs/src/disk.c, the
-- header and bitmap functions of utils.c, and `load_bitmap` and `unmap_bitmap` of sac.c.
pub mod Stored
use linuse_fs.Base.{ℕ, zero, suc, ◌+◌, ◌%◌, ◌&&◌, [], ◌∷◌, ltb, ◌==◌, if◌then◌else◌}
use linuse_fs.Memory.{Bytes, memcpy, object_bytes, load, string_bytes}
use linuse_fs.Platform.{BitArray, Platform}
use linuse_fs.Disk.{
  block_size, node_table_initial_block, bitmap_initial_block, bitmap_size, bitmap_blocks, ok, Cmd,
  pure, exit, crash, ◌>>=◌, ◌>>◌, read_block, write_block,
}
use linuse_fs.Node.{Node, node_to_block, create_node}

-- `t_header`, without its padding.
pub record Header : Type 0 where
  pub identifier : Bytes
  pub version : ℕ
  pub bitmap_initial_block : ℕ
  pub bitmap_size : ℕ

unfoldable pub create_header : Bytes → ℕ → ℕ → ℕ → Header
create_header identifier version initial_block size = record {
  identifier = memcpy (λ _. 0) 0 identifier 0 3;
  version = version;
  bitmap_initial_block = initial_block;
  bitmap_size = size;
}

-- IDENTIFIER is "SAC" and VERSION is 1.
unfoldable pub create_default_header : Header
unfolding create_header
create_default_header =
    create_header (string_bytes (b'S' ∷ b'A' ∷ b'C' ∷ [])) 1 bitmap_initial_block bitmap_size

unfoldable pub header_to_block : Header → Bytes → Bytes
header_to_block header b0 =
    let b1 = memcpy b0 0 header.identifier 0 3 in
    let b2 = memcpy b1 3 (object_bytes header.version) 0 4 in
    let b3 = memcpy b2 7 (object_bytes header.bitmap_initial_block) 0 4 in
    memcpy b3 11 (object_bytes header.bitmap_size) 0 4

unfoldable pub block_to_header : Bytes → Header
unfolding create_header
block_to_header b = create_header (memcpy (λ _. 0) 0 b 0 3) (load 4 b 3) (load 4 b 7) (load 4 b 11)

-- The next value of `block_num` in the loops over the bytes of the bitmap.
unfoldable pub next_block_num : ℕ → ℕ → ℕ
next_block_num i block_num =
    if i % block_size == 1 && (i + 1) % block_size == 0 then block_num + 1 else block_num

unfoldable pub store_loop : ℕ → BitArray → ℕ → ℕ → Cmd (Unit {0})
unfolding next_block_num
store_loop zero b i block_num = pure tt
store_loop (suc left) b i block_num =
    if ltb i block_size
    then (do
      write_block (bitmap_initial_block + block_num) (λ bytes. memcpy bytes i b.bitarray i 1)
      store_loop left b (i + 1) (next_block_num i block_num))
    else crash

unfoldable pub bitmap_to_block : BitArray → Cmd (Unit {0})
unfolding store_loop
bitmap_to_block b = store_loop b.size b 0 0

unfoldable pub load_loop : ℕ → Bytes → ℕ → ℕ → Cmd Bytes
unfolding next_block_num
load_loop zero bitarray i block_num = pure bitarray
load_loop (suc left) bitarray i block_num =
    if ltb i block_size
    then (do
      bytes ← read_block (bitmap_initial_block + block_num)
      load_loop left (memcpy bitarray i bytes i 1) (i + 1) (next_block_num i block_num))
    else crash

module _ ⦃p : Platform⦄ where
  unfoldable pub block_to_bitmap : Cmd BitArray
  unfolding load_loop
  block_to_bitmap = do
    bitarray ← load_loop bitmap_size p.garbage 0 0
    pure (record { bitarray = bitarray; size = bitmap_size })

  unfoldable pub load_bitmap : Cmd (Unit {0})
  unfolding block_to_bitmap
  load_bitmap = do b ← block_to_bitmap; λ s. ok tt (record s { bitmap = b })

  unfoldable pub unmap_bitmap : Cmd (Unit {0})
  unfolding bitmap_to_block
  unmap_bitmap s = bitmap_to_block s.bitmap s

  unfoldable pub set_bits : ℕ → BitArray → ℕ → BitArray
  set_bits zero b i = b
  set_bits (suc left) b i = set_bits left (p.set_bit b (i + 1)) (i + 1)

  unfoldable pub create_default_bitmap : BitArray
  unfolding set_bits
  create_default_bitmap =
      let empty : BitArray = record {
        bitarray = p.string_repeat 0 bitmap_size;
        size = bitmap_size;
      } in
      p.set_bit (set_bits bitmap_blocks (p.set_bit empty 0) 0) (bitmap_blocks + 1)

  unfoldable pub create_root_dir : Cmd Node
  unfolding create_node
  create_root_dir = create_node 2 (b'/' ∷ []) 0 0 p.now p.now (λ _. 0)

  -- What is printed is left out.
  unfoldable pub format_disk : Cmd (Unit {0})
  unfolding create_default_header create_default_bitmap create_root_dir header_to_block
      bitmap_to_block node_to_block
  format_disk = do
    (λ s. ok tt (record s { bitmap = create_default_bitmap }))
    root_dir ← create_root_dir
    write_block 0 (header_to_block create_default_header)
    bitmap_to_block create_default_bitmap
    write_block node_table_initial_block (node_to_block root_dir)
    exit
