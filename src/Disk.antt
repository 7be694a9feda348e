-- ===== src/Disk.antt =====
-- sac-fs/src/disk.h and block.c: the geometry of the disk, and access to its blocks. The disk file
-- is mapped with MAP_SHARED, so all mappings of a block show the same bytes: a `t_block` is its
-- block number here, and reading or writing its bytes reads or writes the disk at once.
pub mod Ends
pub mod Keeps
pub mod Runs
use linuse_fs.Base.{ℕ, ◌+◌, ◌*◌, ◌/◌, ◌%◌, ltb, ◌==◌, if◌then◌else◌, Option, none, some}
use linuse_fs.Memory.{Bytes}
use linuse_fs.Platform.{BitArray}

abbrev pub bitmap_initial_block : ℕ
bitmap_initial_block = 1

abbrev pub block_size : ℕ
block_size = 4096

abbrev pub total_blocks : ℕ
total_blocks = 3000

abbrev pub node_table_blocks : ℕ
node_table_blocks = 32

-- DISK_SIZE / (BLOCK_SIZE * 8), with the macros put in as the preprocessor does.
abbrev pub bitmap_size : ℕ
bitmap_size = block_size * total_blocks / (block_size * 8)

abbrev pub bitmap_blocks : ℕ
bitmap_blocks =
    if bitmap_size % block_size == 0 then bitmap_size / block_size else bitmap_size / block_size + 1

abbrev pub node_table_initial_block : ℕ
node_table_initial_block = bitmap_initial_block + bitmap_blocks

abbrev pub dir_entry_size : ℕ
dir_entry_size = 128

-- min of utils.c
abbrev pub min : ℕ → ℕ → ℕ
min a b = if ltb b a then b else a

-- The globals `disk_fd` (as the contents of the file) and `bitmap`.
pub record Fs : Type 0 where
  pub disk : ℕ → Bytes
  pub bitmap : BitArray

-- How a call ends. `exited` is a call of exit(); `fault` is an access outside an object, a mapped
-- block or the disk file; `out_of_fuel` is no behaviour of the code.
pub data Run (A : Type 0) : Type 0 where
  ok : A → Fs → Run A
  exited : Fs → Run A
  fault : Run A
  out_of_fuel : Run A

abbrev pub Cmd : Type 0 → Type 0
Cmd A = Fs → Run A

abbrev pub pure : {A : Type 0} → A → Cmd A
pure = ok

abbrev pub exit : {A : Type 0} → Cmd A
exit s = exited s

abbrev pub crash : {A : Type 0} → Cmd A
crash s = fault

abbrev pub and_then : {A B : Type 0} → Run A → (A → Cmd B) → Run B
and_then (ok a s) k = k a s
and_then (exited s) k = exited s
and_then fault k = fault
and_then out_of_fuel k = out_of_fuel

infixl 5 ◌>>=◌ ◌>>◌
abbrev pub ◌>>=◌ : {A B : Type 0} → Cmd A → (A → Cmd B) → Cmd B
m >>= k = λ s. and_then (m s) k

abbrev pub ◌>>◌ : {B : Type 0} → Cmd (Unit {0}) → Cmd B → Cmd B
m >> k = m >>= λ _. k

-- A pure computation that may leave its objects.
unfoldable pub lift : {A : Type 0} → Option A → Cmd A
lift none = crash
lift (some a) = pure a

-- The bytes of a mapped block. A block past the end of the file cannot be touched (SIGBUS).
unfoldable pub read_block : ℕ → Cmd Bytes
read_block b s = if ltb b total_blocks then ok (s.disk b) s else fault

abbrev pub update_block : (ℕ → Bytes) → ℕ → Bytes → ℕ → Bytes
update_block d b c i = if i == b then c else d i

-- A write through a mapped block, which turns its bytes into `f` of them.
unfoldable pub write_block : ℕ → (Bytes → Bytes) → Cmd (Unit {0})
write_block b f s =
    if ltb b total_blocks
    then ok tt (record s { disk = update_block s.disk b (f (s.disk b)) })
    else fault
