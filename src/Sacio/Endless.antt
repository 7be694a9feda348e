-- ===== src/Sacio/Endless.antt =====
-- sac-fs/src/sacio.c: a truncation that never ends.
use linuse_fs.Base.{
  ℕ, zero, suc, ◌+◌, ◌-◌, ◌%◌, ◌^◌, ◌<◌, ◌≡◌, refl, true, false, List, arith, ltb, leb, ◌&&◌, ◌||◌,
  ◌==◌,
}
use linuse_fs.Platform.{Platform}
use linuse_fs.Disk.{Fs, ok, out_of_fuel, block_size}
use linuse_fs.Node.{Node, read_node}
use linuse_fs.Directory.Entry.{DirEntry, is_valid_entry}
use linuse_fs.Directory.Path.{is_valid_path, search_path}
use linuse_fs.Status.{Status}
use linuse_fs.Sacio.Data.{shrink_step, shrink_loop, sac_truncate, clamp, int_lt, biased, int_limit}

module _ ⦃p : Platform⦄ where
  shrink_loop-endless :
      (fuel : ℕ) (node : Node) (length : ℕ) (s : Fs)
      → length < 2 ^ 32
      → 0 < node.file_size
      → node.file_size + 2 ^ 32 < length + block_size
      → shrink_loop fuel node length s ≡ out_of_fuel
  unfolding shrink_loop shrink_step
  shrink_loop-endless zero node length s low some_bytes near = refl
  shrink_loop-endless (suc fuel) node length s low some_bytes near =
      let surplus = biased node.file_size - biased length in
      let more : (int_lt length node.file_size && int_lt 0 node.file_size) ≡ true = ground arith in
      let no_overflow : leb int_limit surplus ≡ false = ground arith in
      let no_block : (leb block_size surplus || length == 0) ≡ false = ground arith in
      let negative : ltb length int_limit ≡ false = ground arith in
      rw (more, no_overflow, no_block, negative)
        (shrink_loop-endless fuel node length s low some_bytes near)

  -- A path leads to a file that is not empty, and whose size and the distance of the length from
  -- 2 ^ 32, where the length's int is 0 again, are together less than a block. Then the loop of
  -- `sac_truncate` has used up its rounds however many there are: the truncation never ends.
  pub sac_truncate-endless :
      (path : List ℕ) (length : ℕ) (e : DirEntry) (node : Node) (block : ℕ) (s t : Fs)
      → is_valid_path path ≡ true
      → search_path path s ≡ ok e t
      → is_valid_entry e ≡ true
      → read_node e.node_num t ≡ ok (node, block) t
      → node.state ≡ 1
      → length < 2 ^ 32
      → 0 < node.file_size
      → node.file_size + 2 ^ 32 < length + block_size
      → (sac_truncate path (Status.pos length) s ≡ out_of_fuel)
        × ((rounds : ℕ) → shrink_loop rounds node (length % 2 ^ 32) t ≡ out_of_fuel)
  unfolding sac_truncate clamp
  sac_truncate-endless path length e node block s t valid searched found read is_file low some_bytes
        near =
      let same : length % 2 ^ 32 ≡ length = omega arith in
      let file : (node.state == 1) ≡ true = rw is_file refl in
      let shorter : int_lt node.file_size length ≡ false = ground arith in
      let endless : (rounds : ℕ) → shrink_loop rounds node length t ≡ out_of_fuel =
        λ rounds. shrink_loop-endless rounds node length t low some_bytes near in
      (
        rw (same, valid, searched, found, read, file, shorter, endless (node.file_size + 1)) refl,
        λ rounds. rw same (endless rounds),
      )
