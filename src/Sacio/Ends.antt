-- ===== src/Sacio/Ends.antt =====
-- Termination for the loops that write, read and shorten a file (sac-fs/src/sacio.c).
pub mod Operations
use linuse_fs.Base.{
  ℕ, zero, suc, ◌+◌, ◌-◌, ◌*◌, ◌/◌, ◌%◌, ◌^◌, ◌<◌, ◌≤◌, ◌≡◌, Bool, true, false, ◌&&◌, ◌||◌, not,
  List, inl, inr, lt→ltb, Bool-cases, arith, ltb, leb, ◌==◌, if◌then◌else◌,
}
use linuse_fs.Memory.{Bytes}
use linuse_fs.Platform.{Platform}
use linuse_fs.Disk.{Fs, Cmd, pure, and_then, block_size, min}
use linuse_fs.Disk.Ends.{Ends, Post, Post-and_then, ends}
use linuse_fs.Node.{Node, delete_last_data_block}
use linuse_fs.Node.Ends.{
  unmap_and_destroy_node-Ends, free_block-Ends, create_node-Ends, get_free_node_block-Ends,
  block_to_node-Ends, read_node-Ends, delete_node-Ends, add_data_block_to_node-Ends,
  get_data_block_from_node-Ends, delete_last_data_block-Post,
}
use linuse_fs.Status.{Status}
use linuse_fs.Directory.Entry.{get_next_write_position}
use linuse_fs.Directory.Ends.{iterate_pointers_blocks-Ends}
use linuse_fs.Directory.Ends.Update.{
  get_entry-Ends, exists_entry-Ends, search_path-Ends, get_new_dir_name_from_path-Ends,
  get_folder_path_from_file_path-Ends, get_file_name_from_file_path-Ends, add_directory_entry-Ends,
  delete_directory_entry-Ends, create_dir_node_and_add_entry-Ends,
}
use linuse_fs.Sacio.File.{
  create_file_node, create_and_save_file_node, sac_open, free_slots, free_file_blocks, sac_remove,
  sac_stat, sac_close,
}
use linuse_fs.Sacio.Tree.{sac_mkdir, sac_readdir, sac_rename}
use linuse_fs.Sacio.Data.{
  write_bytes, fill_loop, write_loop, sac_write, read_loop, sac_read, shrink_step, shrink_loop,
  sac_truncate, int_limit, int_lt, biased, sum_limit,
}

write_bytes-Ends :
    (block at : ℕ) (src : Bytes) (from n : ℕ) (s : Fs) → Ends (write_bytes block at src from n s)
unfolding write_bytes
write_bytes-Ends block at src from n s = search ends

module _ ⦃p : Platform⦄ where
  -- A round writes a byte at least: the last block has room, and the gap reaches beyond it.
  fill_loop-Ends :
      (fuel : ℕ) (node : Node) (offset_left : ℕ) (s : Fs)
      → offset_left < fuel
      → Ends (fill_loop fuel node offset_left s)
  unfolding fill_loop get_next_write_position
  fill_loop-Ends zero node offset_left s enough = absurd (omega arith)
  fill_loop-Ends (suc fuel) node offset_left s enough =
      let nulls = min offset_left block_size - node.file_size % block_size in
      let next : (node' : Node) (s' : Fs)
          → ltb node.file_size offset_left ≡ true
          → Ends (fill_loop fuel node' (offset_left - nulls) s') =
        λ node' s' more.
          let here : offset_left - nulls < fuel = ground arith in
          fill_loop-Ends fuel node' (offset_left - nulls) s' here in
      search (ends, get_data_block_from_node-Ends, write_bytes-Ends, add_data_block_to_node-Ends)
        depth 12

  -- A round writes a byte at least, since the block has room behind `byte`.
  write_loop-Ends :
      (fuel : ℕ) (buffer : Bytes) (count offset original : ℕ) (node : Node)
      (block byte written in_block : ℕ) (s : Fs)
      → byte < block_size
      → 0 < fuel
      → count < written + fuel
      → Ends (write_loop fuel buffer count offset original node block byte written in_block s)
  unfolding write_loop
  write_loop-Ends zero buffer count offset original node block byte written in_block s inside
        some_left enough =
      absurd (omega arith)
  write_loop-Ends (suc fuel) buffer count offset original node block byte written in_block s inside
        some_left enough =
      let available = block_size - byte in
      let n = if ltb available (count - written) then available else count - written in
      let written' = written + n in
      let full = n == available && leb written' count in
      let next : (node' : Node) (s' : Fs)
          → ltb written count ≡ true
          → Ends (
              write_loop fuel buffer count offset original node' (if full then block + 1 else block)
                (if full then 0 else byte) written' (if full then 0 else in_block + n) s') =
        λ node' s' more.
          let room : (if full then 0 else byte) < block_size = ground arith in
          let here : count < written' + fuel = ground arith in
          write_loop-Ends fuel buffer count offset original node' _ _ written' _ s' room
            (ground arith) here in
      search (ends, get_data_block_from_node-Ends, write_bytes-Ends, add_data_block_to_node-Ends)
        depth 12

  -- A write ends, for every count and offset.
  pub sac_write-Ends :
      (fd : ℕ) (buffer : Bytes) (count offset : ℕ) (s : Fs)
      → Ends (sac_write fd buffer count offset s)
  unfolding sac_write
  sac_write-Ends fd buffer count offset s =
      let fill : (node : Node) (s' : Fs) → Ends (fill_loop (offset + 1) node offset s') =
        λ node s'. fill_loop-Ends (offset + 1) node offset s' (omega arith) in
      let write : (node : Node) (s' : Fs)
          → Ends (
              write_loop (count + 1) buffer count offset node.file_size node (offset / block_size)
                (offset % block_size) 0 0 s') =
        λ node s'.
          write_loop-Ends (count + 1) buffer count offset node.file_size node _ _ 0 0 s'
            (omega arith) (omega arith) (omega arith) in
      search (ends, read_node-Ends, add_data_block_to_node-Ends, unmap_and_destroy_node-Ends) depth
        12

  -- A round reads a byte at least, since the block has bytes of the file behind `byte`.
  read_loop-Ends :
      (fuel : ℕ) (node : Node) (count block data_block byte done : ℕ) (buffer : Bytes) (s : Fs)
      → byte < min block_size node.file_size
      → 0 < fuel
      → count < done + fuel
      → Ends (read_loop fuel node count block data_block byte done buffer s)
  unfolding read_loop
  read_loop-Ends zero node count block data_block byte done buffer s inside some_left enough =
      absurd (omega arith)
  read_loop-Ends (suc fuel) node count block data_block byte done buffer s inside some_left enough =
      let room = min block_size node.file_size - byte in
      let n = if ltb room (count - done) then room else count - done in
      let next : (block' data_block' byte' : ℕ) (buffer' : Bytes) (s' : Fs)
          → byte' < min block_size node.file_size
          → ltb done count ≡ true
          → Ends (read_loop fuel node count block' data_block' byte' (done + n) buffer' s') =
        λ block' data_block' byte' buffer' s' inside' more.
          let here : count < done + n + fuel = ground arith in
          read_loop-Ends fuel node count block' data_block' byte' (done + n) buffer' s' inside'
            (ground arith) here in
      let front : 0 < min block_size node.file_size = omega arith in
      search (ends, get_data_block_from_node-Ends) depth 12

  -- A read ends, for every count and offset.
  pub sac_read-Ends :
      (fd : ℕ) (buffer : Bytes) (count offset : ℕ) (s : Fs)
      → Ends (sac_read fd buffer count offset s)
  unfolding sac_read
  sac_read-Ends fd buffer count offset s =
      let read : (node : Node) (count' block data_block : ℕ) (s' : Fs)
          → not (int_lt offset node.file_size) ≡ false
          → leb int_limit offset ≡ false
          → Ends (
              read_loop (count' + 1) node count' block data_block (offset % block_size) 0 buffer
                s') =
        λ node count' block data_block s' before small.
          let inside : offset % block_size < min block_size node.file_size = ground arith in
          read_loop-Ends (count' + 1) node count' block data_block _ 0 buffer s' inside
            (omega arith) (omega arith) in
      search (ends, read_node-Ends, get_data_block_from_node-Ends, unmap_and_destroy_node-Ends)
        depth 12

  -- A round of a truncation to a length that is not negative makes the file smaller.
  shrink_step-Post :
      (node : Node) (length : ℕ) (s : Fs)
      → length < int_limit
      → (int_lt length node.file_size && int_lt 0 node.file_size) ≡ true
      → Post (λ node'. node'.file_size < node.file_size) (shrink_step node length s)
  unfolding shrink_step
  shrink_step-Post node length s small more =
      let surplus = biased node.file_size - biased length in
      let some_size : 0 < node.file_size = ground arith in
      let some_surplus : 0 < surplus = ground arith in
      elim (Bool-cases (leb int_limit surplus)) [
        | inl h ↦ rw h tt
        | inr h ↦ elim (Bool-cases (leb block_size surplus || length == 0)) [
          | inl e ↦ rw (h, e) (delete_last_data_block-Post node s some_size)
          | inr e ↦
              rw (h, e, lt→ltb length int_limit small) (omega (arith, some_size, some_surplus))
        ]
      ]

  pub shrink_loop-Ends :
      (fuel : ℕ) (node : Node) (length : ℕ) (s : Fs)
      → length < int_limit
      → node.file_size < fuel
      → Ends (shrink_loop fuel node length s)
  unfolding shrink_loop
  shrink_loop-Ends zero node length s small enough = absurd (omega arith)
  shrink_loop-Ends (suc fuel) node length s small enough =
      elim (Bool-cases (int_lt length node.file_size && int_lt 0 node.file_size)) [
        | inl more ↦ rw more (
            Post-and_then (λ node'. node'.file_size < node.file_size) (λ _. Unit {0})
              (shrink_step node length s) _ (shrink_step-Post node length s small more)
              λ node' s' less. shrink_loop-Ends fuel node' length s' small (omega arith))
        | inr done ↦ rw done tt
      ]
