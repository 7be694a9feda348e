-- ===== src/Sacio/Keeps.antt =====
-- The bitmap under looking up, listing, describing and reading (sac-fs/src/node.c, directory.c and
-- sacio.c).
use linuse_fs.Base.{ℕ, zero, suc, ◌+◌, Bool, List, [], ◌∷◌, ltb}
use linuse_fs.Memory.{Bytes, read_string}
use linuse_fs.Platform.{Platform, BitArray}
use linuse_fs.Disk.{Fs, block_size}
use linuse_fs.Disk.Keeps.{Keeps, Keeps-if, Keeps-crash, keeps}
use linuse_fs.Node.{
  copy_out, Node, pointer_at, create_node, block_to_node, read_node, unmap_and_destroy_node,
  copy_slot, get_data_block_from_node,
}
use linuse_fs.Directory.Entry.{DataPosition, DirEntry, read_directory_entry, Process}
use linuse_fs.Directory.Iterate.{
  bytes_loop, iterate_bytes_in_block, blocks_loop, iterate_blocks, pointers_loop,
  iterate_pointers_blocks, get_entry,
}
use linuse_fs.Directory.Path.{walk, search_path}
use linuse_fs.Sacio.File.{sac_stat}
use linuse_fs.Sacio.Tree.{sac_readdir}
use linuse_fs.Sacio.Data.{read_loop, sac_read}

pub pointer_at-Keeps :
    (b : BitArray → Type 0) (node : Node) (i : ℕ) (s : Fs)
    → b s.bitmap
    → Keeps b (pointer_at node i s)
unfolding pointer_at
pointer_at-Keeps b node i s h = search keeps

pub unmap_and_destroy_node-Keeps :
    (b : BitArray → Type 0) (node : Node) (n : ℕ) (s : Fs)
    → b s.bitmap
    → Keeps b (unmap_and_destroy_node node n s)
unfolding unmap_and_destroy_node
unmap_and_destroy_node-Keeps b node n s h = search keeps

read_directory_entry-Keeps :
    (b : BitArray → Type 0) (c : Bytes) (k : ℕ) (s : Fs)
    → b s.bitmap
    → Keeps b (read_directory_entry c k s)
unfolding read_directory_entry
read_directory_entry-Keeps b c k s h =
    Keeps-if b (ltb k block_size) _ _ s (Keeps-crash b (read_string 71 c (k + 4)) _ s λ name. h) tt

module _ {A : Type 0} (process : Process A) where
  bytes_loop-Keeps :
      (b : BitArray → Type 0) (fuel : ℕ) (c : Bytes) (is_last : Bool) (limit k : ℕ)
      (result : DirEntry) (acc : A) (s : Fs)
      → b s.bitmap
      → Keeps b (bytes_loop process fuel c is_last limit k result acc s)
  unfolding bytes_loop
  bytes_loop-Keeps b zero c is_last limit k result acc s h = tt
  bytes_loop-Keeps b (suc fuel) c is_last limit k result acc s h =
      let next : (r : DirEntry) (a : A) (s' : Fs)
          → b s'.bitmap
          → Keeps b (bytes_loop process fuel c is_last limit (k + 128) r a s') =
        bytes_loop-Keeps b fuel c is_last limit (k + 128) in
      search (keeps, read_directory_entry-Keeps)

  iterate_bytes_in_block-Keeps :
      (b : BitArray → Type 0) (c : Bytes) (is_last : Bool) (position : DataPosition) (acc : A)
      (s : Fs)
      → b s.bitmap
      → Keeps b (iterate_bytes_in_block process c is_last position acc s)
  unfolding iterate_bytes_in_block
  iterate_bytes_in_block-Keeps b c is_last position acc s h = search bytes_loop-Keeps

  blocks_loop-Keeps :
      (b : BitArray → Type 0) (fuel : ℕ) (c : Bytes) (is_last : Bool) (position : DataPosition)
      (j last_block : ℕ) (result : DirEntry) (acc : A) (s : Fs)
      → b s.bitmap
      → Keeps b (blocks_loop process fuel c is_last position j last_block result acc s)
  unfolding blocks_loop
  blocks_loop-Keeps b zero c is_last position j last_block result acc s h = tt
  blocks_loop-Keeps b (suc fuel) c is_last position j last_block result acc s h =
      let next : (last : ℕ) (r : DirEntry) (a : A) (s' : Fs)
          → b s'.bitmap
          → Keeps b (blocks_loop process fuel c is_last position (j + 1) last r a s') =
        blocks_loop-Keeps b fuel c is_last position (j + 1) in
      search (keeps, iterate_bytes_in_block-Keeps)

  iterate_blocks-Keeps :
      (b : BitArray → Type 0) (c : Bytes) (is_last : Bool) (position : DataPosition) (acc : A)
      (s : Fs)
      → b s.bitmap
      → Keeps b (iterate_blocks process c is_last position acc s)
  unfolding iterate_blocks
  iterate_blocks-Keeps b c is_last position acc s h = search blocks_loop-Keeps

  pointers_loop-Keeps :
      (b : BitArray → Type 0) (fuel : ℕ) (node : Node) (position : DataPosition) (i : ℕ)
      (result : DirEntry) (acc : A) (s : Fs)
      → b s.bitmap
      → Keeps b (pointers_loop process fuel node position i result acc s)
  unfolding pointers_loop
  pointers_loop-Keeps b zero node position i result acc s h = tt
  pointers_loop-Keeps b (suc fuel) node position i result acc s h =
      let next : (r : DirEntry) (a : A) (s' : Fs)
          → b s'.bitmap
          → Keeps b (pointers_loop process fuel node position (i + 1) r a s') =
        pointers_loop-Keeps b fuel node position (i + 1) in
      search (keeps, pointer_at-Keeps, iterate_blocks-Keeps) depth 9

  pub iterate_pointers_blocks-Keeps :
      (b : BitArray → Type 0) (node : Node) (acc : A) (s : Fs)
      → b s.bitmap
      → Keeps b (iterate_pointers_blocks process node acc s)
  unfolding iterate_pointers_blocks
  iterate_pointers_blocks-Keeps b node acc s h = search pointers_loop-Keeps

pub get_entry-Keeps :
    (b : BitArray → Type 0) (node : Node) (name : List ℕ) (s : Fs)
    → b s.bitmap
    → Keeps b (get_entry node name s)
unfolding get_entry
get_entry-Keeps b node name s h = search (keeps, iterate_pointers_blocks-Keeps)

module _ ⦃p : Platform⦄ where
  pub create_node-Keeps :
      (b : BitArray → Type 0) (state : ℕ) (name : List ℕ) (parent size created modified : ℕ)
      (pointers : ℕ → ℕ) (s : Fs)
      → b s.bitmap
      → Keeps b (create_node state name parent size created modified pointers s)
  unfolding create_node
  create_node-Keeps b state name parent size created modified pointers s h = search keeps

  pub block_to_node-Keeps :
      (b : BitArray → Type 0) (c : Bytes) (s : Fs) → b s.bitmap → Keeps b (block_to_node c s)
  unfolding block_to_node
  block_to_node-Keeps b c s h =
      Keeps-crash b (read_string 71 c 1) _ s λ name. create_node-Keeps b _ name _ _ _ _ _ s h

  pub read_node-Keeps :
      (b : BitArray → Type 0) (n : ℕ) (s : Fs) → b s.bitmap → Keeps b (read_node n s)
  unfolding read_node
  read_node-Keeps b n s h = search (keeps, block_to_node-Keeps)

  pub copy_slot-Keeps :
      (b : BitArray → Type 0) (c : Bytes) (slot : ℕ) (s : Fs)
      → b s.bitmap
      → Keeps b (copy_slot c slot s)
  unfolding copy_slot copy_out
  copy_slot-Keeps b c slot s h = search keeps

  pub get_data_block_from_node-Keeps :
      (b : BitArray → Type 0) (node : Node) (n : ℕ) (s : Fs)
      → b s.bitmap
      → Keeps b (get_data_block_from_node node n s)
  unfolding get_data_block_from_node
  get_data_block_from_node-Keeps b node n s h = search (keeps, pointer_at-Keeps, copy_slot-Keeps)

  walk-Keeps :
      (b : BitArray → Type 0) (path : List (List ℕ)) (entry : DirEntry) (s : Fs)
      → b s.bitmap
      → Keeps b (walk path entry s)
  unfolding walk
  walk-Keeps b [] entry s h = h
  walk-Keeps b (component ∷ rest) entry s h =
      let next : (e : DirEntry) (s' : Fs) → b s'.bitmap → Keeps b (walk rest e s') =
        walk-Keeps b rest in
      search (keeps, read_node-Keeps, get_entry-Keeps) depth 9

  pub search_path-Keeps :
      (b : BitArray → Type 0) (path : List ℕ) (s : Fs) → b s.bitmap → Keeps b (search_path path s)
  unfolding search_path
  search_path-Keeps b path s h = search walk-Keeps

  read_loop-Keeps :
      (b : BitArray → Type 0) (fuel : ℕ) (node : Node) (count block data_block byte done : ℕ)
      (buffer : Bytes) (s : Fs)
      → b s.bitmap
      → Keeps b (read_loop fuel node count block data_block byte done buffer s)
  unfolding read_loop
  read_loop-Keeps b zero node count block data_block byte done buffer s h = tt
  read_loop-Keeps b (suc fuel) node count block data_block byte done buffer s h =
      let next : (block' data_block' byte' done' : ℕ) (buffer' : Bytes) (s' : Fs)
          → b s'.bitmap
          → Keeps b (read_loop fuel node count block' data_block' byte' done' buffer' s') =
        read_loop-Keeps b fuel node count in
      search (keeps, get_data_block_from_node-Keeps) depth 9

  pub sac_read-Keeps :
      (b : BitArray → Type 0) (fd : ℕ) (buffer : Bytes) (count offset : ℕ) (s : Fs)
      → b s.bitmap
      → Keeps b (sac_read fd buffer count offset s)
  unfolding sac_read
  sac_read-Keeps b fd buffer count offset s h =
      search
        (
          keeps, read_node-Keeps, get_data_block_from_node-Keeps, read_loop-Keeps,
          unmap_and_destroy_node-Keeps,
        )
        depth 14

  pub sac_stat-Keeps :
      (b : BitArray → Type 0) (path : List ℕ) (s : Fs) → b s.bitmap → Keeps b (sac_stat path s)
  unfolding sac_stat
  sac_stat-Keeps b path s h = search (keeps, search_path-Keeps, read_node-Keeps) depth 9

  pub sac_readdir-Keeps :
      (b : BitArray → Type 0) (path : List ℕ) (s : Fs) → b s.bitmap → Keeps b (sac_readdir path s)
  unfolding sac_readdir
  sac_readdir-Keeps b path s h =
      search (keeps, search_path-Keeps, read_node-Keeps, iterate_pointers_blocks-Keeps) depth 14
