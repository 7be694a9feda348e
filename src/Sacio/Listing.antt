-- ===== src/Sacio/Listing.antt =====
-- sac-fs/src/sacio.c: the listing of a directory, against the tree of directories on the disk.
use linuse_fs.Base.{
  eq→==, ℕ, suc, ◌*◌, ◌/◌, ◌≡◌, ◌≢◌, refl, ap, true, some, List, [], ◌∷◌, arith, length, All, ◌==◌,
}
use linuse_fs.Platform.{Platform, slash}
use linuse_fs.Disk.{Fs, ok, dir_entry_size}
use linuse_fs.Node.{Node}
use linuse_fs.Directory.Path.{is_valid_path}
use linuse_fs.Directory.Listed.{collected, iterate_pointers_blocks-collecting}
use linuse_fs.Directory.Tree.{
  Directory, Directories, HoldsTree, read_node-HoldsDirectory, unmap_and_destroy_node-stored_node,
  stored_node,
}
use linuse_fs.Directory.Walk.{
  resolve, search_path-resolve, number_of-some, OnlyRead, OnlyRead-trans, OnlyRead-visited,
}
use linuse_fs.Sacio.Tree.{sac_readdir}

-- The names of entries, in their order.
abbrev pub names : List (ℕ × List ℕ) → List (List ℕ)
names [] = []
names ((num, name) ∷ es) = name ∷ names es

collected-names : (es : List (ℕ × List ℕ)) → collected (λ e. e.name) es ≡ names es
collected-names [] = refl
collected-names ((num, name) ∷ es) = ap (λ l. name ∷ l) (collected-names es)

length-names : (es : List (ℕ × List ℕ)) → length (names es) ≡ length es
length-names [] = refl
length-names (e ∷ es) = ap suc (length-names es)

module _ ⦃p : Platform⦄ where
  -- The path is valid, with components, as the library splits it, that are not empty, and leads
  -- to a directory of the tree that the disk holds, in which each directory has fewer than 32
  -- entries in one data block. Then `sac_readdir` gives the names of the directory's entries in
  -- their order, and the tree, the bitmap and the blocks behind the node table stay as they
  -- were.
  pub sac_readdir-names :
      (path : List ℕ) (s : Fs) (dirs : Directories) (num : ℕ) (d : Directory)
      → is_valid_path path ≡ true
      → All (λ c. c ≢ []) (p.string_split path slash)
      → HoldsTree s dirs
      → resolve dirs (p.string_split path slash) 0 ≡ some (some num)
      → dirs num ≡ some d
      → (t : Fs) × (sac_readdir path s ≡ ok (some (names d.entries)) t) × OnlyRead dirs s t
  unfolding sac_readdir
  sac_readdir-names path s dirs num d valid named tree at here =
      let (e, t, searched, number, read) =
        search_path-resolve path s dirs (some num) named tree at in
      let (found, same) = number_of-some e num number in
      let holds = read.tree num d here in
      let (last, listed) =
        iterate_pointers_blocks-collecting (λ e. e.name) t holds.node d.entries [] holds.small in
      let directory : (holds.node.state == 2) ≡ true = rw holds.small.state refl in
      let count : (length (names d.entries) == holds.node.file_size / dir_entry_size) ≡ true =
        size_fits holds.node d.entries holds.small.size in
      (
        stored_node t num holds.node,
        rw
            (
              valid,
              searched,
              same,
              read_node-HoldsDirectory t num d holds,
              found,
              directory,
              listed,
              collected-names d.entries,
              count,
              unmap_and_destroy_node-stored_node t num holds.node holds.inside,
            )
            refl,
        OnlyRead-trans dirs s t (stored_node t num holds.node) read
            (OnlyRead-visited t dirs num d read.tree here holds),
      )
    where
      size_fits :
          (node : Node) (es : List (ℕ × List ℕ))
          → node.file_size ≡ 128 * length es
          → (length (names es) == node.file_size / dir_entry_size) ≡ true
      size_fits node es size = eq→== _ _ (omega (arith, size, length-names es))
