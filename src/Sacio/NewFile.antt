-- ===== src/Sacio/NewFile.antt =====
-- sac-fs/src/file.c and sacio.c: a new file, in the tree of directories on the disk.
use linuse_fs.Base.{
  ℕ, ◌+◌, ◌-◌, ◌*◌, ◌^◌, ◌≤◌, ◌<◌, ◌≡◌, ◌≢◌, refl, ap, subst, true, some, none, List, [], ◌∷◌, ◌++◌,
  arith, length, All,
}
use linuse_fs.Package.Copies.{IsString}
use linuse_fs.Platform.{Platform, BitLaws, slash}
use linuse_fs.Disk.{Fs, ok, node_table_blocks, node_table_initial_block}
use linuse_fs.Bitmap.{get_free_node_block}
use linuse_fs.Bitmap.Alloc.{IsFirstFree, IsMarked, get_free_block_lem}
use linuse_fs.Node.{Node, get_block_num_from_node_num, read_node}
use linuse_fs.Node.Blocks.{SameNode}
use linuse_fs.Directory.Path.{is_valid_path}
use linuse_fs.Directory.Block.{lookup}
use linuse_fs.Directory.Tree.{
  Directory, Directories, HoldsTree, read_node-HoldsDirectory, unmap_and_destroy_node-stored_node,
  write_block-stored_node, stored_node, node_block_of,
}
use linuse_fs.Directory.Walk.{resolve, search_path-resolve, number_of-some}
use linuse_fs.Directory.Erased.{AreDisjoint, IsPending-stored_node, set_directory}
use linuse_fs.Directory.Grown.{
  with_child, add_directory_entry-IsPending, HoldsTree-IsPending, IsPending-bitmap,
}
use linuse_fs.Status.{Status}
use linuse_fs.Sacio.File.{create_and_save_file_node, sac_open}
use linuse_fs.Sacio.FileNode.{
  IsPending-other_node, file_node, create_file_node-file_node, read_node-file_node,
}
use linuse_fs.Sacio.Mkdir.{exists_entry-absent}
use linuse_fs.Sacio.Opening.{int_of-below, get_folder_path-last, get_file_name-last}

module _ ⦃p : Platform⦄ where
  -- What holds when a file `num` was made in the directory `parent`.
  pub record IsCreated (s : Fs) (dirs : Directories) (parent num : ℕ) (d : Directory)
      (name : List ℕ) (t : Fs) : Type 0 where
    pub tree : HoldsTree t (set_directory dirs parent (some (with_child d num name)))
    pub marked : IsMarked s.bitmap (get_block_num_from_node_num num) t.bitmap
    pub node : Node
    pub read : read_node num t ≡ ok (node, get_block_num_from_node_num num) t
    pub same : SameNode node (file_node name parent)

  create_and_save_file_node-IsCreated :
      (laws : BitLaws p) (s : Fs) (dirs : Directories) (parent num : ℕ) (d : Directory)
      (name : List ℕ)
      → name ≢ []
      → HoldsTree s dirs
      → AreDisjoint dirs
      → dirs parent ≡ some d
      → dirs num ≡ none
      → lookup name d.entries ≡ none
      → num < node_table_blocks
      → IsFirstFree s.bitmap node_table_initial_block (get_block_num_from_node_num num)
      → node_table_initial_block + node_table_blocks ≤ 8 * s.bitmap.size
      → p.now < 2 ^ 64
      → 0 < length d.entries
      → length d.entries < 31
      → IsString name
      → length name < 71
      → (t : Fs) × (create_and_save_file_node name parent s ≡ ok num t)
        × IsCreated s dirs parent num d name t
  unfolding create_and_save_file_node get_free_node_block
  create_and_save_file_node-IsCreated laws s dirs parent num d name named tree disjoint here fresh
        absent inside first_free large clock more few string short =
      let block = get_block_num_from_node_num num in
      let block_is = node_block_of num inside in
      let holds = tree parent d here in
      let file = file_node name parent in
      let ne : num ≢ parent = λ z. cc (ap dirs z, here, fresh) in
      let (b, taken, marked) =
        get_free_block_lem laws node_table_initial_block
          (node_table_initial_block + node_table_blocks) block s first_free
          (omega (arith, block_is)) large in
      let s1 : Fs = record s { bitmap = b } in
      let s2 = stored_node s1 num file in
      let pending =
        IsPending-other_node s1 dirs parent num d holds.node file
          (IsPending-bitmap s b dirs parent d holds.node
            (HoldsTree-IsPending s dirs parent d tree holds))
          fresh inside in
      let (node, t, run, pending', bitmap) =
        add_directory_entry-IsPending s2 dirs parent num d holds.node name pending disjoint here
          more few (omega arith) string short in
      let s3 = stored_node t num file in
      let pending'' =
        IsPending-other_node t dirs parent num (with_child d num name) node file pending' fresh
          inside in
      let number : block - node_table_initial_block ≡ num = omega (arith, block_is) in
      let (m, read, same) =
        read_node-file_node t name parent num node ne inside holds.inside clock string short in
      (
        stored_node s3 parent node,
        rw
            (
              read_node-HoldsDirectory s parent d holds,
              exists_entry-absent s parent d name named absent holds,
              create_file_node-file_node s name parent short,
              taken,
              write_block-stored_node s1 num file inside,
              number,
              run,
              unmap_and_destroy_node-stored_node t num file inside,
              unmap_and_destroy_node-stored_node s3 parent node holds.inside,
            )
            refl,
        record {
          tree = IsPending-stored_node s3 dirs parent (with_child d num name) node pending'';
          marked = rw bitmap marked;
          node = m;
          read = read;
          same = same;
        },
      )

  -- Given the laws of the bit arrays. The path is valid; the library splits it into components
  -- and a last one `c`, and the path up to the slash before `c` into those components. They are
  -- not empty, and `c` is a string of 1 to 70 bytes. The disk holds the tree, in which each
  -- directory has fewer than 32 entries in one data block, which no other directory uses. The
  -- components lead to a directory with 1 to 30 entries, none of them `c`. The first free block
  -- from the node table on is that of a node which is no directory of the tree; the bitmap has a
  -- bit for each block of the node table; the clock fits 8 bytes. Then `sac_open` gives the
  -- number of that node; the disk holds the tree with an entry for it at the end of the
  -- directory; exactly the bit of its block is set in the bitmap; and the node, read from the
  -- disk, is an empty file with the name, the parent and the dates given to it.
  pub sac_open-IsCreated :
      (laws : BitLaws p) (path : List ℕ) (cs : List (List ℕ)) (c : List ℕ) (s : Fs)
      (dirs : Directories) (parent num : ℕ) (d : Directory)
      → is_valid_path path ≡ true
      → p.string_split path slash ≡ cs ++ (c ∷ [])
      → p.string_split (p.string_substring_until path (length path - length c - 1)) slash ≡ cs
      → All (λ c. c ≢ []) cs
      → c ≢ []
      → IsString c
      → length c < 71
      → HoldsTree s dirs
      → AreDisjoint dirs
      → resolve dirs cs 0 ≡ some (some parent)
      → dirs parent ≡ some d
      → 0 < length d.entries
      → length d.entries < 31
      → lookup c d.entries ≡ none
      → dirs num ≡ none
      → num < node_table_blocks
      → IsFirstFree s.bitmap node_table_initial_block (get_block_num_from_node_num num)
      → node_table_initial_block + node_table_blocks ≤ 8 * s.bitmap.size
      → p.now < 2 ^ 64
      → (t : Fs) × (sac_open path s ≡ ok (Status.pos num) t) × IsCreated s dirs parent num d c t
  unfolding sac_open
  sac_open-IsCreated laws path cs c s dirs parent num d valid parts above named c-ne string short
        tree disjoint at here more few absent fresh inside first_free large clock =
      let folder = p.string_substring_until path (length path - length c - 1) in
      let (e, t, searched, number, read) =
        search_path-resolve folder s dirs (some parent) (rw above named) tree (rw above at) in
      let (found, same) = number_of-some e parent number in
      let (u, run, made) =
        create_and_save_file_node-IsCreated laws t dirs parent num d c c-ne read.tree disjoint here
          fresh absent inside (rw read.bitmap first_free) (rw read.bitmap large) clock more few
          string short in
      (
        u,
        rw
            (
              valid,
              get_folder_path-last path cs c s parts,
              searched,
              found,
              get_file_name-last path cs c t parts,
              same,
              run,
              int_of-below num (omega (arith, inside)),
            )
            refl,
        record {
          tree = made.tree;
          marked =
              subst (λ b. IsMarked b (get_block_num_from_node_num num) u.bitmap) read.bitmap
                made.marked;
          node = made.node;
          read = made.read;
          same = made.same;
        },
      )
