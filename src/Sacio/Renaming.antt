-- ===== src/Sacio/Renaming.antt =====
-- sac-fs/src/sacio.c: the steps of `sac_rename`.
use linuse_fs.Base.{
  ◌==◌, ==→eq, subst, ℕ, ◌+◌, ◌^◌, ◌<◌, ◌≡◌, refl, inl, inr, true, some, List, [], ◌∷◌, arith,
  length, Bool-cases,
}
use linuse_fs.Package.Copies.{IsString}
use linuse_fs.Platform.{Platform}
use linuse_fs.Disk.{Fs, ok, node_table_initial_block, node_table_blocks}
use linuse_fs.Node.{Node, u32, get_block_num_from_node_num, read_node, unmap_and_destroy_node}
use linuse_fs.Directory.Entry.{DirEntry, is_valid_entry}
use linuse_fs.Directory.Iterate.{get_entry}
use linuse_fs.Directory.Path.{
  is_valid_path, search_path, get_new_dir_name_from_path, get_pre_dir_path_from_path,
}
use linuse_fs.Directory.Update.{add_directory_entry, delete_directory_entry}
use linuse_fs.Directory.Scan.{Stored}
use linuse_fs.Directory.Tree.{
  HasBlocks, Directory, Directories, HoldsTree, HoldsDirectory, read_node-HoldsDirectory,
  unmap_and_destroy_node-stored_node, stored_node, node_block_of,
}
use linuse_fs.Directory.Erased.{AreDisjoint, set_directory, IsPending, IsPending-stored_node}
use linuse_fs.Directory.Grown.{with_child, HoldsTree-IsPending, add_directory_entry-IsPending}
use linuse_fs.Status.{success}
use linuse_fs.Sacio.Tree.{sac_rename}

module _ ⦃p : Platform⦄ where
  -- A directory whose parent's block was changed in memory.
  pub moved-IsPending :
      (s : Fs) (dirs : Directories) (num block : ℕ) (d : Directory)
      → block < 2 ^ 32
      → HoldsTree s dirs
      → (holds : HoldsDirectory s num d)
      → IsPending s dirs num
          (record d { parent_block = block })
          (record (holds.node) { parent_block = block })
  moved-IsPending s dirs num block d low tree holds = record {
    inside = holds.inside;
    name = holds.name;
    range = record {
      state = holds.range.state;
      parent_block = low;
      file_size = holds.range.file_size;
      creation_date = holds.range.creation_date;
      modification_date = holds.range.modification_date;
      pointers = holds.range.pointers;
    };
    has_name = holds.has_name;
    parent = refl;
    small = record {
      state = holds.small.state;
      size = holds.small.size;
      few = holds.small.few;
      single = holds.small.single;
      stored = moved_stored s holds.node d.entries holds.small.stored;
    };
    blocks = moved_blocks s holds.node d d.entries holds.blocks;
    others = λ o e ne at. tree o e at;
  }
    where
      moved_stored :
          (s : Fs) (n : Node) (es : List (ℕ × List ℕ))
          → Stored s n es
          → Stored s (record n { parent_block = block }) es
      moved_stored s n [] h = h
      moved_stored s n (e ∷ es) h = h

      moved_blocks :
          (s : Fs) (n : Node) (d : Directory) (es : List (ℕ × List ℕ))
          → HasBlocks s n d es
          → HasBlocks s (record n { parent_block = block }) (record d { parent_block = block }) es
      moved_blocks s n d [] h = h
      moved_blocks s n d (e ∷ es) h = h

  -- The steps of a renaming whose searches lead to the directories `from` and `to`, and to the entry
  -- `f`.
  pub sac_rename-steps :
      (old new old_name new_name name : List ℕ) (e1 e2 f : DirEntry) (from to num : ℕ)
      (n1 n1' n2 n2' n3 : Node) (b1 b2 b3 : ℕ) (s t1 t2 t2' t3 t4 t5 t6 : Fs)
      → is_valid_path old ≡ true
      → is_valid_path new ≡ true
      → get_new_dir_name_from_path old s ≡ ok old_name s
      → get_new_dir_name_from_path new s ≡ ok new_name s
      → search_path (get_pre_dir_path_from_path old old_name) s ≡ ok e1 t1
      → search_path (get_pre_dir_path_from_path new new_name) t1 ≡ ok e2 t2
      → (is_valid_entry e1 ≡ true) × (e1.node_num ≡ from)
      → (is_valid_entry e2 ≡ true) × (e2.node_num ≡ to)
      → (f.node_num ≡ num) × (f.name ≡ name)
      → read_node from t2 ≡ ok (n1, b1) t2
      → get_entry n1 old_name t2 ≡ ok f t2
      → delete_directory_entry n1 name t2 ≡ ok n1' t2'
      → unmap_and_destroy_node n1' b1 t2' ≡ ok tt t3
      → read_node to t3 ≡ ok (n2, b2) t3
      → add_directory_entry n2 new_name num t3 ≡ ok n2' t4
      → unmap_and_destroy_node n2' b2 t4 ≡ ok tt t5
      → read_node num t5 ≡ ok (n3, b3) t5
      → unmap_and_destroy_node
          (record n3 { parent_block = u32 (to + node_table_initial_block) })
          b3
          t5
        ≡ ok tt t6
      → sac_rename old new s ≡ ok success t6
  unfolding sac_rename
  sac_rename-steps old new old_name new_name name e1 e2 f from to num n1 n1' n2 n2' n3 b1 b2 b3 s t1
        t2 t2' t3 t4 t5 t6 valid valid' last last' searched1 searched2 (found1, same1)
        (found2, same2) (same3, same_name) read1 got deleted closed1 read2 added closed2 read3
        closed3 =
      rw
        (
          valid, valid', last, last', searched1, searched2, found1, found2, same1, read1, got,
          same_name, deleted, closed1, same2, read2, same3, added, closed2, read3, closed3,
        )
        refl

  -- The second half of a renaming: the entry is added to the directory `to`, and the parent's block of
  -- its node is changed.
  pub record IsRelinked (s : Fs) (dirs : Directories) (to num : ℕ) (name : List ℕ) : Type 0 where
    pub node : Node
    pub grown : Node
    pub child : Node
    pub t4 : Fs
    pub t5 : Fs
    pub t6 : Fs
    pub read : read_node to s ≡ ok (node, get_block_num_from_node_num to) s
    pub added : add_directory_entry node name num s ≡ ok grown t4
    pub closed : unmap_and_destroy_node grown (get_block_num_from_node_num to) t4 ≡ ok tt t5
    pub read_child : read_node num t5 ≡ ok (child, get_block_num_from_node_num num) t5
    pub closed_child :
        unmap_and_destroy_node
          (record child { parent_block = u32 (to + node_table_initial_block) })
          (get_block_num_from_node_num num)
          t5
        ≡ ok tt t6
    pub tree : HoldsTree t6 dirs

  -- The number of a directory is one of the node table.
  inside_table :
      (s : Fs) (dirs : Directories) (num to : ℕ) (e child : Directory)
      → HoldsTree s dirs
      → to < node_table_blocks
      → set_directory dirs to (some e) num ≡ some child
      → num < node_table_blocks
  inside_table s dirs num to e child tree inside at = elim (Bool-cases (num == to)) [
    | inl same ↦ let q : num ≡ to = ==→eq num to same in omega (arith, q, inside)
    | inr n ↦ (tree num child (rw n at at)).inside
  ]

  pub sac_rename-IsRelinked :
      (s : Fs) (dirs : Directories) (to num : ℕ) (e child : Directory) (name : List ℕ)
      → HoldsTree s dirs
      → AreDisjoint dirs
      → dirs to ≡ some e
      → 0 < length e.entries
      → length e.entries < 31
      → IsString name
      → length name < 71
      → set_directory dirs to (some (with_child e num name)) num ≡ some child
      → IsRelinked s
          (set_directory
            (set_directory dirs to (some (with_child e num name)))
            num
            (some (record child { parent_block = get_block_num_from_node_num to })))
          to
          num
          name
  sac_rename-IsRelinked s dirs to num e child name tree disjoint at more few string short moves =
      let holds = tree to e at in
      let inside =
        inside_table s dirs num to (with_child e num name) child tree holds.inside moves in
      let (node, t4, run, pending, bitmap) =
        add_directory_entry-IsPending s dirs to num e holds.node name
          (HoldsTree-IsPending s dirs to e tree holds) disjoint at more few (omega (arith, inside))
          string short in
      let t5 = stored_node t4 to node in
      let tree5 = IsPending-stored_node t4 dirs to (with_child e num name) node pending in
      let dirs' = set_directory dirs to (some (with_child e num name)) in
      let holds' = tree5 num child moves in
      let block = get_block_num_from_node_num to in
      let up : block ≡ u32 (to + node_table_initial_block) =
        omega (arith, node_block_of to holds.inside, holds.inside) in
      let moved : Node = record (holds'.node) { parent_block = block } in
      record {
        node = holds.node;
        grown = node;
        child = holds'.node;
        t4 = t4;
        t5 = t5;
        t6 = stored_node t5 num moved;
        read = read_node-HoldsDirectory s to e holds;
        added = run;
        closed = unmap_and_destroy_node-stored_node t4 to node holds.inside;
        read_child = read_node-HoldsDirectory t5 num child holds';
        closed_child =
            subst
              (λ b.
                unmap_and_destroy_node (record (holds'.node) { parent_block = b })
                  (get_block_num_from_node_num num) t5
                ≡ ok tt (stored_node t5 num moved))
              up (unmap_and_destroy_node-stored_node t5 num moved holds'.inside);
        tree =
            IsPending-stored_node t5 dirs' num (record child { parent_block = block }) moved
              (moved-IsPending t5 dirs' num block child
                (omega (arith, node_block_of to holds.inside, holds.inside)) tree5 holds');
      }
