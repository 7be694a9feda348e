-- ===== src/Directory/Tree.antt =====
-- A tree of directories on the disk: which node numbers are directories, and with which entries.
use linuse_fs.Base.{
  ℕ, ◌+◌, ◌≤◌, ◌<◌, ◌≡◌, refl, sym, ap, ◌∙◌, ◌⊎◌, inl, inr, true, Option, some, List, [], ◌∷◌,
  arith, length, ltb, subst, Bool-cases, Option-cases,
}
use linuse_fs.Memory.{Bytes, load, read_string}
use linuse_fs.Platform.{Platform}
use linuse_fs.Disk.{
  total_blocks, node_table_blocks, node_table_initial_block, Fs, ok, update_block, read_block,
  write_block,
}
use linuse_fs.Node.{
  Node, node_to_block, get_block_num_from_node_num, create_node, block_to_node, read_node,
  unmap_and_destroy_node,
}
use linuse_fs.Node.Blocks.{IsInRange, HasName, SameNode}
use linuse_fs.Directory.Block.{HoldsEntries, entries_block}
use linuse_fs.Directory.Scan.{IsSmallDirectory}

-- The first block behind the node table.
abbrev pub first_data_block : ℕ
first_data_block = node_table_initial_block + node_table_blocks

-- A directory: the block of its parent's node, its entries, and where they are stored if there are
-- any.
pub record Directory : Type 0 where
  pub parent_block : ℕ
  pub entries : List (ℕ × List ℕ)
  pub pointers_at : ℕ
  pub entries_at : ℕ

-- The directories by their node numbers.
abbrev pub Directories : Type 0
Directories = ℕ → Option Directory

-- A disk with the node in its block.
abbrev pub stored_node : Fs → ℕ → Node → Fs
stored_node s num node =
    let block = get_block_num_from_node_num num in
    record s { disk = update_block s.disk block (node_to_block node (s.disk block)) }

-- Where the entries of a directory are stored.
abbrev pub HasBlocks : Fs → Node → Directory → List (ℕ × List ℕ) → Type 0
HasBlocks s node d [] = Unit {0}
HasBlocks s node d (e ∷ es) =
    (node.indirect_pointer_block 0 ≡ d.pointers_at)
    × (entries_block s node ≡ d.entries_at)
    × (first_data_block ≤ d.pointers_at)
    × (first_data_block ≤ d.entries_at)

-- The blocks of a directory, if it has any, are the same on two disks.
abbrev pub SameBlocks : Directory → Fs → Fs → Type 0
SameBlocks d s t =
    (b : ℕ) → first_data_block ≤ b → (b ≡ d.pointers_at) ⊎ (b ≡ d.entries_at) → t.disk b ≡ s.disk b

module _ ⦃p : Platform⦄ where
  -- The disk holds a directory under a node number.
  pub record HoldsDirectory (s : Fs) (num : ℕ) (d : Directory) : Type 0 where
    pub inside : num < node_table_blocks
    pub node : Node
    pub name : List ℕ
    pub read : block_to_node (s.disk (get_block_num_from_node_num num)) s ≡ ok node s
    pub range : IsInRange node
    pub has_name : HasName node name
    pub parent : node.parent_block ≡ d.parent_block
    pub small : IsSmallDirectory s node d.entries
    pub blocks : HasBlocks s node d d.entries

  -- The disk holds all the directories.
  abbrev pub HoldsTree : Fs → Directories → Type 0
  HoldsTree s dirs = (num : ℕ) (d : Directory) → dirs num ≡ some d → HoldsDirectory s num d

  pub node_block_of :
      (num : ℕ) → num < node_table_blocks → get_block_num_from_node_num num ≡ 2 + num
  unfolding get_block_num_from_node_num
  node_block_of num h = omega arith

  pub block_to_node-any :
      (b : Bytes) (s t : Fs) (n : Node) → block_to_node b s ≡ ok n s → block_to_node b t ≡ ok n t
  unfolding block_to_node create_node
  block_to_node-any b s t n h = elim (Option-cases (read_string 71 b 1)) [
    | inl e ↦ absurd (cc (rw (e, block_to_node) at h))
    | inr (name, e) ↦ elim (Bool-cases (ltb (length name) 71)) [
      | inl v ↦ let h' = rw (e, block_to_node, v) at h in rw (e, block_to_node, v) (cc h')
      | inr v ↦ absurd (cc (rw (e, block_to_node, v) at h))
    ]
  ]

  pub node_block_below :
      (num : ℕ)
      → num < node_table_blocks
      → ltb (get_block_num_from_node_num num) total_blocks ≡ true
  node_block_below num inside = let e = node_block_of num inside in ground arith

  pub read_node-HoldsDirectory :
      (s : Fs) (num : ℕ) (d : Directory) (holds : HoldsDirectory s num d)
      → read_node num s ≡ ok (holds.node, get_block_num_from_node_num num) s
  unfolding read_node read_block
  read_node-HoldsDirectory s num d holds = rw (node_block_below num holds.inside, holds.read)

  pub write_block-stored_node :
      (s : Fs) (num : ℕ) (node : Node)
      → num < node_table_blocks
      → write_block (get_block_num_from_node_num num) (node_to_block node) s
        ≡ ok tt (stored_node s num node)
  unfolding write_block
  write_block-stored_node s num node inside = rw (node_block_below num inside)

  pub unmap_and_destroy_node-stored_node :
      (s : Fs) (num : ℕ) (node : Node)
      → num < node_table_blocks
      → unmap_and_destroy_node node (get_block_num_from_node_num num) s
        ≡ ok tt (stored_node s num node)
  unfolding unmap_and_destroy_node
  unmap_and_destroy_node-stored_node = write_block-stored_node

  -- A directory with other nodes and blocks around it.
  pub IsSmallDirectory-same :
      (s t : Fs) (n m : Node) (d : Directory) (es : List (ℕ × List ℕ))
      → SameNode m n
      → HasBlocks s n d es
      → SameBlocks d s t
      → IsSmallDirectory s n es
      → IsSmallDirectory t m es × HasBlocks t m d es
  IsSmallDirectory-same s t n m d [] same blocks kept small = (
    record {
      state = same.state ∙ small.state;
      size = same.file_size ∙ small.size;
      few = small.few;
      single = same.pointers 1 (omega arith) ∙ small.single;
      stored = same.pointers 0 (omega arith) ∙ small.stored;
    },
    tt,
  )
  IsSmallDirectory-same s t n m d (e ∷ es) same (at0, at1, behind0, behind1) kept small =
      let (here, inside, block_inside, apart, holds) = small.stored in
      let pointer = same.pointers 0 (omega arith) in
      let block : entries_block t m ≡ entries_block s n =
        ap (λ b. load 4 (t.disk b) 0) pointer
        ∙ ap (λ b. load 4 b 0) (kept (n.indirect_pointer_block 0) (omega (arith, at0)) (inl at0)) in
      let content : t.disk (entries_block t m) ≡ s.disk (entries_block s n) =
        ap t.disk block ∙ kept (entries_block s n) (omega (arith, at1)) (inr at1) in
      (
        record {
          state = same.state ∙ small.state;
          size = same.file_size ∙ small.size;
          few = small.few;
          single = same.pointers 1 (omega arith) ∙ small.single;
          stored = (
            rw pointer here,
            rw pointer inside,
            rw block block_inside,
            rw (block, pointer) apart,
            subst (λ b. HoldsEntries b 0 (e ∷ es)) (sym content) holds,
          );
        },
        (pointer ∙ at0, block ∙ at1, behind0, behind1),
      )

  pub SameNode-refl : (n : Node) → SameNode n n
  SameNode-refl n = record {
    state = refl;
    name = refl;
    parent_block = refl;
    file_size = refl;
    creation_date = refl;
    modification_date = refl;
    pointers = λ i hi. refl;
  }

  -- A directory whose blocks are as they were.
  pub HoldsDirectory-same :
      (s t : Fs) (num : ℕ) (d : Directory)
      → t.disk (get_block_num_from_node_num num) ≡ s.disk (get_block_num_from_node_num num)
      → SameBlocks d s t
      → HoldsDirectory s num d
      → HoldsDirectory t num d
  HoldsDirectory-same s t num d same kept holds =
      let (small, blocks) =
        IsSmallDirectory-same s t holds.node holds.node d d.entries (SameNode-refl holds.node)
          holds.blocks kept holds.small in
      record {
        inside = holds.inside;
        node = holds.node;
        name = holds.name;
        read = rw same (block_to_node-any _ s t holds.node holds.read);
        range = holds.range;
        has_name = holds.has_name;
        parent = holds.parent;
        small = small;
        blocks = blocks;
      }
