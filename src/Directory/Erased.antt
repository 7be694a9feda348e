-- ===== src/Directory/Erased.antt =====
-- The tree of directories when an entry is deleted from one of them and its node is written back.
use linuse_fs.Base.{
  ℕ, ◌≤◌, ◌<◌, ◌≡◌, ◌≢◌, sym, ap, ◌∙◌, inl, inr, Option, some, List, [], ◌∷◌, arith, if◌then◌else◌,
  Bool-cases, eq→==, ==→eq, ◌==◌,
}
use linuse_fs.Memory.{load}
use linuse_fs.Platform.{Platform}
use linuse_fs.Disk.{node_table_blocks, Fs, ok}
use linuse_fs.Node.{Node, get_block_num_from_node_num}
use linuse_fs.Node.Blocks.{IsInRange, HasName}
use linuse_fs.Directory.Block.{lookup, entries_block}
use linuse_fs.Directory.Scan.{Stored, IsSmallDirectory}
use linuse_fs.Directory.Entries.{erase}
use linuse_fs.Directory.Update.{delete_directory_entry}
use linuse_fs.Directory.Deleted.{KeepsNode, delete_directory_entry-erase}
use linuse_fs.Directory.Tree.{
  Directory, Directories, HasBlocks, HoldsDirectory, HoldsTree, first_data_block, stored_node,
  IsSmallDirectory-same, SameNode-refl, HoldsDirectory-same, node_block_of,
}
use linuse_fs.Directory.Visited.{
  stored_node-kept, HoldsDirectory-other, HoldsDirectory-visited, HoldsDirectory-stored_node,
}

-- No two directories share the block of their entries.
abbrev pub AreDisjoint : Directories → Type 0
AreDisjoint dirs =
    (a b : ℕ) (d e : Directory)
    → a ≢ b
    → dirs a ≡ some d
    → dirs b ≡ some e
    → first_data_block ≤ d.entries_at
    → (d.entries_at ≢ e.pointers_at) × (d.entries_at ≢ e.entries_at)

-- The directories with one of them changed.
abbrev pub set_directory : Directories → ℕ → Option Directory → Directories
set_directory dirs num d n = if n == num then d else dirs n

erased-IsInRange :
    (n m : Node) (es : List (ℕ × List ℕ)) (s : Fs)
    → IsInRange n
    → KeepsNode n m
    → IsSmallDirectory s m es
    → IsInRange m
erased-IsInRange n m es s range keeps small = record {
  state = rw small.state (omega arith);
  parent_block = rw keeps.parent_block range.parent_block;
  file_size = rw small.size (omega (arith, small.few));
  creation_date = rw keeps.creation_date range.creation_date;
  modification_date = rw keeps.modification_date range.modification_date;
  pointers = λ i hi. elim (keeps.pointers i) [
    | inl e ↦ rw e (range.pointers i hi)
    | inr e ↦ rw e (omega arith)
  ];
}

erased-HasBlocks :
    (s t : Fs) (n m : Node) (d : Directory) (rest : List (ℕ × List ℕ))
    → (n.indirect_pointer_block 0 ≡ d.pointers_at)
      × (entries_block s n ≡ d.entries_at)
      × (first_data_block ≤ d.pointers_at)
      × (first_data_block ≤ d.entries_at)
    → KeepsNode n m
    → t.disk (n.indirect_pointer_block 0) ≡ s.disk (n.indirect_pointer_block 0)
    → IsSmallDirectory t m rest
    → HasBlocks t m d rest
erased-HasBlocks s t n m d [] at keeps same small = tt
erased-HasBlocks s t n m d (e ∷ rest) (at0, at1, behind0, behind1) keeps same small =
    let (here, inside, block_inside, apart, holds) = small.stored in
    elim (keeps.pointers 0) [
      | inl p ↦ (
        p ∙ at0,
        ap (λ b. load 4 (t.disk b) 0) p ∙ ap (λ b. load 4 b 0) same ∙ at1,
        behind0,
        behind1,
      )
      | inr p ↦ absurd (here p)
    ]

HasBlocks-elim :
    (s : Fs) (n : Node) (d : Directory) (es : List (ℕ × List ℕ)) (num : ℕ) (name : List ℕ)
    → lookup name es ≡ some num
    → Stored s n es
    → HasBlocks s n d es
    → (n.indirect_pointer_block 0 ≢ entries_block s n)
      × (n.indirect_pointer_block 0 ≡ d.pointers_at)
      × (entries_block s n ≡ d.entries_at)
      × (first_data_block ≤ d.pointers_at)
      × (first_data_block ≤ d.entries_at)
HasBlocks-elim s n d [] num name found stored blocks = absurd (cc found)
HasBlocks-elim s n d (e ∷ es) num name found (here, inside, block_inside, apart, holds) blocks =
    let (at0, at1, behind0, behind1) = blocks in (apart, at0, at1, behind0, behind1)

module _ ⦃p : Platform⦄ where
  -- The disk holds all directories but one, whose node is in memory.
  pub record IsPending (s : Fs) (dirs : Directories) (num : ℕ) (d : Directory) (node : Node)
      : Type 0 where
    pub inside : num < node_table_blocks
    pub name : List ℕ
    pub range : IsInRange node
    pub has_name : HasName node name
    pub parent : node.parent_block ≡ d.parent_block
    pub small : IsSmallDirectory s node d.entries
    pub blocks : HasBlocks s node d d.entries
    pub others : (o : ℕ) (e : Directory) → o ≢ num → dirs o ≡ some e → HoldsDirectory s o e

  -- Another directory is read and written back.
  pub IsPending-visited :
      (s : Fs) (dirs : Directories) (num other : ℕ) (d e : Directory) (node : Node)
      → IsPending s dirs num d node
      → dirs other ≡ some e
      → (holds : HoldsDirectory s other e)
      → IsPending (stored_node s other holds.node) dirs num d node
  IsPending-visited s dirs num other d e node pending at holds =
      let t = stored_node s other holds.node in
      let (small, blocks) =
        IsSmallDirectory-same s t node node d d.entries (SameNode-refl node) pending.blocks
          (λ b behind own. stored_node-kept s other holds.node holds.inside b behind)
          pending.small in
      record {
        inside = pending.inside;
        name = pending.name;
        range = pending.range;
        has_name = pending.has_name;
        parent = pending.parent;
        small = small;
        blocks = blocks;
        others = λ o e' ne at'. elim (Bool-cases (o == other)) [
          | inl same ↦
              let same_number : o ≡ other = ==→eq o other same in
              let same_directory : e ≡ e' = cc (same_number, at, at') in
              rw (same_number, ← same_directory) (HoldsDirectory-visited s other e holds)
          | inr n ↦
              HoldsDirectory-other s other o holds.node e' holds.inside
                (λ z. cc (n, eq→== o other z)) (pending.others o e' ne at')
        ];
      }

  -- The node in memory is written back.
  pub IsPending-stored_node :
      (s : Fs) (dirs : Directories) (num : ℕ) (d : Directory) (node : Node)
      → IsPending s dirs num d node
      → HoldsTree (stored_node s num node) (set_directory dirs num (some d))
  IsPending-stored_node s dirs num d node pending o e at = elim (Bool-cases (o == num)) [
    | inl same ↦
        let same_number : o ≡ num = ==→eq o num same in
        let same_directory : d ≡ e = cc (rw same at at) in
        rw (same_number, ← same_directory)
          (HoldsDirectory-stored_node s num node pending.name d pending.inside pending.range
            pending.has_name pending.parent pending.small pending.blocks)
    | inr n ↦
        let ne : o ≢ num = λ z. cc (n, eq→== o num z) in
        HoldsDirectory-other s num o node e pending.inside ne (pending.others o e ne (rw n at at))
  ]

  -- An entry is deleted from a directory of the tree, whose node was read.
  pub delete_directory_entry-IsPending :
      (s : Fs) (dirs : Directories) (num child : ℕ) (d : Directory) (c : List ℕ)
      → c ≢ []
      → HoldsTree s dirs
      → AreDisjoint dirs
      → dirs num ≡ some d
      → lookup c d.entries ≡ some child
      → (holds : HoldsDirectory s num d)
      → (node : Node) × (t : Fs) × (delete_directory_entry holds.node c s ≡ ok node t)
        × IsPending t dirs num (record d { entries = erase c d.entries }) node
        × (t.bitmap ≡ s.bitmap)
        × ((b : ℕ) → b < first_data_block → t.disk b ≡ s.disk b)
  delete_directory_entry-IsPending s dirs num child d c c-ne tree disjoint at found holds =
      let (node, t, run, small, keeps, bitmap, kept) =
        delete_directory_entry-erase c c-ne s holds.node d.entries holds.small in
      let (apart, at0, at1, behind0, behind1) =
        HasBlocks-elim s holds.node d d.entries child c found holds.small.stored holds.blocks in
      let kept' : (b : ℕ) → b ≢ d.entries_at → t.disk b ≡ s.disk b =
        λ b ne. kept b (λ z. ne (z ∙ at1)) in
      (
        node,
        t,
        run,
        record {
          inside = holds.inside;
          name = holds.name;
          range = erased-IsInRange holds.node node (erase c d.entries) t holds.range keeps small;
          has_name = rw keeps.file_name holds.has_name;
          parent = keeps.parent_block ∙ holds.parent;
          small = small;
          blocks =
              erased-HasBlocks s t holds.node node d (erase c d.entries)
                (at0, at1, behind0, behind1) keeps
                (kept (holds.node.indirect_pointer_block 0) apart) small;
          others = λ o e ne at'.
              let old = tree o e at' in
              let (apart0, apart1) = disjoint num o d e (λ z. ne (sym z)) at at' behind1 in
              let e' = node_block_of o old.inside in
              HoldsDirectory-same s t o e
                (kept' (get_block_num_from_node_num o)
                  (λ z. absurd (omega (arith, z, e', old.inside))))
                (λ b behind own.
                  kept' b
                    (λ z. elim own [ inl q ↦ apart0 (sym z ∙ q) | inr q ↦ apart1 (sym z ∙ q) ]))
                old;
        },
        bitmap,
        λ b low. kept' b (λ z. absurd (omega (arith, z, behind1))),
      )
