-- ===== src/Directory/Visited.antt =====
-- The directories of the tree when a node of the node table is written to its block.
use linuse_fs.Base.{
  ℕ, ◌≤◌, ◌<◌, ◌≡◌, ◌≢◌, ◌∙◌, inl, inr, some, List, arith, Bool-cases, ne→==, eq→==, ==→eq, ==-refl,
  ◌==◌,
}
use linuse_fs.Platform.{Platform}
use linuse_fs.Disk.{node_table_blocks, Fs, ok}
use linuse_fs.Node.{Node, get_block_num_from_node_num, block_to_node}
use linuse_fs.Node.Blocks.{IsInRange, HasName, SameNode-IsInRange, block_to_node-node_to_block}
use linuse_fs.Directory.Scan.{IsSmallDirectory}
use linuse_fs.Directory.Tree.{
  Directory, Directories, first_data_block, stored_node, HasBlocks, HoldsDirectory, HoldsTree,
  node_block_of, block_to_node-any, IsSmallDirectory-same, HoldsDirectory-same,
}

module _ ⦃p : Platform⦄ where
  pub stored_node-kept :
      (s : Fs) (num : ℕ) (node : Node)
      → num < node_table_blocks
      → (b : ℕ) → first_data_block ≤ b
      → (stored_node s num node).disk b ≡ s.disk b
  stored_node-kept s num node inside b behind =
      let e = node_block_of num inside in
      let ne : b ≢ get_block_num_from_node_num num = λ h. absurd (omega (arith, h)) in
      rw (ne→== b _ ne)

  -- A directory whose node is written to its block.
  pub HoldsDirectory-stored_node :
      (s : Fs) (num : ℕ) (node : Node) (name : List ℕ) (d : Directory)
      → num < node_table_blocks
      → IsInRange node
      → HasName node name
      → node.parent_block ≡ d.parent_block
      → IsSmallDirectory s node d.entries
      → HasBlocks s node d d.entries
      → HoldsDirectory (stored_node s num node) num d
  HoldsDirectory-stored_node s num node name d inside range has_name parent small blocks =
      let t = stored_node s num node in
      let block = get_block_num_from_node_num num in
      let (m, read, same) = block_to_node-node_to_block node name (s.disk block) t range has_name in
      let (small', blocks') =
        IsSmallDirectory-same s t node m d d.entries same blocks
          (λ b behind own. stored_node-kept s num node inside b behind) small in
      record {
        inside = inside;
        node = m;
        name = name;
        read = rw (==-refl block) read;
        range = SameNode-IsInRange m node same range;
        has_name = same.name ∙ has_name;
        parent = same.parent_block ∙ parent;
        small = small';
        blocks = blocks';
      }

  -- The other directories, when a node is written to its block.
  pub HoldsDirectory-other :
      (s : Fs) (num other : ℕ) (node : Node) (d : Directory)
      → num < node_table_blocks
      → other ≢ num
      → HoldsDirectory s other d
      → HoldsDirectory (stored_node s num node) other d
  HoldsDirectory-other s num other node d inside ne holds =
      let e = node_block_of num inside in
      let e' = node_block_of other holds.inside in
      let apart : get_block_num_from_node_num other ≢ get_block_num_from_node_num num =
        λ h. ne (omega (arith, h)) in
      HoldsDirectory-same s (stored_node s num node) other d (rw (ne→== _ _ apart))
        (λ b behind own. stored_node-kept s num node inside b behind) holds

  -- A directory that is read and written back.
  pub HoldsDirectory-visited :
      (s : Fs) (num : ℕ) (d : Directory) (holds : HoldsDirectory s num d)
      → HoldsDirectory (stored_node s num holds.node) num d
  HoldsDirectory-visited s num d holds =
      HoldsDirectory-stored_node s num holds.node holds.name d holds.inside holds.range
        holds.has_name holds.parent holds.small holds.blocks

  -- A directory of the tree that is read and written back leaves the tree as it was.
  pub HoldsTree-visited :
      (s : Fs) (dirs : Directories) (num : ℕ) (d : Directory)
      → HoldsTree s dirs
      → dirs num ≡ some d
      → (holds : HoldsDirectory s num d) → HoldsTree (stored_node s num holds.node) dirs
  HoldsTree-visited s dirs num d tree at holds other d' at' = elim (Bool-cases (other == num)) [
    | inl e ↦
        let same : other ≡ num = ==→eq other num e in
        let same_directory : d ≡ d' = cc (same, at, at') in
        rw (same, ← same_directory) (HoldsDirectory-visited s num d holds)
    | inr n ↦
        HoldsDirectory-other s num other holds.node d' holds.inside (λ e. cc (n, eq→== other num e))
          (tree other d' at')
  ]

  -- The node of a directory is the same as long as its block is.
  pub HoldsDirectory-node :
      (s t : Fs) (num : ℕ) (d e : Directory) (h : HoldsDirectory s num d)
      (k : HoldsDirectory t num e)
      → t.disk (get_block_num_from_node_num num) ≡ s.disk (get_block_num_from_node_num num)
      → k.node ≡ h.node
  HoldsDirectory-node s t num d e h k same =
      let read : block_to_node (t.disk (get_block_num_from_node_num num)) t ≡ ok h.node t =
        rw same (block_to_node-any _ s t h.node h.read) in
      cc (read, k.read)
