-- ===== src/Sacio/FileNode.antt =====
-- sac-fs/src/file.c: the node of a new file, written to its block and read from there.
use linuse_fs.Base.{
  ℕ, ◌^◌, ◌<◌, ◌≡◌, ◌≢◌, refl, ap, none, List, arith, length, ne→==, ==-refl, lt→ltb,
}
use linuse_fs.Memory.{strcpy}
use linuse_fs.Memory.Laws.{read_string-strcpy}
use linuse_fs.Package.Copies.{IsString}
use linuse_fs.Platform.{Platform}
use linuse_fs.Disk.{Fs, ok, node_table_blocks, read_block}
use linuse_fs.Node.{Node, get_block_num_from_node_num, create_node, read_node}
use linuse_fs.Node.Blocks.{IsInRange, SameNode, block_to_node-node_to_block}
use linuse_fs.Directory.Tree.{
  Directory, Directories, stored_node, IsSmallDirectory-same, SameNode-refl, node_block_of,
  node_block_below,
}
use linuse_fs.Directory.Visited.{HoldsDirectory-other, stored_node-kept}
use linuse_fs.Directory.Erased.{IsPending}
use linuse_fs.Sacio.File.{create_file_node}

module _ ⦃p : Platform⦄ where
  -- A node that is no directory is written to a block of the node table.
  pub IsPending-other_node :
      (s : Fs) (dirs : Directories) (num other : ℕ) (d : Directory) (node new : Node)
      → IsPending s dirs num d node
      → dirs other ≡ none
      → other < node_table_blocks
      → IsPending (stored_node s other new) dirs num d node
  IsPending-other_node s dirs num other d node new pending free inside =
      let t = stored_node s other new in
      let (small, blocks) =
        IsSmallDirectory-same s t node node d d.entries (SameNode-refl node) pending.blocks
          (λ b behind own. stored_node-kept s other new inside b behind) pending.small in
      record {
        inside = pending.inside;
        name = pending.name;
        range = pending.range;
        has_name = pending.has_name;
        parent = pending.parent;
        small = small;
        blocks = blocks;
        others = λ o e ne at.
            HoldsDirectory-other s other o new e inside (λ z. cc (ap dirs z, at, free))
              (pending.others o e ne at);
      }

  -- The node of a new file.
  abbrev pub file_node : List ℕ → ℕ → Node
  file_node name parent = record {
    state = 1;
    file_name = strcpy p.garbage name;
    parent_block = get_block_num_from_node_num parent;
    file_size = 0;
    creation_date = p.now;
    modification_date = p.now;
    indirect_pointer_block = λ _. 0;
  }

  pub create_file_node-file_node :
      (s : Fs) (name : List ℕ) (parent : ℕ)
      → length name < 71
      → create_file_node name parent s ≡ ok (file_node name parent) s
  unfolding create_file_node create_node
  create_file_node-file_node s name parent short = rw (lt→ltb (length name) 71 short)

  -- The file's node is read from its block, when its directory was written too.
  pub read_node-file_node :
      (s : Fs) (name : List ℕ) (parent num : ℕ) (folder : Node)
      → num ≢ parent
      → num < node_table_blocks
      → parent < node_table_blocks
      → p.now < 2 ^ 64
      → IsString name
      → length name < 71
      → (m : Node) × (read_node num
            (stored_node (stored_node s num (file_node name parent)) parent folder)
          ≡ ok
              (m, get_block_num_from_node_num num)
              (stored_node (stored_node s num (file_node name parent)) parent folder))
        × SameNode m (file_node name parent)
  unfolding read_node read_block
  read_node-file_node s name parent num folder ne inside parent_inside clock string short =
      let block = get_block_num_from_node_num num in
      let file = file_node name parent in
      let apart : block ≢ get_block_num_from_node_num parent =
        λ z. ne (omega (arith, z, node_block_of num inside, node_block_of parent parent_inside)) in
      let range : IsInRange file = record {
        state = omega arith;
        parent_block = omega (arith, node_block_of parent parent_inside);
        file_size = omega arith;
        creation_date = clock;
        modification_date = clock;
        pointers = λ i hi. omega arith;
      } in
      let (m, read, same) =
        block_to_node-node_to_block file name (s.disk block)
          (stored_node (stored_node s num file) parent folder) range
          (read_string-strcpy 71 p.garbage name string short) in
      (
        m,
        rw
            (
              node_block_below num inside,
              ne→== block (get_block_num_from_node_num parent) apart,
              ==-refl block,
              read,
            )
            refl,
        same,
      )
