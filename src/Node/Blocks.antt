-- ===== src/Node/Blocks.antt =====
-- A node written to its block and read back.
use linuse_fs.Base.{
  ℕ, ◌+◌, ◌-◌, ◌*◌, ◌/◌, ◌%◌, ◌^◌, ◌<◌, ◌≡◌, ◌≢◌, refl, sym, ap, ◌∙◌, some, List, arith, length,
  lt→ltb, ne→==, ==-refl,
}
use linuse_fs.Memory.{Bytes, memcpy, object_bytes, array_bytes, load, strcpy, read_string}
use linuse_fs.Platform.{Platform}
use linuse_fs.Disk.{total_blocks, Fs, ok, read_block, update_block, write_block}
use linuse_fs.Node.{
  Node, node_to_block, get_block_num_from_node_num, create_node, block_to_node, read_node,
  unmap_and_destroy_node,
}
use linuse_fs.Memory.Laws.{
  memcpy-inside, load-object, read_string-ext, read_string-IsString, read_string-strcpy,
}

-- The fields are values of their C types.
pub record IsInRange (n : Node) : Type 0 where
  pub state : n.state < 2 ^ 8
  pub parent_block : n.parent_block < 2 ^ 32
  pub file_size : n.file_size < 2 ^ 32
  pub creation_date : n.creation_date < 2 ^ 64
  pub modification_date : n.modification_date < 2 ^ 64
  pub pointers : (i : ℕ) → i < 1000 → n.indirect_pointer_block i < 2 ^ 32

-- The file name as a string.
abbrev pub HasName : Node → List ℕ → Type 0
HasName n name = read_string 71 n.file_name 0 ≡ some name

-- Two nodes with the same fields, up to what stands behind the end of the name.
pub record SameNode (m n : Node) : Type 0 where
  pub state : m.state ≡ n.state
  pub name : read_string 71 m.file_name 0 ≡ read_string 71 n.file_name 0
  pub parent_block : m.parent_block ≡ n.parent_block
  pub file_size : m.file_size ≡ n.file_size
  pub creation_date : m.creation_date ≡ n.creation_date
  pub modification_date : m.modification_date ≡ n.modification_date
  pub pointers : (i : ℕ) → i < 1000 → m.indirect_pointer_block i ≡ n.indirect_pointer_block i

pub SameNode-IsInRange : (m n : Node) → SameNode m n → IsInRange n → IsInRange m
SameNode-IsInRange m n same range = record {
  state = rw same.state range.state;
  parent_block = rw same.parent_block range.parent_block;
  file_size = rw same.file_size range.file_size;
  creation_date = rw same.creation_date range.creation_date;
  modification_date = rw same.modification_date range.modification_date;
  pointers = λ i hi. rw (same.pointers i hi) (range.pointers i hi);
}

array_bytes-index :
    (a : ℕ → ℕ) (i k : ℕ) → k < 4 → array_bytes a (0 + (4 * i + k)) ≡ object_bytes (a i) k
unfolding array_bytes
array_bytes-index a i k h =
    let e : (0 + (4 * i + k)) / 4 ≡ i = omega arith in
    let e' : (0 + (4 * i + k)) % 4 ≡ k = omega arith in rw (e, e')

module _ (n : Node) (b : Bytes) where
  stored_name : (i : ℕ) → i < 71 → node_to_block n b (1 + i) ≡ n.file_name i
  unfolding node_to_block memcpy
  stored_name i h = ground (arith, ap n.file_name (unit i))
    where
      unit : (i : ℕ) → 0 + (1 + i - 1) ≡ i
      unit i = omega arith

  stored_pointer :
      (i : ℕ)
      → i < 1000
      → n.indirect_pointer_block i < 2 ^ 32
      → load 4 (node_to_block n b) (96 + 4 * i) ≡ n.indirect_pointer_block i
  unfolding node_to_block
  stored_pointer i h range =
      load-object 4 _ (96 + 4 * i) (n.indirect_pointer_block i) (omega arith) λ k hk.
        let e : 96 + 4 * i + k ≡ 96 + (4 * i + k) = omega arith in
        rw e (
          memcpy-inside _ 96 (array_bytes n.indirect_pointer_block) 0 4000 (4 * i + k) (omega arith)
          ∙ array_bytes-index n.indirect_pointer_block i k hk)

  stored_numbers :
      IsInRange n
      → (load 1 (node_to_block n b) 0 ≡ n.state)
        × (load 4 (node_to_block n b) 72 ≡ n.parent_block)
        × (load 4 (node_to_block n b) 76 ≡ n.file_size)
        × (load 8 (node_to_block n b) 80 ≡ n.creation_date)
        × (load 8 (node_to_block n b) 88 ≡ n.modification_date)
  unfolding node_to_block memcpy load object_bytes
  stored_numbers r = ground arith

module _ ⦃p : Platform⦄ where
  -- The node that `block_to_node` makes of a block that holds `n`, whose name is `name`.
  abbrev pub reread : Node → List ℕ → Bytes → Node
  reread n name b = record n {
    file_name = strcpy p.garbage name;
    indirect_pointer_block = λ i. load 4 b (96 + 4 * i);
  }

  pub block_to_node-reread :
      (n : Node) (name : List ℕ) (b : Bytes) (s : Fs)
      → IsInRange n
      → HasName n name
      → block_to_node (node_to_block n b) s ≡ ok (reread n name (node_to_block n b)) s
  unfolding block_to_node create_node
  block_to_node-reread n name b s r has_name =
      let read : read_string 71 (node_to_block n b) 1 ≡ some name =
        read_string-ext 71 (node_to_block n b) n.file_name 1 0
          (λ i hi. let e : 0 + i ≡ i = omega arith in rw e (stored_name n b i hi))
        ∙ has_name in
      let (string, short) = read_string-IsString 71 n.file_name 0 name has_name in
      let (e0, e1, e2, e3, e4) = stored_numbers n b r in
      rw (read, block_to_node) (rw (lt→ltb (length name) 71 short, e0, e1, e2, e3, e4))

  pub reread-SameNode :
      (n : Node) (name : List ℕ) (b : Bytes)
      → IsInRange n
      → HasName n name
      → SameNode (reread n name (node_to_block n b)) n
  reread-SameNode n name b r has_name =
      let (string, short) = read_string-IsString 71 n.file_name 0 name has_name in
      record {
        state = refl;
        name = read_string-strcpy 71 p.garbage name string short ∙ sym has_name;
        parent_block = refl;
        file_size = refl;
        creation_date = refl;
        modification_date = refl;
        pointers = λ i hi. stored_pointer n b i hi (r.pointers i hi);
      }

  -- A node that is written to a block, whatever the block held, and read back from it has all its
  -- fields, its name and its thousand pointers, and no state changes by the reading.
  pub block_to_node-node_to_block :
      (n : Node) (name : List ℕ) (b : Bytes) (s : Fs)
      → IsInRange n
      → HasName n name
      → (m : Node) × (block_to_node (node_to_block n b) s ≡ ok m s) × SameNode m n
  block_to_node-node_to_block n name b s r has_name = (
    reread n name (node_to_block n b),
    block_to_node-reread n name b s r has_name,
    reread-SameNode n name b r has_name,
  )

  -- A node that is written to the block of a node number on the disk is read from there with
  -- the same fields, name and pointers, the reading changes nothing, and the writing changes no
  -- other block. The node's fields fit their sizes, and its name ends in its 71 bytes.
  pub read_node-unmap_and_destroy_node :
      (num : ℕ) (n : Node) (name : List ℕ) (s : Fs)
      → get_block_num_from_node_num num < total_blocks
      → IsInRange n
      → HasName n name
      → (m : Node) × (t : Fs) × (unmap_and_destroy_node n (get_block_num_from_node_num num) s
          ≡ ok tt t)
        × (read_node num t ≡ ok (m, get_block_num_from_node_num num) t)
        × SameNode m n
        × ((b : ℕ) → b ≢ get_block_num_from_node_num num → t.disk b ≡ s.disk b)
  unfolding unmap_and_destroy_node read_node read_block write_block
  read_node-unmap_and_destroy_node num n name s valid r has_name =
      let block = get_block_num_from_node_num num in
      let t : Fs = record s { disk = update_block s.disk block (node_to_block n (s.disk block)) } in
      let (m, again, same) = block_to_node-node_to_block n name (s.disk block) t r has_name in
      let inside = lt→ltb block total_blocks valid in
      (m, t, rw inside, rw (inside, ==-refl block, again), same, λ b ne. rw (ne→== b block ne))
