-- ===== src/Directory/Fresh.antt =====
-- The tree of directories when a new empty directory is stored in the node table.
use linuse_fs.Base.{
  ℕ, ◌<◌, ◌≡◌, ◌≢◌, ap, inl, inr, some, List, [], arith, Bool-cases, eq→==, ==→eq, ◌==◌,
}
use linuse_fs.Platform.{Platform}
use linuse_fs.Disk.{Fs, node_table_blocks}
use linuse_fs.Node.{Node}
use linuse_fs.Node.Blocks.{IsInRange, HasName}
use linuse_fs.Directory.Scan.{IsSmallDirectory}
use linuse_fs.Directory.Tree.{
  Directory, Directories, IsSmallDirectory-same, SameNode-refl, stored_node,
}
use linuse_fs.Directory.Visited.{stored_node-kept, HoldsDirectory-stored_node, HoldsDirectory-other}
use linuse_fs.Directory.Erased.{AreDisjoint, IsPending, set_directory}

module _ ⦃p : Platform⦄ where
  -- The node of a new empty directory is stored under a number that no directory has, or that is to
  -- be replaced.
  pub IsPending-new :
      (s : Fs) (dirs : Directories) (num fresh : ℕ) (d e : Directory) (node new : Node)
      (name : List ℕ)
      → IsPending s dirs num d node
      → fresh ≢ num
      → fresh < node_table_blocks
      → IsInRange new
      → HasName new name
      → new.parent_block ≡ e.parent_block
      → e.entries ≡ []
      → IsSmallDirectory s new []
      → IsPending (stored_node s fresh new) (set_directory dirs fresh (some e)) num d node
  IsPending-new s dirs num fresh d e node new name pending ne inside range has_name parent empty
        small_new =
      let t = stored_node s fresh new in
      let (small, blocks) =
        IsSmallDirectory-same s t node node d d.entries (SameNode-refl node) pending.blocks
          (λ b behind own. stored_node-kept s fresh new inside b behind) pending.small in
      record {
        inside = pending.inside;
        name = pending.name;
        range = pending.range;
        has_name = pending.has_name;
        parent = pending.parent;
        small = small;
        blocks = blocks;
        others = λ o e' apart at. elim (Bool-cases (o == fresh)) [
          | inl same ↦
              let same_number : o ≡ fresh = ==→eq o fresh same in
              let same_directory : e ≡ e' = cc (rw same at at) in
              rw (same_number, ← same_directory)
                (HoldsDirectory-stored_node s fresh new name e inside range has_name parent
                  (rw empty small_new) (rw empty tt))
          | inr n ↦
              HoldsDirectory-other s fresh o new e' inside (λ z. cc (n, eq→== o fresh z))
                (pending.others o e' apart (rw n at at))
        ];
      }

-- A new directory, without blocks, shares none.
pub set_directory-AreDisjoint :
    (dirs : Directories) (num : ℕ) (e : Directory)
    → e.pointers_at ≡ 0
    → e.entries_at ≡ 0
    → AreDisjoint dirs
    → AreDisjoint (set_directory dirs num (some e))
set_directory-AreDisjoint dirs num e no_pointers no_entries disjoint a b d d' ne at at' behind =
    elim (Bool-cases (a == num)) [
      | inl same ↦
          let f : e ≡ d = cc (rw same at at) in
          absurd (omega (arith, no_entries, ap (λ x. x.entries_at) f, behind))
      | inr n ↦ elim (Bool-cases (b == num)) [
        | inl same ↦
            let f : e ≡ d' = cc (rw same at at') in
            (
              λ z. absurd (omega (arith, z, no_pointers, ap (λ x. x.pointers_at) f, behind)),
              λ z. absurd (omega (arith, z, no_entries, ap (λ x. x.entries_at) f, behind)),
            )
        | inr n' ↦ disjoint a b d d' ne (rw n at at) (rw n' at at') behind
      ]
    ]
