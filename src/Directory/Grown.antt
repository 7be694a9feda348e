-- ===== src/Directory/Grown.antt =====
-- The tree of directories when an entry is added to one of them.
use linuse_fs.Base.{
  ℕ, ◌+◌, ◌*◌, ◌^◌, ◌≤◌, ◌<◌, ◌≡◌, ◌≢◌, refl, sym, ap, ◌∙◌, subst, inl, inr, some, List, [], ◌∷◌,
  ◌++◌, arith, length, length-append, ne→==, ==-refl,
}
use linuse_fs.Memory.{load}
use linuse_fs.Platform.{BitArray, Platform}
use linuse_fs.Package.Copies.{IsString}
use linuse_fs.Disk.{Fs, ok, update_block}
use linuse_fs.Node.{Node, get_block_num_from_node_num}
use linuse_fs.Node.Blocks.{IsInRange}
use linuse_fs.Directory.Block.{HoldsEntries, entries_block}
use linuse_fs.Directory.Scan.{IsSmallDirectory}
use linuse_fs.Directory.Update.{add_directory_entry}
use linuse_fs.Directory.Added.{with_entry, with_entry-HoldsEntries, add_directory_entry-with_entry}
use linuse_fs.Directory.Tree.{
  Directory, Directories, HoldsTree, IsSmallDirectory-same, SameNode-refl, HasBlocks,
  HoldsDirectory, HoldsDirectory-same, first_data_block, node_block_of,
}
use linuse_fs.Directory.Erased.{AreDisjoint, IsPending}

-- A directory with an entry more at its end.
abbrev pub with_child : Directory → ℕ → List ℕ → Directory
with_child d num name = record d { entries = d.entries ++ ((num, name) ∷ []) }

module _ ⦃p : Platform⦄ (s : Fs) (node : Node) (num : ℕ) (name : List ℕ) where
  -- The node and the disk behind the addition to a directory with entries `es`.
  abbrev grown : List (ℕ × List ℕ) → Node
  grown es = record node { file_size = 128 * (length es + 1) }

  abbrev added : List (ℕ × List ℕ) → Fs
  added es = record s {
    disk =
        update_block s.disk (entries_block s node)
          (with_entry (s.disk (entries_block s node)) p.garbage (128 * length es) num name);
  }

  added-IsSmallDirectory :
      (es : List (ℕ × List ℕ)) (d : Directory)
      → 0 < length es
      → length es < 31
      → num < 2 ^ 32
      → IsString name
      → length name < 71
      → IsSmallDirectory s node es
      → HasBlocks s node d es
      → (add_directory_entry node name num s ≡ ok (grown es) (added es))
        × IsSmallDirectory (added es) (grown es) (es ++ ((num, name) ∷ []))
        × HasBlocks (added es) (grown es) d (es ++ ((num, name) ∷ []))
        × (entries_block s node ≡ d.entries_at)
        × (first_data_block ≤ d.entries_at)
  added-IsSmallDirectory [] d more few low string short small blocks = absurd (omega arith)
  added-IsSmallDirectory (e ∷ es) d more few low string short small (at0, at1, behind0, behind1) =
      let all = e ∷ es in
      let (here, inside, block_inside, apart, holds) = small.stored in
      let b = entries_block s node in
      let t = added all in
      let pointers : t.disk (node.indirect_pointer_block 0)
          ≡ s.disk (node.indirect_pointer_block 0) =
        rw (ne→== (node.indirect_pointer_block 0) b apart) in
      let same : entries_block t (grown all) ≡ b = ap (λ b. load 4 b 0) pointers in
      let held = with_entry-HoldsEntries all num name (s.disk b) p.garbage holds low string short in
      let content : t.disk (entries_block t (grown all))
          ≡ with_entry (s.disk b) p.garbage (128 * length all) num name =
        rw (same, ==-refl b) in
      let count = length-append all ((num, name) ∷ []) in
      (
        add_directory_entry-with_entry node all num name s small.size few short here inside
            block_inside,
        record {
          state = small.state;
          size = rw count;
          few = omega (arith, count);
          single = small.single;
          stored = (
            here,
            inside,
            rw same block_inside,
            rw same apart,
            subst (λ b. HoldsEntries b 0 (all ++ ((num, name) ∷ []))) (sym content) held,
          );
        },
        (at0, same ∙ at1, behind0, behind1),
        at1,
        behind1,
      )

module _ ⦃p : Platform⦄ where
  -- An entry is added to the directory whose node is in memory.
  pub add_directory_entry-IsPending :
      (s : Fs) (dirs : Directories) (num child : ℕ) (d : Directory) (node : Node) (name : List ℕ)
      → IsPending s dirs num d node
      → AreDisjoint dirs
      → dirs num ≡ some d
      → 0 < length d.entries
      → length d.entries < 31
      → child < 2 ^ 32
      → IsString name
      → length name < 71
      → (node' : Node) × (t : Fs) × (add_directory_entry node name child s ≡ ok node' t)
        × IsPending t dirs num (with_child d child name) node'
        × (t.bitmap ≡ s.bitmap)
  add_directory_entry-IsPending s dirs num child d node name pending disjoint at more few low string
        short =
      let es = d.entries in
      let t = added s node child name es in
      let (run, small, blocks, own_block, behind) =
        added-IsSmallDirectory s node child name es d more few low string short pending.small
          pending.blocks in
      let kept : (b : ℕ) → b ≢ d.entries_at → t.disk b ≡ s.disk b =
        λ b ne. rw (ne→== b (entries_block s node) (λ z. ne (z ∙ own_block))) in
      (
        grown s node child name es,
        t,
        run,
        record {
          inside = pending.inside;
          name = pending.name;
          range = grown-IsInRange node (length es) few pending.range;
          has_name = pending.has_name;
          parent = pending.parent;
          small = small;
          blocks = blocks;
          others = λ o e ne at'.
              let old = pending.others o e ne at' in
              let (apart0, apart1) = disjoint num o d e (λ z. ne (sym z)) at at' behind in
              let e' = node_block_of o old.inside in
              HoldsDirectory-same s t o e
                (kept (get_block_num_from_node_num o)
                  (λ z. absurd (omega (arith, z, e', old.inside, behind))))
                (λ b behind own.
                  kept b
                    (λ z. elim own [ inl q ↦ apart0 (sym z ∙ q) | inr q ↦ apart1 (sym z ∙ q) ]))
                old;
        },
        refl,
      )
    where
      grown-IsInRange :
          (n : Node) (count : ℕ)
          → count < 31
          → IsInRange n
          → IsInRange (record n { file_size = 128 * (count + 1) })
      grown-IsInRange n count few r = record {
        state = r.state;
        parent_block = r.parent_block;
        file_size = omega arith;
        creation_date = r.creation_date;
        modification_date = r.modification_date;
        pointers = r.pointers;
      }

  -- A directory of the tree whose node is read.
  pub HoldsTree-IsPending :
      (s : Fs) (dirs : Directories) (num : ℕ) (d : Directory)
      → HoldsTree s dirs
      → (holds : HoldsDirectory s num d) → IsPending s dirs num d holds.node
  HoldsTree-IsPending s dirs num d tree holds = record {
    inside = holds.inside;
    name = holds.name;
    range = holds.range;
    has_name = holds.has_name;
    parent = holds.parent;
    small = holds.small;
    blocks = holds.blocks;
    others = λ o e ne at. tree o e at;
  }

  -- The bits of the bitmap do not matter.
  pub IsPending-bitmap :
      (s : Fs) (b : BitArray) (dirs : Directories) (num : ℕ) (d : Directory) (node : Node)
      → IsPending s dirs num d node
      → IsPending (record s { bitmap = b }) dirs num d node
  IsPending-bitmap s b dirs num d node pending =
      let t : Fs = record s { bitmap = b } in
      let (small, blocks) =
        IsSmallDirectory-same s t node node d d.entries (SameNode-refl node) pending.blocks
          (λ b behind own. refl) pending.small in
      record {
        inside = pending.inside;
        name = pending.name;
        range = pending.range;
        has_name = pending.has_name;
        parent = pending.parent;
        small = small;
        blocks = blocks;
        others = λ o e ne at.
            HoldsDirectory-same s t o e refl (λ b behind own. refl) (pending.others o e ne at);
      }
