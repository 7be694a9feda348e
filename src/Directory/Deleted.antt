-- ===== src/Directory/Deleted.antt =====
-- sac-fs/src/directory.c: an entry taken out of a directory with one data block.
use linuse_fs.Base.{
  ℕ, suc, ◌+◌, ◌-◌, ◌*◌, ◌^◌, ◌<◌, ◌≡◌, ◌≢◌, refl, sym, ap, subst, ◌⊎◌, inl, inr, false, none, List,
  [], ◌∷◌, ◌++◌, arith, length, if◌then◌else◌, length-append, Bool-cases, ne→==, ==-refl, lt→ltb,
  ◌==◌,
}
use linuse_fs.Memory.{load}
use linuse_fs.Disk.{block_size, total_blocks, dir_entry_size, Fs, ok, update_block, write_block}
use linuse_fs.Node.{Node, u32, set_pointer, update_pointer}
use linuse_fs.Directory.Entry.{with_byte_num, with_block_num, with_pointer_block_num}
use linuse_fs.Directory.Iterate.{find_entry, iterate_pointers_blocks}
use linuse_fs.Directory.Update.{close_gap, delete_directory_entry}
use linuse_fs.Directory.Block.{lookup, HoldsEntries, entries_block, valid-ne}
use linuse_fs.Directory.Scan.{
  entry_of, Stored, IsSmallDirectory, placed, iterate_pointers_blocks-scan,
  iterate_pointers_blocks-empty,
}
use linuse_fs.Directory.Found.{scan-absent, iterate_pointers_blocks-first}
use linuse_fs.Directory.Entries.{erase, IsFirst, lookup-cases, HoldsEntries-close_gap}

-- What is stored for a directory with one entry or more.
Stored-elim :
    (s : Fs) (node : Node) (es : List (ℕ × List ℕ))
    → 0 < length es
    → Stored s node es
    → (node.indirect_pointer_block 0 ≢ 0)
      × (node.indirect_pointer_block 0 < total_blocks)
      × (entries_block s node < total_blocks)
      × (node.indirect_pointer_block 0 ≢ entries_block s node)
      × HoldsEntries (s.disk (entries_block s node)) 0 es
Stored-elim s node [] h stored = absurd (omega arith)
Stored-elim s node (e ∷ es) h stored = stored

-- The fields that the deletion of an entry leaves, but for pointers that it sets to 0.
pub record KeepsNode (node node' : Node) : Type 0 where
  pub file_name : node'.file_name ≡ node.file_name
  pub parent_block : node'.parent_block ≡ node.parent_block
  pub creation_date : node'.creation_date ≡ node.creation_date
  pub modification_date : node'.modification_date ≡ node.modification_date
  pub pointers :
      (i : ℕ)
      → (node'.indirect_pointer_block i ≡ node.indirect_pointer_block i)
        ⊎ (node'.indirect_pointer_block i ≡ 0)

-- The node of a directory from which one of its entries was deleted.
abbrev shortened : Node → List (ℕ × List ℕ) → Node
shortened node rest =
    let node' : Node = record node { file_size = 128 * length rest } in
    if 128 * length rest == 0
    then record node' { indirect_pointer_block = update_pointer node.indirect_pointer_block 0 0 }
    else node'

module _ (name : List ℕ) (named : name ≢ []) (s : Fs) (node : Node) where
  -- The disk with the entry at byte `k` taken out.
  abbrev without_entry : ℕ → Fs
  without_entry k = record s {
    disk = update_block s.disk (entries_block s node) (close_gap k (s.disk (entries_block s node)));
  }

  delete_directory_entry-iterate :
      (k num : ℕ) (rest : List (ℕ × List ℕ))
      → k < block_size
      → node.file_size ≡ 128 * suc (length rest)
      → length rest < 31
      → entries_block s node < total_blocks
      → iterate_pointers_blocks (find_entry name) node tt s
        ≡ ok
            (placed
              (find_entry name)
              (entries_block s node)
              (with_byte_num (entry_of num name) (u32 (k + 128 + 2 ^ 32 - 128)), tt))
            s
      → delete_directory_entry node name s ≡ ok (shortened node rest) (without_entry k)
  unfolding delete_directory_entry with_pointer_block_num with_block_num with_byte_num write_block
      set_pointer
  delete_directory_entry-iterate k num rest hk size few inside run =
      let byte : u32 (k + 128 + 2 ^ 32 - 128) ≡ k = omega arith in
      let shrunk : u32 (node.file_size + 2 ^ 32 - dir_entry_size) ≡ 128 * length rest =
        omega arith in
      elim (Bool-cases (128 * length rest == 0)) [
        | inl e ↦
            rw (
              run,
              valid-ne (entry_of num name) named,
              lt→ltb _ total_blocks inside,
              byte,
              shrunk,
              e,
            )
        | inr e ↦
            rw (
              run,
              valid-ne (entry_of num name) named,
              lt→ltb _ total_blocks inside,
              byte,
              shrunk,
              e,
            )
      ]

  KeepsNode-refl : KeepsNode node node
  KeepsNode-refl = record {
    file_name = refl;
    parent_block = refl;
    creation_date = refl;
    modification_date = refl;
    pointers = λ i. inl refl;
  }

  shortened-KeepsNode : (rest : List (ℕ × List ℕ)) → KeepsNode node (shortened node rest)
  shortened-KeepsNode rest = elim (Bool-cases (128 * length rest == 0)) [
    | inl e ↦ rw e (record {
      file_name = refl;
      parent_block = refl;
      creation_date = refl;
      modification_date = refl;
      pointers =
          λ i. elim (Bool-cases (i == 0)) [ inl z ↦ inr (rw z refl) | inr z ↦ inl (rw z refl) ];
    })
    | inr e ↦ rw e (record {
      file_name = refl;
      parent_block = refl;
      creation_date = refl;
      modification_date = refl;
      pointers = λ i. inl refl;
    })
  ]

  shortened-IsSmallDirectory :
      (rest : List (ℕ × List ℕ)) (k : ℕ)
      → node.state ≡ 2
      → length rest < 32
      → node.indirect_pointer_block 1 ≡ 0
      → node.indirect_pointer_block 0 ≢ 0
      → node.indirect_pointer_block 0 < total_blocks
      → entries_block s node < total_blocks
      → node.indirect_pointer_block 0 ≢ entries_block s node
      → HoldsEntries (close_gap k (s.disk (entries_block s node))) 0 rest
      → IsSmallDirectory (without_entry k) (shortened node rest) rest
  shortened-IsSmallDirectory [] k state few single here inside block_inside apart holds = record {
    state = state;
    size = refl;
    few = few;
    single = single;
    stored = refl;
  }
  shortened-IsSmallDirectory (e ∷ rest) k state few single here inside block_inside apart holds =
      let more : (128 * suc (length rest) == 0) ≡ false = ground arith in
      let d = entries_block s node in
      let pointers : (without_entry k).disk (node.indirect_pointer_block 0)
          ≡ s.disk (node.indirect_pointer_block 0) =
        rw (ne→== (node.indirect_pointer_block 0) d apart) in
      let same : entries_block (without_entry k) node ≡ d = ap (λ b. load 4 b 0) pointers in
      let changed : (without_entry k).disk (entries_block (without_entry k) node)
          ≡ close_gap k (s.disk d) =
        rw (same, ==-refl d) in
      rw more (record {
        state = state;
        size = refl;
        few = few;
        single = single;
        stored = (
          here,
          inside,
          rw same block_inside,
          rw same apart,
          subst (λ b. HoldsEntries b 0 (e ∷ rest)) (sym changed) holds,
        );
      })

  -- A name that no entry has.
  delete_directory_entry-absent :
      (es : List (ℕ × List ℕ))
      → lookup name es ≡ none
      → IsSmallDirectory s node es
      → delete_directory_entry node name s ≡ ok node s
  unfolding delete_directory_entry with_pointer_block_num with_block_num
  delete_directory_entry-absent [] absent small =
      rw (iterate_pointers_blocks-empty (find_entry name) s node tt small)
  delete_directory_entry-absent (e ∷ es) absent small = rw (
    iterate_pointers_blocks-scan (find_entry name) s node e es tt small,
    scan-absent name (e ∷ es) 0 absent,
  )

  IsFirst-IsSmallDirectory :
      (es before after : List (ℕ × List ℕ)) (num : ℕ)
      → IsFirst name es before num after
      → IsSmallDirectory s node es
      → IsSmallDirectory s node (before ++ ((num, name) ∷ after))
  IsFirst-IsSmallDirectory es before after num first small = rw (← first.parts) small

  -- When a name that is not empty is deleted from a directory with fewer than 32 entries, the entries
  -- of the directory are the old ones without the first with the name, in their order, or all
  -- of them if none has it. Only the directory's data block changes on the disk. The node keeps its
  -- name, its parent and its dates, and its pointers but for those set to 0. The bitmap stays: the
  -- blocks of a directory that is empty then are not given back.
  pub delete_directory_entry-erase :
      (es : List (ℕ × List ℕ))
      → IsSmallDirectory s node es
      → (node' : Node) × (t : Fs) × (delete_directory_entry node name s ≡ ok node' t)
        × IsSmallDirectory t node' (erase name es)
        × KeepsNode node node'
        × (t.bitmap ≡ s.bitmap)
        × ((b : ℕ) → b ≢ entries_block s node → t.disk b ≡ s.disk b)
  delete_directory_entry-erase es small = elim (lookup-cases name es) [
    | inl (absent, same) ↦ (
      node,
      s,
      delete_directory_entry-absent es absent small,
      rw same small,
      KeepsNode-refl,
      refl,
      λ b ne. refl,
    )
    | inr (before, num, after, first) ↦
        let k = 128 * length before in
        let rest = before ++ after in
        let count = length-append before ((num, name) ∷ after) in
        let count' = length-append before after in
        let whole = IsFirst-IsSmallDirectory es before after num first small in
        let (here, inside, block_inside, apart, holds) =
          Stored-elim s node (before ++ ((num, name) ∷ after)) (omega (arith, count))
            whole.stored in
        let few = whole.few in
        let size = whole.size in
        (
          shortened node rest,
          without_entry k,
          delete_directory_entry-iterate k num rest (omega (arith, count))
              (omega (arith, count, count')) (omega (arith, count, count')) block_inside
              (iterate_pointers_blocks-first name named s node before after num first.earlier
                whole),
          rw first.rest (
              shortened-IsSmallDirectory rest k whole.state (omega (arith, count, count'))
                whole.single here inside block_inside apart
                (HoldsEntries-close_gap before after (num, name) (s.disk (entries_block s node))
                  (omega arith) holds)),
          shortened-KeepsNode rest,
          refl,
          λ b ne. rw (ne→== b (entries_block s node) ne),
        )
  ]
