-- ===== src/Directory/Added.antt =====
-- What the search finds in a directory to which an entry was added.
use linuse_fs.Base.{
  ℕ, suc, ◌+◌, ◌*◌, ◌/◌, ◌%◌, ◌^◌, ◌<◌, ◌≡◌, ◌≢◌, sym, ap, ◌∙◌, List, [], ◌∷◌, ◌++◌, arith, some,
  length, length-append, lt→ltb, le→leb, ne→==, ==-refl,
}
use linuse_fs.Memory.{Bytes, memcpy, object_bytes, load, strcpy, read_string}
use linuse_fs.Memory.Laws.{
  memcpy-inside, memcpy-outside, load-memcpy, load-memcpy_ne, load-ext, read_string-ext,
  read_string-strcpy,
}
use linuse_fs.Platform.{Platform}
use linuse_fs.Disk.{total_blocks, block_size, Fs, ok, update_block, read_block, write_block}
use linuse_fs.Node.{Node, u32, pointer_at}
use linuse_fs.Package.Copies.{IsString}
use linuse_fs.Directory.Entry.{DirEntry, get_next_write_position}
use linuse_fs.Directory.Iterate.{get_entry}
use linuse_fs.Directory.Update.{read_next_data_block, add_directory_entry}
use linuse_fs.Directory.Block.{lookup, HoldsEntries, number_of, entries_block}
use linuse_fs.Directory.Lookup.{get_entry-lookup}

HoldsEntries-append :
    (es : List (ℕ × List ℕ)) (num : ℕ) (name : List ℕ) (b c : Bytes) (k : ℕ)
    → HoldsEntries b k es
    → ((i : ℕ) → i < k + 128 * length es → c i ≡ b i)
    → load 4 c (k + 128 * length es) ≡ num
    → read_string 71 c (k + 128 * length es + 4) ≡ some name
    → HoldsEntries c k (es ++ ((num, name) ∷ []))
unfolding load
HoldsEntries-append [] num name b c k holds same e0 e1 =
    let z : k + 128 * 0 ≡ k = omega arith in
    (ap (load 4 c) (sym z) ∙ e0, ap (λ j. read_string 71 c (j + 4)) (sym z) ∙ e1, tt)
HoldsEntries-append ((n, entry_name) ∷ es) num name b c k (h0, h1, holds) same e0 e1 =
    let next : k + 128 * suc (length es) ≡ k + 128 + 128 * length es = omega arith in
    (
      load-ext 4 c b k k 0 (λ i hi. same (k + i) (omega arith)) ∙ h0,
      read_string-ext 71 c b (k + 4) (k + 4) (λ i hi. same (k + 4 + i) (omega arith)) ∙ h1,
      HoldsEntries-append es num name b c (k + 128) holds (λ i hi. same i (omega arith))
          (ap (load 4 c) (sym next) ∙ e0) (ap (λ j. read_string 71 c (j + 4)) (sym next) ∙ e1),
    )

-- The bytes of a block to which an entry was written at `k`.
abbrev pub with_entry : Bytes → Bytes → ℕ → ℕ → List ℕ → Bytes
with_entry b fresh k num name =
    memcpy (memcpy b k (object_bytes num) 0 4) (k + 4) (strcpy fresh name) 0 124

pub with_entry-HoldsEntries :
    (es : List (ℕ × List ℕ)) (num : ℕ) (name : List ℕ) (b fresh : Bytes)
    → HoldsEntries b 0 es
    → num < 2 ^ 32
    → IsString name
    → length name < 71
    → HoldsEntries (with_entry b fresh (128 * length es) num name) 0 (es ++ ((num, name) ∷ []))
with_entry-HoldsEntries es num name b fresh holds small string short =
    let k = 128 * length es in
    let z : 0 + 128 * length es ≡ k = omega arith in
    let numbered = memcpy b k (object_bytes num) 0 4 in
    HoldsEntries-append es num name b (with_entry b fresh k num name) 0 holds
      (λ i hi.
        memcpy-outside numbered (k + 4) (strcpy fresh name) 0 124 i (omega arith)
        ∙ memcpy-outside b k (object_bytes num) 0 4 i (omega arith))
      (rw z (
        load-memcpy_ne 4 numbered (k + 4) (strcpy fresh name) 0 124 k (omega arith)
        ∙ load-memcpy 4 b k num (omega arith)))
      (rw z (
        read_string-ext 71 (with_entry b fresh k num name) (strcpy fresh name) (k + 4) 0
          (λ i hi. memcpy-inside numbered (k + 4) (strcpy fresh name) 0 124 i (omega arith))
        ∙ read_string-strcpy 71 fresh name string short))

module _ ⦃p : Platform⦄ where
  pub add_directory_entry-with_entry :
      (node : Node) (es : List (ℕ × List ℕ)) (num : ℕ) (name : List ℕ) (s : Fs)
      → node.file_size ≡ 128 * length es
      → length es < 31
      → length name < 71
      → node.indirect_pointer_block 0 ≢ 0
      → node.indirect_pointer_block 0 < total_blocks
      → entries_block s node < total_blocks
      → add_directory_entry node name num s
        ≡ ok
            (record node { file_size = 128 * (length es + 1) })
            (record s {
              disk =
                  update_block s.disk (entries_block s node) (
                    with_entry
                      (s.disk (entries_block s node))
                      p.garbage
                      (128 * length es)
                      num
                      name);
            })
  unfolding add_directory_entry get_next_write_position read_next_data_block pointer_at read_block
      write_block
  add_directory_entry-with_entry node es num name s size few short here inside block_inside =
      let q : node.file_size / block_size / 1024 ≡ 0 = omega arith in
      let j : node.file_size / block_size % 1024 ≡ 0 = omega arith in
      let k : node.file_size % block_size ≡ 128 * length es = omega arith in
      let grown : u32 (node.file_size + 128) ≡ 128 * (length es + 1) = omega arith in
      rw (
        lt→ltb (length name) 124 (omega arith),
        q,
        j,
        k,
        ne→== (node.indirect_pointer_block 0) 0 here,
        lt→ltb (node.indirect_pointer_block 0) total_blocks inside,
        le→leb (128 * length es + 128) block_size (omega arith),
        lt→ltb (entries_block s node) total_blocks block_inside,
        grown,
      )

  -- When an entry is added to a directory with one to 30 entries, which changes the directory's data
  -- block alone, the search for each name that is not empty gives the first entry with it among the
  -- old ones and the new one behind them. The directory has one pointers block, both its blocks are
  -- two different ones of the disk, and the new name has fewer than 71 bytes.
  pub get_entry-add_directory_entry :
      (node : Node) (es : List (ℕ × List ℕ)) (num : ℕ) (name : List ℕ) (s : Fs)
      → node.state ≢ 0
      → node.file_size ≡ 128 * length es
      → 0 < length es
      → length es < 31
      → node.indirect_pointer_block 0 ≢ 0
      → node.indirect_pointer_block 1 ≡ 0
      → node.indirect_pointer_block 0 < total_blocks
      → entries_block s node < total_blocks
      → node.indirect_pointer_block 0 ≢ entries_block s node
      → HoldsEntries (s.disk (entries_block s node)) 0 es
      → num < 2 ^ 32
      → IsString name
      → length name < 71
      → (node' : Node) × (t : Fs) × (add_directory_entry node name num s ≡ ok node' t)
        × ((b : ℕ) → b ≢ entries_block s node → t.disk b ≡ s.disk b)
        × ((wanted : List ℕ)
            → wanted ≢ []
            → (e : DirEntry) × (get_entry node' wanted t ≡ ok e t)
              × (number_of e ≡ lookup wanted (es ++ ((num, name) ∷ []))))
  get_entry-add_directory_entry node es num name s used size some_entries few here last inside
        block_inside apart holds small string short =
      let d = entries_block s node in
      let node' : Node = record node { file_size = 128 * (length es + 1) } in
      let t : Fs = record s {
        disk = update_block s.disk d (with_entry (s.disk d) p.garbage (128 * length es) num name);
      } in
      let pointers : t.disk (node.indirect_pointer_block 0)
          ≡ s.disk (node.indirect_pointer_block 0) =
        rw (ne→== (node.indirect_pointer_block 0) d apart) in
      let same : entries_block t node' ≡ d = ap (λ b. load 4 b 0) pointers in
      let held =
        with_entry-HoldsEntries es num name (s.disk d) p.garbage holds small string short in
      let count : length (es ++ ((num, name) ∷ [])) ≡ length es + 1 =
        length-append es ((num, name) ∷ []) in
      (
        node',
        t,
        add_directory_entry-with_entry node es num name s size few short here inside block_inside,
        λ b ne. rw (ne→== b d ne),
        λ wanted wanted-ne.
            get_entry-lookup wanted wanted-ne node' (es ++ ((num, name) ∷ [])) t used (rw count)
              (omega (arith, count)) (omega (arith, count)) here last inside (rw same block_inside)
              (rw (same, ==-refl d) held),
      )
