-- ===== src/Directory/Found.antt =====
-- The search for a name in a directory with one data block: which entry the iteration ends with.
use linuse_fs.Base.{
  ℕ, suc, ◌+◌, ◌-◌, ◌*◌, ◌^◌, ◌<◌, ◌≡◌, ◌≢◌, refl, ◌∙◌, inl, inr, true, false, none, List, [], ◌∷◌,
  ◌++◌, arith, length, str_eq, str_eq_refl, length-append, Bool-cases,
}
use linuse_fs.Disk.{Fs, ok}
use linuse_fs.Node.{Node, u32}
use linuse_fs.Directory.Entry.{
  DirEntry, invalid_entry, is_valid_entry, with_byte_num, with_block_num, with_pointer_block_num,
}
use linuse_fs.Directory.Iterate.{find_entry, get_entry, iterate_pointers_blocks}
use linuse_fs.Directory.Block.{lookup, entries_block, number_of, valid-ne}
use linuse_fs.Directory.Scan.{
  entry_of, IsSmallDirectory, scan, placed, iterate_pointers_blocks-scan,
  iterate_pointers_blocks-empty,
}
use linuse_fs.Directory.Entries.{lookup-cases}

module _ (name : List ℕ) where
  scan-valid :
      (es : List (ℕ × List ℕ)) (k : ℕ) (e : DirEntry)
      → is_valid_entry e ≡ true
      → scan (find_entry name) es k e tt ≡ (with_byte_num e (u32 (k + 2 ^ 32 - 128)), tt)
  unfolding scan
  scan-valid [] k e valid = refl
  scan-valid ((num, entry_name) ∷ es) k e valid = rw valid

  pub scan-absent :
      (es : List (ℕ × List ℕ)) (k : ℕ)
      → lookup name es ≡ none
      → is_valid_entry (scan (find_entry name) es k invalid_entry tt).0 ≡ false
  unfolding scan find_entry with_byte_num
  scan-absent [] k absent = refl
  scan-absent ((num, entry_name) ∷ es) k absent = elim (Bool-cases (str_eq entry_name name)) [
    | inl same ↦ absurd (cc (rw same at absent))
    | inr other ↦ rw other (scan-absent es (k + 128) (rw other at absent))
  ]

  scan-found :
      (before after : List (ℕ × List ℕ)) (num k : ℕ)
      → name ≢ []
      → lookup name before ≡ none
      → scan (find_entry name) (before ++ ((num, name) ∷ after)) k invalid_entry tt ≡ (
        with_byte_num (entry_of num name) (u32 (k + 128 * length before + 128 + 2 ^ 32 - 128)),
        tt,
      )
  unfolding scan find_entry
  scan-found [] after num k named earlier =
      let e : k + 128 * 0 ≡ k = omega arith in
      rw (str_eq_refl name, e)
        (scan-valid after (k + 128) (entry_of num name) (valid-ne (entry_of num name) named))
  scan-found ((n, entry_name) ∷ before) after num k named earlier =
      let e : k + 128 * suc (length before) ≡ k + 128 + 128 * length before = omega arith in
      elim (Bool-cases (str_eq entry_name name)) [
        | inl same ↦ absurd (cc (rw same at earlier))
        | inr other ↦
            rw (other, e) (scan-found before after num (k + 128) named (rw other at earlier))
      ]

module _ (name : List ℕ) (named : name ≢ []) (s : Fs) (node : Node) where
  -- The iteration, for a list that is not empty.
  iterate_pointers_blocks-more :
      (es : List (ℕ × List ℕ))
      → 0 < length es
      → IsSmallDirectory s node es
      → iterate_pointers_blocks (find_entry name) node tt s
        ≡ ok
            (placed
              (find_entry name)
              (entries_block s node)
              (scan (find_entry name) es 0 invalid_entry tt))
            s
  iterate_pointers_blocks-more [] h small = absurd (omega arith)
  iterate_pointers_blocks-more (e ∷ es) h small =
      iterate_pointers_blocks-scan (find_entry name) s node e es tt small

  pub iterate_pointers_blocks-first :
      (before after : List (ℕ × List ℕ)) (num : ℕ)
      → lookup name before ≡ none
      → IsSmallDirectory s node (before ++ ((num, name) ∷ after))
      → iterate_pointers_blocks (find_entry name) node tt s
        ≡ ok
            (placed (find_entry name) (entries_block s node) (
              with_byte_num (entry_of num name) (u32 (128 * length before + 128 + 2 ^ 32 - 128)),
              tt,
            ))
            s
  iterate_pointers_blocks-first before after num earlier whole =
      let count = length-append before ((num, name) ∷ after) in
      let z : 0 + 128 * length before ≡ 128 * length before = omega arith in
      iterate_pointers_blocks-more (before ++ ((num, name) ∷ after)) (omega (arith, count)) whole
      ∙ rw (scan-found name before after num 0 named earlier, z) refl

  iterate_pointers_blocks-absent :
      (es : List (ℕ × List ℕ))
      → lookup name es ≡ none
      → IsSmallDirectory s node es
      → (e : DirEntry) × (iterate_pointers_blocks (find_entry name) node tt s ≡ ok (e, tt) s)
        × (is_valid_entry e ≡ false)
  unfolding with_pointer_block_num with_block_num
  iterate_pointers_blocks-absent [] absent small =
      (_, iterate_pointers_blocks-empty (find_entry name) s node tt small, refl)
  iterate_pointers_blocks-absent (e ∷ es) absent small = (
    (placed (find_entry name) (entries_block s node)
        (scan (find_entry name) (e ∷ es) 0 invalid_entry tt)).0,
    iterate_pointers_blocks-scan (find_entry name) s node e es tt small,
    scan-absent name (e ∷ es) 0 absent,
  )

  -- The search in a directory with fewer than 32 entries, an empty one included, gives an entry with
  -- the name and the node number of the first one, or an invalid entry if none has the name.
  pub get_entry-small :
      (es : List (ℕ × List ℕ))
      → IsSmallDirectory s node es
      → (e : DirEntry) × (get_entry node name s ≡ ok e s)
        × (number_of e ≡ lookup name es)
        × (is_valid_entry e ≡ true → e.name ≡ name)
  unfolding get_entry with_byte_num with_pointer_block_num with_block_num
  get_entry-small es small = elim (lookup-cases name es) [
    | inl (absent, same) ↦
        let (e, run, invalid) = iterate_pointers_blocks-absent es absent small in
        (e, rw run refl, rw (invalid, absent) refl, λ v. cc (v, invalid))
    | inr (before, num, after, first) ↦
        let valid = valid-ne (entry_of num name) named in
        let byte = u32 (128 * length before + 128 + 2 ^ 32 - 128) in
        (
          (placed (find_entry name) (entries_block s node)
              (with_byte_num (entry_of num name) byte, tt)).0,
          rw
              (iterate_pointers_blocks-first before after num first.earlier
                (rw (← first.parts) small))
              refl,
          rw (valid, first.found) refl,
          λ v. refl,
        )
  ]
