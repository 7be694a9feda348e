-- ===== src/Bitmap/Alloc.antt =====
-- The allocation of blocks: which block is handed out, and when the code exits or leaves the bitmap.
use linuse_fs.Base.{
  ℕ, zero, suc, ◌+◌, ◌-◌, ◌*◌, ◌≤◌, ◌<◌, ◌≡◌, refl, sym, inl, inr, true, false, none, some, arith,
  ltb, ◌==◌, if◌then◌else◌, Bool-cases, ltb→lt, lt→ltb, ltb→le, le→leb, lt→leb, ==→eq,
}
use linuse_fs.Platform.{BitArray, Platform, BitLaws}
use linuse_fs.Disk.{Fs, ok, exited, fault, ◌>>=◌}
use linuse_fs.Bitmap.{free_block, scan_free, reserve, get_free_block}

module _ ⦃p : Platform⦄ where
  -- All blocks of a range are in use.
  abbrev pub AllUsed : BitArray → ℕ → ℕ → Type 0
  AllUsed b lo hi = (i : ℕ) → lo ≤ i → i < hi → p.test_bit b i ≡ true

  -- `i` is the first free block from `lo` on.
  abbrev pub IsFirstFree : BitArray → ℕ → ℕ → Type 0
  IsFirstFree b lo i = (lo ≤ i) × (p.test_bit b i ≡ false) × AllUsed b lo i

  AllUsed-step :
      (b : BitArray) (lo hi : ℕ) → p.test_bit b lo ≡ true → AllUsed b (lo + 1) hi → AllUsed b lo hi
  AllUsed-step b lo hi used rest i h k = elim (Bool-cases (i == lo)) [
    | inl e ↦ let e' : i ≡ lo = ==→eq i lo e in rw e' used
    | inr n ↦ rest i (ground arith) k
  ]

  scan_free-some :
      (left : ℕ) (b : BitArray) (lo i : ℕ)
      → lo ≤ i
      → i < lo + left
      → p.test_bit b i ≡ false
      → AllUsed b lo i
      → scan_free left b lo ≡ some i
  unfolding scan_free
  scan_free-some zero b lo i h k free used = absurd (omega arith)
  scan_free-some (suc left) b lo i h k free used = elim (Bool-cases (i == lo)) [
    | inl e ↦ let e' : lo ≡ i = sym (==→eq i lo e) in rw (e', free)
    | inr n ↦
        let ne : lo < i = ground arith in
        rw (used lo (omega arith) ne) (
          scan_free-some left b (lo + 1) i (omega arith) (omega arith) free
            λ j hj kj. used j (omega arith) kj)
  ]

  scan_free-none :
      (left : ℕ) (b : BitArray) (lo : ℕ) → AllUsed b lo (lo + left) → scan_free left b lo ≡ none
  unfolding scan_free
  scan_free-none zero b lo used = refl
  scan_free-none (suc left) b lo used =
      rw (used lo (omega arith) (omega arith))
        (scan_free-none left b (lo + 1) λ j hj kj. used j (omega arith) (omega arith))

  -- The bits after a reservation of block `i`.
  abbrev pub IsMarked : BitArray → ℕ → BitArray → Type 0
  IsMarked b i b' =
      (b'.size ≡ b.size)
      × ((j : ℕ) → j < 8 * b.size → p.test_bit b' j ≡ (if i == j then true else p.test_bit b j))

  -- Given the laws of the bit arrays, and a range that lies in the bitmap and has a free block:
  -- the first free one is handed out, its bit is set, and no other bit, and no block of the
  -- disk, changes.
  pub get_free_block_lem :
      (laws : BitLaws p) (lo hi i : ℕ) (s : Fs)
      → IsFirstFree s.bitmap lo i
      → i < hi
      → hi ≤ 8 * s.bitmap.size
      → (b' : BitArray) × (get_free_block lo hi s ≡ ok i (record s { bitmap = b' }))
        × IsMarked s.bitmap i b'
  unfolding get_free_block reserve
  get_free_block_lem laws lo hi i s (le, free, used) h k = (
    p.set_bit s.bitmap i,
    rw (
      scan_free-some (8 * s.bitmap.size - lo) s.bitmap lo i le (omega arith) free used,
      lt→leb hi i h,
    ),
    (laws.size-set_bit s.bitmap i, λ j hj. laws.test_bit-set_bit s.bitmap i j (omega arith) hj),
  )

  -- With no free block in the range, but one behind it in the bitmap, the process exits and
  -- changes nothing.
  pub get_free_block_exits :
      (lo hi i : ℕ) (s : Fs)
      → AllUsed s.bitmap lo hi
      → IsFirstFree s.bitmap lo i
      → i < 8 * s.bitmap.size
      → get_free_block lo hi s ≡ exited s
  unfolding get_free_block reserve
  get_free_block_exits lo hi i s used (le, free, before) k = rw (
    scan_free-some (8 * s.bitmap.size - lo) s.bitmap lo i le (omega arith) free before,
    le→leb hi i past,
  )
    where
      past : hi ≤ i
      past = elim (Bool-cases (ltb i hi)) [
        | inl e ↦ absurd (cc (used i le (ltb→lt i hi e), free))
        | inr e ↦ ltb→le i hi e
      ]

  -- With no free block from the start of the range, which is in the bitmap or at its end, to
  -- the end of the bitmap, the search reads behind the bitmap.
  pub get_free_block_overruns :
      (lo hi : ℕ) (s : Fs)
      → lo ≤ 8 * s.bitmap.size
      → AllUsed s.bitmap lo (8 * s.bitmap.size)
      → get_free_block lo hi s ≡ fault
  unfolding get_free_block reserve
  get_free_block_overruns lo hi s k all =
      rw (scan_free-none (8 * s.bitmap.size - lo) s.bitmap lo λ i hi' ki. all i hi' (omega arith))

  -- Given the laws of the bit arrays, and a range that lies in the bitmap and has a free block:
  -- a block that is given back right after it was handed out leaves every bit as it was.
  pub free_block-get_free_block :
      (laws : BitLaws p) (lo hi i : ℕ) (s : Fs)
      → IsFirstFree s.bitmap lo i
      → i < hi
      → hi ≤ 8 * s.bitmap.size
      → (b' : BitArray) × ((get_free_block lo hi >>= free_block) s
          ≡ ok tt (record s { bitmap = b' }))
        × ((j : ℕ) → j < 8 * s.bitmap.size → p.test_bit b' j ≡ p.test_bit s.bitmap j)
  unfolding free_block
  free_block-get_free_block laws lo hi i s first h k =
      let (b, taken, mark) = get_free_block_lem laws lo hi i s first h k in
      let same_size = mark.0 in
      let marked = mark.1 in
      (
        p.clean_bit b i,
        rw (taken, lt→ltb i (8 * b.size) (omega (arith, same_size))),
        λ j hj.
            let cleaned =
              laws.test_bit-clean_bit b i j (omega (arith, same_size)) (omega (arith, same_size)) in
            let free = first.1 in
            elim (Bool-cases (i == j)) [
              | inl e ↦ let e' : i ≡ j = ==→eq i j e in rw (cleaned, e) (rw (← e') (sym free))
              | inr n ↦ rw (cleaned, n, marked j hj, n)
            ],
      )
