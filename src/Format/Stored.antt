-- ===== src/Format/Stored.antt =====
-- sac-fs/src/utils.c and sac.c: the bitmap stored in its block and loaded from there.
use linuse_fs.Base.{
  ℕ, zero, suc, ◌+◌, ◌-◌, ◌*◌, ◌≤◌, ◌<◌, ◌≡◌, ◌≢◌, refl, ap, sym, ◌∙◌, ◌⊎◌, inl, inr, arith, ltb,
  ◌==◌, lt→ltb, ne→==, Bool-cases, ==→eq,
}
use linuse_fs.Memory.{Bytes, memcpy}
use linuse_fs.Memory.Laws.{memcpy-outside}
use linuse_fs.Platform.{BitArray, Platform, BitLaws}
use linuse_fs.Disk.{
  block_size, bitmap_size, bitmap_initial_block, update_block, Fs, ok, pure, and_then, read_block,
  write_block,
}
use linuse_fs.Format.{
  next_block_num, store_loop, bitmap_to_block, load_loop, block_to_bitmap, load_bitmap,
  unmap_bitmap,
}

next_block_num-same : (i n : ℕ) → i < block_size → next_block_num i n ≡ n
unfolding next_block_num
next_block_num-same i n h = ground arith

-- One byte is copied.
memcpy-byte_self : (dst src : Bytes) (i : ℕ) → memcpy dst i src i 1 i ≡ src i
unfolding memcpy
memcpy-byte_self dst src i = let e : i + (i - i) ≡ i = omega arith in ground (arith, ap src e)

memcpy-byte_ne : (dst src : Bytes) (i k : ℕ) → k ≢ i → memcpy dst i src i 1 k ≡ dst k
memcpy-byte_ne dst src i k ne = memcpy-outside dst i src i 1 k (apart k i ne)
  where
    apart : (k i : ℕ) → k ≢ i → (k < i) ⊎ (i + 1 ≤ k)
    apart k i ne = elim (Bool-cases (ltb k i)) [
      | inl e ↦ inl (ground arith)
      | inr e ↦ inr (ground arith)
    ]

-- The bytes of the bit array from `i` to `i + left` stand in the block of the bitmap, the others of
-- the disk are as they were.
record IsStored (b : BitArray) (i left : ℕ) (s t : Fs) : Type 0 where
  inside : (k : ℕ) → i ≤ k → k < i + left → t.disk bitmap_initial_block k ≡ b.bitarray k
  outside :
      (k : ℕ)
      → (k < i) ⊎ (i + left ≤ k)
      → t.disk bitmap_initial_block k ≡ s.disk bitmap_initial_block k
  others : (n : ℕ) → n ≢ bitmap_initial_block → t.disk n ≡ s.disk n
  bitmap : t.bitmap ≡ s.bitmap

store_loop-IsStored :
    (left : ℕ) (b : BitArray) (i : ℕ) (s : Fs)
    → i + left ≤ block_size
    → (t : Fs) × (store_loop left b i 0 s ≡ ok tt t) × IsStored b i left s t
unfolding store_loop write_block
store_loop-IsStored zero b i s room = (
  s,
  refl,
  record {
    inside = λ k h h'. absurd (omega arith);
    outside = λ k h. refl;
    others = λ n h. refl;
    bitmap = refl;
  },
)
store_loop-IsStored (suc left) b i s room =
    let copied = memcpy (s.disk bitmap_initial_block) i b.bitarray i 1 in
    let u : Fs = record s { disk = update_block s.disk bitmap_initial_block copied } in
    let (t, run, stored) = store_loop-IsStored left b (i + 1) u (omega arith) in
    (
      t,
      rw (lt→ltb i block_size (omega arith), next_block_num-same i 0 (omega arith)) run,
      record {
        inside = λ k h h'. elim (Bool-cases (k == i)) [
          | inl e ↦
              let same : k ≡ i = ==→eq k i e in
              stored.outside k (inl (omega (arith, same)))
              ∙ rw same (memcpy-byte_self (s.disk bitmap_initial_block) b.bitarray i)
          | inr e ↦ stored.inside k (ground arith) (omega arith)
        ];
        outside = λ k h.
            stored.outside k (widen k i left h)
            ∙ memcpy-byte_ne (s.disk bitmap_initial_block) b.bitarray i k
                (λ z. absurd (omega arith));
        others = λ n ne. stored.others n ne ∙ rw (ne→== n bitmap_initial_block ne);
        bitmap = stored.bitmap;
      },
    )
  where
    widen : (k i left : ℕ) → (k < i) ⊎ (i + suc left ≤ k) → (k < i + 1) ⊎ (i + 1 + left ≤ k)
    widen k i left (inl h) = inl (omega arith)
    widen k i left (inr h) = inr (omega arith)

load_loop-loaded :
    (left : ℕ) (a : Bytes) (i : ℕ) (s : Fs)
    → i + left ≤ block_size
    → (a' : Bytes) × (load_loop left a i 0 s ≡ ok a' s)
      × ((k : ℕ) → i ≤ k → k < i + left → a' k ≡ s.disk bitmap_initial_block k)
      × ((k : ℕ) → k < i → a' k ≡ a k)
unfolding load_loop read_block
load_loop-loaded zero a i s room = (a, refl, λ k h h'. absurd (omega arith), λ k h. refl)
load_loop-loaded (suc left) a i s room =
    let b = s.disk bitmap_initial_block in
    let (a', run, inside, before) =
      load_loop-loaded left (memcpy a i b i 1) (i + 1) s (omega arith) in
    (
      a',
      rw (lt→ltb i block_size (omega arith), next_block_num-same i 0 (omega arith)) run,
      λ k h h'. elim (Bool-cases (k == i)) [
        | inl e ↦
            let same : k ≡ i = ==→eq k i e in
            before k (omega (arith, same)) ∙ rw same (memcpy-byte_self a b i)
        | inr e ↦ inside k (ground arith) (omega arith)
      ],
      λ k h. before k (omega arith) ∙ memcpy-byte_ne a b i k (λ z. absurd (omega arith)),
    )

module _ ⦃p : Platform⦄ where
  block_to_bitmap-loaded :
      (s : Fs)
      → (a : Bytes) × (block_to_bitmap s ≡ ok (record { bitarray = a; size = bitmap_size }) s)
        × ((k : ℕ) → k < bitmap_size → a k ≡ s.disk bitmap_initial_block k)
  unfolding block_to_bitmap
  block_to_bitmap-loaded s =
      let (a, run, inside, before) = load_loop-loaded bitmap_size p.garbage 0 s (omega arith) in
      (
        a,
        ap (λ r. and_then r (λ a. pure (record { bitarray = a; size = bitmap_size }))) run,
        λ k h. inside k (omega arith) (omega arith),
      )

  -- Given the laws of the bit arrays: when the bitmap, of the size that the disk has, is stored, and
  -- another process, whatever its bitmap held, loads it from that disk, all its bits are those that
  -- were stored. The storing changes no block but the bitmap's, and the loading none.
  pub load_bitmap-unmap_bitmap :
      (laws : BitLaws p) (s : Fs) (old : BitArray)
      → s.bitmap.size ≡ bitmap_size
      → (t u : Fs) × (unmap_bitmap s ≡ ok tt t)
        × (load_bitmap (record t { bitmap = old }) ≡ ok tt u)
        × (u.bitmap.size ≡ s.bitmap.size)
        × ((i : ℕ) → i < 8 * s.bitmap.size → p.test_bit u.bitmap i ≡ p.test_bit s.bitmap i)
        × ((n : ℕ) → n ≢ bitmap_initial_block → t.disk n ≡ s.disk n)
        × (u.disk ≡ t.disk)
  unfolding unmap_bitmap load_bitmap bitmap_to_block
  load_bitmap-unmap_bitmap laws s old size =
      let (t, run, stored) = store_loop-IsStored s.bitmap.size s.bitmap 0 s (omega (arith, size)) in
      let v : Fs = record t { bitmap = old } in
      let (a, run', loaded) = block_to_bitmap-loaded v in
      let b : BitArray = record { bitarray = a; size = bitmap_size } in
      (
        t,
        record v { bitmap = b },
        run,
        ap (λ r. and_then r (λ b s. ok tt (record s { bitmap = b }))) run',
        sym size,
        λ i hi.
            laws.test_bit-ext b s.bitmap i (sym size)
              (λ j hj. loaded j hj ∙ stored.inside j (omega arith) (omega (arith, size)))
              (omega (arith, size)),
        stored.others,
        refl,
      )
