-- ===== src/Memory/Laws.antt =====
-- What a `memcpy` leaves in memory, and what is read back from it.
use linuse_fs.Base.{
  ℕ, zero, suc, ◌+◌, ◌-◌, ◌/◌, ◌%◌, ◌^◌, ◌≤◌, ◌<◌, ◌≡◌, ◌≢◌, refl, ◌⊎◌, inl, inr, some, List, [],
  ◌∷◌, ap, ◌∙◌, arith, ◌==◌, ne→==, eq→==, length, get_or, All, Bool-cases, Option-cases,
}
use linuse_fs.Memory.{
  Bytes, memcpy, object_bytes, load_from, load, string_bytes, strcpy, read_string,
}
use native.Mathlib.Nat.{pow-suc}

-- Inside the copied range the bytes are the source's.
pub memcpy-inside :
    (dst : Bytes) (at : ℕ) (src : Bytes) (from n i : ℕ)
    → i < n
    → memcpy dst at src from n (at + i) ≡ src (from + i)
unfolding memcpy
memcpy-inside dst at src from n i h =
    let e : at + i - at ≡ i = omega arith in ground (arith, ap (λ j. src (from + j)) e)

-- Outside it they are the old ones.
pub memcpy-outside :
    (dst : Bytes) (at : ℕ) (src : Bytes) (from n i : ℕ)
    → (i < at) ⊎ (at + n ≤ i)
    → memcpy dst at src from n i ≡ dst i
unfolding memcpy
memcpy-outside dst at src from n i h = ground arith

load_from-object :
    (n : ℕ) (b : Bytes) (p k w : ℕ)
    → w < 256 ^ n
    → ((i : ℕ) → i < n → b (p + (k + i)) ≡ object_bytes w i)
    → load_from n b p k ≡ w
unfolding load_from object_bytes
load_from-object zero b p k w hw h = omega arith
load_from-object (suc n) b p k w hw h =
    let first : p + k ≡ p + (k + 0) = omega arith in
    let low : b (p + k) ≡ w % 256 = rw first (h 0 (omega arith)) in
    let rest = load_from-object n b p (suc k) (w / 256) (omega (arith, pow-suc 256 n)) λ i hi.
      let e : p + (suc k + i) ≡ p + (k + suc i) = omega arith in rw e (h (suc i) (omega arith)) in
    omega (arith, low, rest)

-- Equal bytes make equal integers, wherever they stand.
pub load-ext :
    (n : ℕ) (b c : Bytes) (p q k : ℕ)
    → ((i : ℕ) → i < k + n → b (p + i) ≡ c (q + i))
    → load_from n b p k ≡ load_from n c q k
unfolding load_from
load-ext zero b c p q k h = refl
load-ext (suc n) b c p q k h =
    let first : b (p + k) ≡ c (q + k) = h k (omega arith) in
    let rest = load-ext n b c p q (suc k) (λ i hi. h i (omega arith)) in omega (arith, first, rest)

-- An integer is read where its bytes stand.
pub load-object :
    (n : ℕ) (b : Bytes) (p w : ℕ)
    → w < 256 ^ n
    → ((i : ℕ) → i < n → b (p + i) ≡ object_bytes w i)
    → load n b p ≡ w
unfolding load
load-object n b p w hw h =
    load_from-object n b p 0 w hw λ i hi. let e : p + (0 + i) ≡ p + i = omega arith in rw e (h i hi)

-- An integer is read back where its bytes were copied to.
pub load-memcpy :
    (n : ℕ) (dst : Bytes) (p w : ℕ) → w < 256 ^ n → load n (memcpy dst p (object_bytes w) 0 n) p ≡ w
unfolding load
load-memcpy n dst p w hw = load_from-object n _ p 0 w hw λ i hi.
    let e : p + (0 + i) ≡ p + i = omega arith in
    let z : 0 + i ≡ i = omega arith in
    rw e (memcpy-inside dst p (object_bytes w) 0 n i hi ∙ ap (object_bytes w) z)

-- An integer is not changed by a copy to another place.
pub load-memcpy_ne :
    (n : ℕ) (dst : Bytes) (at : ℕ) (src : Bytes) (from m p : ℕ)
    → (p + n ≤ at) ⊎ (at + m ≤ p)
    → load n (memcpy dst at src from m) p ≡ load n dst p
unfolding load
load-memcpy_ne n dst at src from m p h =
    load-ext n _ dst p p 0 λ i hi. memcpy-outside dst at src from m (p + i) (omega arith)

-- A string is read back where it was copied to with its terminator.
pub read_string-eq :
    (s : List ℕ) (n : ℕ) (b : Bytes) (p : ℕ)
    → All (λ c. c ≢ 0) s
    → length s < n
    → ((i : ℕ) → i ≤ length s → b (p + i) ≡ get_or s i 0)
    → read_string n b p ≡ some s
unfolding read_string
read_string-eq s zero b p hs hn h = absurd (omega arith)
read_string-eq [] (suc n) b p hs hn h =
    let e : p + 0 ≡ p = omega arith in rw (eq→== (b p) 0 (rw e at (h 0 (omega arith))))
read_string-eq (c ∷ s) (suc n) b p (hc, hs) hn h =
    let e : p + 0 ≡ p = omega arith in
    let first : b p ≡ c = rw e at (h 0 (omega arith)) in
    let rest =
      read_string-eq s n b (p + 1) hs (omega arith)
        λ i hi. let e : p + 1 + i ≡ p + suc i = omega arith in rw e (h (suc i) (omega arith)) in
    rw (ne→== (b p) 0 (λ z. hc (omega (arith, first, z))), first, rest)

pub read_string-ext :
    (n : ℕ) (b c : Bytes) (p q : ℕ)
    → ((i : ℕ) → i < n → b (p + i) ≡ c (q + i))
    → read_string n b p ≡ read_string n c q
unfolding read_string
read_string-ext zero b c p q h = refl
read_string-ext (suc n) b c p q h =
    let e : p + 0 ≡ p = omega arith in
    let e' : q + 0 ≡ q = omega arith in
    let first : b p ≡ c q = rw (e, e') at (h 0 (omega arith)) in
    let rest = read_string-ext n b c (p + 1) (q + 1) λ i hi.
      let f : p + 1 + i ≡ p + suc i = omega arith in
      let f' : q + 1 + i ≡ q + suc i = omega arith in rw (f, f') (h (suc i) (omega arith)) in
    rw (first, rest)

-- A string that was read has no 0 in it, and its terminator stood in the bytes that were read.
pub read_string-IsString :
    (n : ℕ) (b : Bytes) (p : ℕ) (s : List ℕ)
    → read_string n b p ≡ some s
    → All (λ c. c ≢ 0) s × (length s < n)
unfolding read_string
read_string-IsString zero b p s h = cc
read_string-IsString (suc n) b p s h = elim (Bool-cases (b p == 0)) [
  | inl z ↦ let e : [] ≡ s = cc (rw z at h) in rw (← e) (tt, omega arith)
  | inr c ↦ elim (Option-cases (read_string n b (p + 1))) [
    | inl e ↦ absurd (cc (rw (c, e) at h))
    | inr (r, e) ↦
        let ih = read_string-IsString n b (p + 1) r e in
        let e' : b p ∷ r ≡ s = cc (rw (c, e) at h) in
        rw (← e') ((λ z. cc (c, eq→== (b p) 0 z), ih.0), omega (arith, ih.1))
  ]
]

-- `strcpy` into an array, and the string read back.
pub read_string-strcpy :
    (n : ℕ) (dst : Bytes) (s : List ℕ)
    → All (λ c. c ≢ 0) s
    → length s < n
    → read_string n (strcpy dst s) 0 ≡ some s
unfolding strcpy
read_string-strcpy n dst s hs hn = read_string-eq s n _ 0 hs hn λ i hi.
    memcpy-inside dst 0 (string_bytes s) 0 (length s + 1) i (omega arith)
    ∙ unfold string_bytes in ap (λ k. get_or s k 0) (omega arith)
