-- ===== src/Server/Threads/Removal.antt =====
-- `remove_thread_from_actual_threads` of mtserver/src/server.c: what it takes off the list.
use linuse_fs.Base.{
  ℕ, zero, suc, ◌≤◌, ◌<◌, ◌≡◌, refl, sym, ap, ◌∙◌, List, [], ◌∷◌, ◌++◌, length, get_or, get_elem?,
  take, drop, some, arith, ltb, ltb→lt, ltb→le, true, false, ◌==◌, Bool-cases, inl, inr,
  if◌then◌else◌,
}
use linuse_fs.Server.Threads.{
  max_threads, Commons, CommonsLaws, remove_loop, remove_thread_from_actual_threads, count, without,
}

-- The element at a place, and a list without it, for every place.
abbrev pub nth : List ℕ → ℕ → ℕ
nth ts i = get_or ts i 0

unfoldable pub take_out : List ℕ → ℕ → List ℕ
take_out [] i = []
take_out (t ∷ ts) zero = ts
take_out (t ∷ ts) (suc i) = t ∷ take_out ts i

-- The loop over these.
unfoldable pub take_out_loop : ℕ → ℕ → ℕ → List ℕ → List ℕ
take_out_loop zero tid i ts = ts
take_out_loop (suc left) tid i ts =
    take_out_loop left tid (suc i) (if nth ts i == tid then take_out ts i else ts)

-- The elements in front are passed over.
take_out_loop-cons :
    (left tid i t : ℕ) (ts : List ℕ)
    → take_out_loop left tid (suc i) (t ∷ ts) ≡ t ∷ take_out_loop left tid i ts
unfolding take_out_loop take_out
take_out_loop-cons zero tid i t ts = refl
take_out_loop-cons (suc left) tid i t ts = elim (Bool-cases (nth ts i == tid)) [
  | inl e ↦ rw (e, take_out_loop-cons left tid (suc i) t (take_out ts i))
  | inr e ↦ rw (e, take_out_loop-cons left tid (suc i) t ts)
]

without-count : (tid : ℕ) (ts : List ℕ) → count tid ts ≡ 0 → without tid ts ≡ ts
without-count tid [] h = refl
without-count tid (t ∷ ts) h = ground (arith, without-count tid ts)

-- Only a thread that is there, or NULL behind the end, is found.
take_out-absent :
    (tid i : ℕ) (ts : List ℕ) → count tid ts ≡ 0 → (nth ts i == tid) ≡ true → take_out ts i ≡ ts
unfolding take_out
take_out-absent tid i [] h found = refl
take_out-absent tid zero (t ∷ ts) h found = absurd (ground arith)
take_out-absent tid (suc i) (t ∷ ts) h found =
    ap (λ rest. t ∷ rest) (take_out-absent tid i ts (omega arith) found)

pub take_out_loop-absent :
    (left tid i : ℕ) (ts : List ℕ) → count tid ts ≡ 0 → take_out_loop left tid i ts ≡ ts
unfolding take_out_loop
take_out_loop-absent zero tid i ts h = refl
take_out_loop-absent (suc left) tid i ts h = elim (Bool-cases (nth ts i == tid)) [
  | inl e ↦ rw (e, take_out-absent tid i ts h e) (take_out_loop-absent left tid (suc i) ts h)
  | inr e ↦ rw e (take_out_loop-absent left tid (suc i) ts h)
]

take_out_loop-without :
    (left tid : ℕ) (ts : List ℕ)
    → length ts ≤ left
    → count tid ts ≤ 1
    → take_out_loop left tid 0 ts ≡ without tid ts
unfolding take_out_loop take_out
take_out_loop-without zero tid [] fits once = refl
take_out_loop-without zero tid (t ∷ ts) fits once = absurd (omega arith)
take_out_loop-without (suc left) tid [] fits once = elim (Bool-cases (0 == tid)) [
  | inl e ↦ rw e (take_out_loop-absent left tid 1 [] refl)
  | inr e ↦ rw e (take_out_loop-absent left tid 1 [] refl)
]
take_out_loop-without (suc left) tid (t ∷ ts) fits once = elim (Bool-cases (t == tid)) [
  | inl e ↦
      let absent : count tid ts ≡ 0 = ground arith in
      rw (e, take_out_loop-absent left tid 1 ts absent, without-count tid ts absent)
  | inr e ↦
      let once' : count tid ts ≤ 1 = ground arith in
      rw (
        e,
        take_out_loop-cons left tid 0 t ts,
        take_out_loop-without left tid ts (omega arith) once',
      )
]

count-take_out :
    (u i : ℕ) (ts : List ℕ) → (nth ts i == u) ≡ false → count u (take_out ts i) ≡ count u ts
unfolding take_out
count-take_out u i [] other = refl
count-take_out u zero (t ∷ ts) other = rw other (omega arith)
count-take_out u (suc i) (t ∷ ts) other = rw (count-take_out u i ts other)

length-take_out : (i : ℕ) (ts : List ℕ) → length (take_out ts i) ≤ length ts
unfolding take_out
length-take_out i [] = omega arith
length-take_out zero (t ∷ ts) = omega arith
length-take_out (suc i) (t ∷ ts) = omega (arith, length-take_out i ts)

-- The loop does not make the list longer, and keeps the other threads.
pub length-take_out_loop :
    (left tid i : ℕ) (ts : List ℕ) → length (take_out_loop left tid i ts) ≤ length ts
unfolding take_out_loop
length-take_out_loop zero tid i ts = omega arith
length-take_out_loop (suc left) tid i ts = elim (Bool-cases (nth ts i == tid)) [
  | inl e ↦
      rw e
        (omega (arith, length-take_out_loop left tid (suc i) (take_out ts i), length-take_out i ts))
  | inr e ↦ rw e (length-take_out_loop left tid (suc i) ts)
]

pub take_out_loop-others :
    (left tid u i : ℕ) (ts : List ℕ)
    → (tid == u) ≡ false
    → count u (take_out_loop left tid i ts) ≡ count u ts
unfolding take_out_loop
take_out_loop-others zero tid u i ts other = refl
take_out_loop-others (suc left) tid u i ts other = elim (Bool-cases (nth ts i == tid)) [
  | inl e ↦
      let apart : (nth ts i == u) ≡ false = ground arith in
      rw e (
        take_out_loop-others left tid u (suc i) (take_out ts i) other ∙ count-take_out u i ts apart)
  | inr e ↦ rw e (take_out_loop-others left tid u (suc i) ts other)
]

get_elem?-nth : (ts : List ℕ) (i : ℕ) → i < length ts → get_elem? ts i ≡ some (nth ts i)
get_elem?-nth [] i h = absurd (omega arith)
get_elem?-nth (t ∷ ts) zero h = refl
get_elem?-nth (t ∷ ts) (suc i) h = get_elem?-nth ts i (omega arith)

take_out-inside :
    (ts : List ℕ) (i : ℕ) → i < length ts → take_out ts i ≡ take i ts ++ drop (suc i) ts
unfolding take_out
take_out-inside [] i h = absurd (omega arith)
take_out-inside (t ∷ ts) zero h = refl
take_out-inside (t ∷ ts) (suc i) h = ap (λ rest. t ∷ rest) (take_out-inside ts i (omega arith))

take_out-outside : (ts : List ℕ) (i : ℕ) → length ts ≤ i → take_out ts i ≡ ts
unfolding take_out
take_out-outside [] i h = refl
take_out-outside (t ∷ ts) zero h = absurd (omega arith)
take_out-outside (t ∷ ts) (suc i) h = ap (λ rest. t ∷ rest) (take_out-outside ts i (omega arith))

module _ ⦃c : Commons⦄ (laws : CommonsLaws c) where
  step-take_out :
      (tid i : ℕ) (ts : List ℕ)
      → (if c.list_get ts i == tid then c.list_remove ts i else ts)
        ≡ (if nth ts i == tid then take_out ts i else ts)
  step-take_out tid i ts = elim (Bool-cases (ltb i (length ts))) [
    | inl e ↦
        let h : i < length ts = ltb→lt i (length ts) e in
        let same : some (c.list_get ts i) ≡ some (nth ts i) =
          sym (laws.list_get-inside ts i h) ∙ get_elem?-nth ts i h in
        let got : c.list_get ts i ≡ nth ts i = cc in
        rw (got, laws.list_remove-inside ts i h, take_out-inside ts i h)
    | inr e ↦
        let h : length ts ≤ i = ltb→le i (length ts) e in
        rw (laws.list_remove-outside ts i h, take_out-outside ts i h) (ground arith)
  ]

  pub remove_loop-take_out_loop :
      (left tid i : ℕ) (ts : List ℕ) → remove_loop left tid i ts ≡ take_out_loop left tid i ts
  unfolding remove_loop take_out_loop
  remove_loop-take_out_loop zero tid i ts = refl
  remove_loop-take_out_loop (suc left) tid i ts =
      rw (step-take_out tid i ts) (remove_loop-take_out_loop left tid (suc i) _)

  -- A thread that stands once in the list, which has at most MAX_THREADS elements, is taken off it;
  -- the others stay in their order. A thread that does not stand there leaves the list as it is.
  pub remove_thread_from_actual_threads_lem :
      (tid : ℕ) (ts : List ℕ)
      → length ts ≤ max_threads
      → count tid ts ≤ 1
      → remove_thread_from_actual_threads tid ts ≡ without tid ts
  unfolding remove_thread_from_actual_threads
  remove_thread_from_actual_threads_lem tid ts fits once =
      remove_loop-take_out_loop max_threads tid 0 ts
      ∙ take_out_loop-without max_threads tid ts fits once
