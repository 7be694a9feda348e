-- ===== src/Server/Threads/Bound.antt =====
-- mtserver/src/server.c: how many connection threads run at a time.
use linuse_fs.Base.{
  ℕ, suc, ◌+◌, ◌≤◌, ◌<◌, ◌≡◌, ap, Option, none, some, List, [], ◌∷◌, ◌++◌, length, length-append,
  arith, ◌==◌, ==-refl, Bool-cases, inl, inr, if◌then◌else◌,
}
use linuse_fs.Server.Threads.{
  max_threads, Commons, CommonsLaws, remove_thread_from_actual_threads, count, without, Server,
  started, Step, create, add, finish, Reach, here, next,
}
use linuse_fs.Server.Threads.Removal.{
  take_out_loop-others, length-take_out_loop, remove_loop-take_out_loop,
}

-- One occurrence less.
erase : ℕ → List ℕ → List ℕ
erase t [] = []
erase t (u ∷ us) = let rest = erase t us in if u == t then us else u ∷ rest

length-erase : (t : ℕ) (us : List ℕ) → 0 < count t us → length us ≡ suc (length (erase t us))
unfolding erase
length-erase t [] h = absurd (omega arith)
length-erase t (u ∷ us) h = ground (arith, length-erase t us)

count-erase :
    (t v : ℕ) (us : List ℕ)
    → 0 < count t us
    → count v us ≡ count v (erase t us) + (if t == v then 1 else 0)
unfolding erase
count-erase t v [] h = absurd (omega arith)
count-erase t v (u ∷ us) h = ground (arith, count-erase t v us)

-- A list that has no element more often than another is no longer.
length-count : (ts us : List ℕ) → ((t : ℕ) → count t ts ≤ count t us) → length ts ≤ length us
length-count [] us less = omega arith
length-count (t ∷ ts) us less =
    let more : (if t == t then 1 else 0) + count t ts ≤ count t us = less t in
    let there : 0 < count t us = omega (arith, rw (==-refl t) at more) in
    omega (
      arith,
      length-erase t us there,
      length-count ts (erase t us) λ v. omega (arith, less v, count-erase t v us there),
    )

pub count-append : (t : ℕ) (us vs : List ℕ) → count t (us ++ vs) ≡ count t us + count t vs
count-append t [] vs = omega arith
count-append t (u ∷ us) vs = omega (arith, count-append t us vs)

count-without :
    (t v : ℕ) (us : List ℕ) → count v (without t us) ≡ (if t == v then 0 else count v us)
count-without t v [] = ground arith
count-without t v (u ∷ us) = ground (arith, count-without t v us)

-- The thread that is not in the list yet.
abbrev pending : Option ℕ → List ℕ
pending none = []
pending (some t) = t ∷ []

-- The list has room for the thread that is not in it yet, and each running thread is one of these.
record IsCounted (s : Server) : Type 0 where
  room : length s.connection_threads + length (pending s.thread_id) ≤ max_threads
  known : (t : ℕ) → count t s.running ≤ count t s.connection_threads + count t (pending s.thread_id)

module _ ⦃c : Commons⦄ (laws : CommonsLaws c) where
  Step-IsCounted : {s s' : Server} → Step s s' → IsCounted s → IsCounted s'
  unfolding remove_thread_from_actual_threads
  Step-IsCounted (create s t idle fits fresh) h = record {
    room = omega arith;
    known = λ v.
        let before : count v s.running ≤ count v s.connection_threads + 0 = rw idle at h.known v in
        omega arith;
  }
  Step-IsCounted (add s t ready) h =
      let ts = s.connection_threads in
      let room : length ts + 1 ≤ max_threads = rw ready at h.room in
      record {
        room = omega (arith, length-append ts (t ∷ []));
        known = λ v.
            let before : count v s.running ≤ count v ts + count v (t ∷ []) =
              rw ready at h.known v in
            omega (arith, count-append v ts (t ∷ []));
      }
  Step-IsCounted (finish s t runs) h =
      let ts = s.connection_threads in
      let same = remove_loop-take_out_loop laws max_threads t 0 ts in
      record {
        room = omega (arith, ap length same, length-take_out_loop max_threads t 0 ts, h.room);
        known = λ v.
            let left : count v (without t s.running) ≡ (if t == v then 0 else count v s.running) =
              count-without t v s.running in
            let kept = ap (count v) same in
            elim (Bool-cases (t == v)) [
              | inl e ↦ omega (arith, rw e at left)
              | inr e ↦ omega (
                arith,
                kept,
                rw e at left,
                take_out_loop-others max_threads t v 0 ts e,
                h.known v,
              )
            ];
      }

  Reach-IsCounted : {s : Server} → Reach started s → IsCounted s
  Reach-IsCounted here = record { room = omega arith; known = λ t. omega arith }
  Reach-IsCounted (next r step) = Step-IsCounted step (Reach-IsCounted r)

  -- Whatever the order of the steps, the list of the connection threads never has more than
  -- MAX_THREADS elements, and no more than MAX_THREADS threads run at a time.
  pub Reach-bounded :
      (s : Server)
      → Reach started s
      → (length s.connection_threads ≤ max_threads) × (length s.running ≤ max_threads)
  Reach-bounded s r =
      let h = Reach-IsCounted r in
      let ts = s.connection_threads in
      let us = pending s.thread_id in
      let fewer : length s.running ≤ length (ts ++ us) =
        length-count s.running (ts ++ us) λ t. omega (arith, h.known t, count-append t ts us) in
      (omega (arith, h.room), omega (arith, fewer, length-append ts us, h.room))
