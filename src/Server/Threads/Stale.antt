-- ===== src/Server/Threads/Stale.antt =====
-- mtserver/src/server.c: threads that are done before the main loop has put them into the list.
use linuse_fs.Base.{
  ℕ, ◌+◌, ◌≤◌, ◌<◌, ◌≡◌, refl, sym, ◌∙◌, none, some, List, [], ◌∷◌, ◌++◌, length, length-append,
  arith, ==-refl,
}
use linuse_fs.Server.Threads.{
  max_threads, Commons, CommonsLaws, remove_thread_from_actual_threads, count, without, Server,
  started, Step, create, add, finish, Reach, here, next,
}
use linuse_fs.Server.Threads.Removal.{take_out_loop-absent, remove_loop-take_out_loop}
use linuse_fs.Server.Threads.Bound.{count-append}
use mathlib.Core.List.{append_assoc, append-nil}

-- No thread runs, and these ids are in the list.
abbrev pub left_behind : List ℕ → Server
left_behind ts = record { connection_threads = ts; thread_id = none; running = [] }

module _ ⦃c : Commons⦄ (laws : CommonsLaws c) where
  -- A thread that is done before it is put into the list stays there.
  Reach-left_behind_one :
      (ts : List ℕ) (t : ℕ)
      → Reach started (left_behind ts)
      → length ts < max_threads
      → count t ts ≡ 0
      → Reach started (left_behind (ts ++ (t ∷ [])))
  unfolding remove_thread_from_actual_threads
  Reach-left_behind_one ts t r fits fresh =
      let made : Server = record {
        connection_threads = ts;
        thread_id = some t;
        running = t ∷ [];
      } in
      let r1 : Reach started made = next r (create (left_behind ts) t refl fits refl) in
      let runs : 0 < count t (t ∷ []) = rw (==-refl t) (omega arith) in
      let done : Server = record { connection_threads = ts; thread_id = some t; running = [] } in
      let taken_off : Step made (record made {
        connection_threads = remove_thread_from_actual_threads t ts;
        running = without t (t ∷ []);
      }) =
        finish made t runs in
      let gone : remove_thread_from_actual_threads t ts ≡ ts =
        remove_loop-take_out_loop laws max_threads t 0 ts
        ∙ take_out_loop-absent max_threads t 0 ts fresh in
      let last : Step made done = rw (gone, ==-refl t) at taken_off in
      next (next r1 last) (add done t refl)

  -- With a full list and no thread there is no step.
  stuck :
      {s s' : Server}
      → Step s s'
      → length s.connection_threads ≡ max_threads
      → s.thread_id ≡ none
      → s.running ≡ []
      → ⊥
  stuck (create s t idle fits fresh) full none_made none_runs = omega arith
  stuck (add s t ready) full none_made none_runs = cc
  stuck (finish s t runs) full none_made none_runs = omega (arith, rw none_runs at runs)

  Reach-left_behind :
      (front ts : List ℕ)
      → Reach started (left_behind front)
      → ((t : ℕ) → count t (front ++ ts) ≤ 1)
      → length (front ++ ts) ≤ max_threads
      → Reach started (left_behind (front ++ ts))
  Reach-left_behind front [] r once fits = rw (append-nil front) r
  Reach-left_behind front (t ∷ ts) r once fits =
      let e : (front ++ (t ∷ [])) ++ ts ≡ front ++ (t ∷ ts) = append_assoc front (t ∷ []) ts in
      let room : length front < max_threads = omega (arith, length-append front (t ∷ ts), fits) in
      let found : count t (front ++ (t ∷ ts)) ≡ count t front + (1 + count t ts) =
        count-append t front (t ∷ ts) ∙ rw (==-refl t) refl in
      let fresh : count t front ≡ 0 = omega (arith, found, once t) in
      rw (sym e) (
        Reach-left_behind (front ++ (t ∷ [])) ts (Reach-left_behind_one front t r room fresh)
          (λ v. rw e (once v)) (rw e fits))

  -- MAX_THREADS threads that are done before the main loop has put them into the list, with any
  -- different ids, leave the list full with no thread running, and from there no step is possible:
  -- no connection is accepted again.
  pub left_behind-stuck :
      (ts : List ℕ)
      → ((t : ℕ) → count t ts ≤ 1)
      → length ts ≡ max_threads
      → Reach started (left_behind ts) × ((s : Server) → ¬ Step (left_behind ts) s)
  left_behind-stuck ts once full =
      (Reach-left_behind [] ts here once (omega arith), λ s step. stuck step full refl refl)
