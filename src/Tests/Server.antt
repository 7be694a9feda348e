-- ===== src/Tests/Server.antt =====
-- Examples for the server: requests that end, and connection threads.
use linuse_fs.Base.{
  ℕ, ◌≤◌, ◌≡◌, ◌≢◌, refl, zero, suc, some, none, List, [], ◌∷◌, ◌++◌, ◌<◌, length, get_or,
  get_elem?, take, drop, arith, ltb, lt→ltb, le→ltb, if◌then◌else◌,
}
use linuse_fs.Disk.{Fs, out_of_fuel}
use linuse_fs.Request.{Request}
use linuse_fs.Server.Execute.{handle, signed}
use linuse_fs.Sacio.Data.{clamp}
use linuse_fs.Server.Ends.{handle_ends}
use linuse_fs.Server.Threads.{
  Commons, CommonsLaws, max_threads, remove_thread_from_actual_threads, count, started, Server,
  Step, create, add, Reach, here, next,
}
use linuse_fs.Server.Threads.Removal.{remove_thread_from_actual_threads_lem}
use linuse_fs.Server.Threads.Bound.{Reach-bounded}
use linuse_fs.Server.Threads.Stale.{left_behind, left_behind-stuck}
use linuse_fs.Sample.{unix}

abbrev blank : Fs
blank = record { disk = λ _ _. 0; bitmap = record { bitarray = λ _. 0; size = 375 } }

handle_ends_example :
    handle ⦃p = unix 4⦄ (Request.truncate (b'/' ∷ b'a' ∷ []) 5_000) blank ≢ out_of_fuel
unfolding clamp signed
handle_ends_example =
    handle_ends ⦃p = unix 4⦄ (Request.truncate (b'/' ∷ b'a' ∷ []) 5_000) blank (omega arith)

-- Lists with 0 behind their end.
abbrev lists : Commons
lists = record {
  list_get = λ ts i. get_or ts i 0;
  list_remove = λ ts i. if ltb i (length ts) then take i ts ++ drop (suc i) ts else ts;
}

get_elem?-get_or : (ts : List ℕ) (i : ℕ) → i < length ts → get_elem? ts i ≡ some (get_or ts i 0)
get_elem?-get_or [] i h = absurd (omega arith)
get_elem?-get_or (t ∷ ts) zero h = refl
get_elem?-get_or (t ∷ ts) (suc i) h = get_elem?-get_or ts i (omega arith)

lists-CommonsLaws : CommonsLaws lists
lists-CommonsLaws = record {
  list_get-inside = get_elem?-get_or;
  list_remove-inside = λ ts i h. rw (lt→ltb i (length ts) h);
  list_remove-outside = λ ts i h. rw (le→ltb i (length ts) h);
}

remove_thread_from_actual_threads_lem_example :
    remove_thread_from_actual_threads ⦃c = lists⦄ 8 (7 ∷ 8 ∷ 9 ∷ []) ≡ 7 ∷ 9 ∷ []
remove_thread_from_actual_threads_lem_example =
    remove_thread_from_actual_threads_lem ⦃c = lists⦄ lists-CommonsLaws 8 (7 ∷ 8 ∷ 9 ∷ [])
      (omega arith) (omega arith)

-- One thread, made and put into the list.
abbrev one_thread : Server
one_thread = record { connection_threads = 7 ∷ []; thread_id = none; running = 7 ∷ [] }

Reach-one_thread : Reach ⦃c = lists⦄ started one_thread
Reach-one_thread = next (next here (create started 7 refl (omega arith) refl)) (add _ 7 refl)

Reach-bounded_example :
    (length one_thread.connection_threads ≤ max_threads) × (length one_thread.running ≤ max_threads)
Reach-bounded_example = Reach-bounded ⦃c = lists⦄ lists-CommonsLaws one_thread Reach-one_thread

abbrev six : List ℕ
six = 1 ∷ 2 ∷ 3 ∷ 4 ∷ 5 ∷ 6 ∷ []

six-once : (t : ℕ) → count t six ≤ 1
six-once t = ground arith

left_behind-stuck_example :
    Reach ⦃c = lists⦄ started (left_behind six)
    × ((s : Server) → ¬ Step ⦃c = lists⦄ (left_behind six) s)
left_behind-stuck_example =
    left_behind-stuck ⦃c = lists⦄ lists-CommonsLaws six six-once (omega arith)
