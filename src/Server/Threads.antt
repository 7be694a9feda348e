-- ===== src/Server/Threads.antt =====
-- mtserver/src/server.c: the list of the connection threads, in the main loop of `server_init` and at
-- the end of `attend_connection`. The sockets and the mutex are left out: a step is what runs while
-- the mutex is held, or between two of those, and the steps of the threads come in any order.
pub mod Removal
pub mod Bound
pub mod Stale
use linuse_fs.Base.{
  ℕ, zero, suc, ◌+◌, ◌≤◌, ◌<◌, ◌≡◌, Option, none, some, List, [], ◌∷◌, ◌++◌, length, get_elem?,
  take, drop, ◌==◌, if◌then◌else◌,
}

abbrev pub max_threads : ℕ
max_threads = 6

-- The lists of commons/collections, of which the code uses these two, and their documented
-- behaviour: the element at a place, a list without it, and no change where there is no element.
pub record Commons : Type 0 where
  pub list_get : List ℕ → ℕ → ℕ
  pub list_remove : List ℕ → ℕ → List ℕ

pub record CommonsLaws (c : Commons) : Type 0 where
  pub list_get-inside :
      (ts : List ℕ) (i : ℕ) → i < length ts → get_elem? ts i ≡ some (c.list_get ts i)
  pub list_remove-inside :
      (ts : List ℕ) (i : ℕ) → i < length ts → c.list_remove ts i ≡ take i ts ++ drop (suc i) ts
  pub list_remove-outside : (ts : List ℕ) (i : ℕ) → length ts ≤ i → c.list_remove ts i ≡ ts

module _ ⦃c : Commons⦄ where
  -- The loop of `remove_thread_from_actual_threads` over the places from `thread_num` on.
  unfoldable pub remove_loop : ℕ → ℕ → ℕ → List ℕ → List ℕ
  remove_loop zero tid thread_num ts = ts
  remove_loop (suc left) tid thread_num ts =
      remove_loop left tid (suc thread_num)
        (if c.list_get ts thread_num == tid then c.list_remove ts thread_num else ts)

  unfoldable pub remove_thread_from_actual_threads : ℕ → List ℕ → List ℕ
  remove_thread_from_actual_threads tid ts = remove_loop max_threads tid 0 ts

-- How often a thread stands in a list, and a list without it.
abbrev pub count : ℕ → List ℕ → ℕ
count t [] = 0
count t (u ∷ us) = (if u == t then 1 else 0) + count t us

abbrev pub without : ℕ → List ℕ → List ℕ
without t [] = []
without t (u ∷ us) = let rest = without t us in if u == t then rest else u ∷ rest

-- `connection_threads`, the thread that the main loop has made and not yet put into the list, and
-- the threads that run.
pub record Server : Type 0 where
  pub connection_threads : List ℕ
  pub thread_id : Option ℕ
  pub running : List ℕ

abbrev pub started : Server
started = record { connection_threads = []; thread_id = none; running = [] }

module _ ⦃c : Commons⦄ where
  -- A connection is accepted and its thread made, which runs at once; its id is no running thread's.
  -- The main loop adds it to the list. A thread that is done takes itself off the list.
  pub data Step : Server → Server → Type 0 where
    create :
        (s : Server) (t : ℕ)
        → s.thread_id ≡ none
        → length s.connection_threads < max_threads
        → count t s.running ≡ 0
        → Step s (record s { thread_id = some t; running = t ∷ s.running })
    add :
        (s : Server) (t : ℕ)
        → s.thread_id ≡ some t
        → Step s
            (record s { connection_threads = s.connection_threads ++ (t ∷ []); thread_id = none })
    finish :
        (s : Server) (t : ℕ)
        → 0 < count t s.running
        → Step s (record s {
          connection_threads = remove_thread_from_actual_threads t s.connection_threads;
          running = without t s.running;
        })

  pub data Reach (s : Server) : Server → Type 0 where
    here : Reach s s
    next : {t u : Server} → Reach s t → Step t u → Reach s u
