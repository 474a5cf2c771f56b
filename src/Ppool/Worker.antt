-- ===== src/Ppool/Worker.antt =====
-- components/ppool/src/ppool.c: the workers, `ppool_run`, with clients that add tasks. A step is what
-- one thread does while it holds the lock, or between two uses of it; steps of any threads follow each
-- other in any order.
pub mod Nodes
pub mod Lock
pub mod Invariant
pub mod Safe
pub mod Progress
mod Tests
use emberlite.Common.{
  ℕ, suc, ◌≡◌, ◌≢◌, Bool, true, false, Option, none, some, List, [], ◌∷◌, ◌++◌, ◌==◌, if◌then◌else◌,
  ℤ, pos, leb_ℤ,
}
use emberlite.Ppool.Queue.{
  Ptr, PoolNode, PoolQueue, Cells, store, load, queue_new, queue_add, queue_get_task,
}

-- Where a worker stands: before the lock, behind it at the test of `len`, in the wait for the condition,
-- with the task that it took, in the call of its entry, and behind that call.
pub data Thread : Type 0 where
  outside inside waiting : Thread
  took calling ran : Ptr → Thread

-- The pool as the threads share it, and the calls of tasks so far. Any number of threads is `outside`.
pub record Shared (E P : Type 0) : Type 0 where
  pub cells : Cells E P
  pub queue : PoolQueue
  pub lock : Option ℕ
  pub threads : ℕ → Thread
  pub calls : List (E × P)

abbrev pub move : ℕ → Thread → (ℕ → Thread) → ℕ → Thread
move t place threads u = if u == t then place else threads u

-- pthread_cond_broadcast: a thread that waits goes on to take the lock again.
abbrev pub wake : Thread → Thread
wake waiting = outside
wake place = place

abbrev pub broadcast : (ℕ → Thread) → ℕ → Thread
broadcast threads t = wake (threads t)

module _ {E P : Type 0} where
  -- `waits` gives the lock back. A thread that is woken takes the lock and tests `len` again. `calls` and
  -- `returns` are the call of the entry, and `frees` is `free`. `adds` is ppool_add with memory at `got`,
  -- which the loop of ppool_queue_add leaves within `len` steps, and with its broadcast. Only with
  -- `others` are there the steps that no worker takes of itself: `adds` of a client, `wakes`, which is a
  -- spurious wake-up, and `returns` of an entry.
  pub data Step (others : Bool) (s s' : Shared E P) : Type 0 where
    locks :
        (t : ℕ)
        → s.threads t ≡ outside
        → s.lock ≡ none
        → s' ≡ record s { lock = some t; threads = move t inside s.threads }
        → Step others s s'
    waits :
        (t : ℕ)
        → s.threads t ≡ inside
        → leb_ℤ s.queue.len (pos 0) ≡ true
        → s' ≡ record s { lock = none; threads = move t waiting s.threads }
        → Step others s s'
    wakes :
        (t : ℕ)
        → others ≡ true
        → s.threads t ≡ waiting
        → s' ≡ record s { threads = move t outside s.threads }
        → Step others s s'
    takes :
        (t : ℕ) (a : Ptr) (queue' : PoolQueue)
        → s.threads t ≡ inside
        → leb_ℤ s.queue.len (pos 0) ≡ false
        → queue_get_task s.cells s.queue ≡ some (a, queue')
        → s' ≡ record s { queue = queue'; lock = none; threads = move t (took a) s.threads }
        → Step others s s'
    continues :
        (t : ℕ)
        → s.threads t ≡ took 0
        → s' ≡ record s { threads = move t outside s.threads }
        → Step others s s'
    calls :
        (t : ℕ) (a : Ptr) (c : PoolNode E P)
        → s.threads t ≡ took a
        → load s.cells a ≡ some c
        → s' ≡ record s {
          threads = move t (calling a) s.threads;
          calls = s.calls ++ ((c.entry, c.parameter) ∷ []);
        }
        → Step others s s'
    returns :
        (t : ℕ) (a : Ptr)
        → others ≡ true
        → s.threads t ≡ calling a
        → s' ≡ record s { threads = move t (ran a) s.threads }
        → Step others s s'
    frees :
        (t : ℕ) (a : Ptr)
        → s.threads t ≡ ran a
        → s' ≡ record s { cells = store s.cells a none; threads = move t outside s.threads }
        → Step others s s'
    adds :
        (got : Ptr) (entry : E) (parameter : P) (priority n : ℕ) (made added : Cells E P)
        (queue' : PoolQueue)
        → others ≡ true
        → s.lock ≡ none
        → got ≢ 0
        → s.cells got ≡ none
        → queue_new got s.cells entry parameter (pos priority) ≡ (none, got, made)
        → s.queue.len ≡ pos n
        → queue_add (suc n) made s.queue got ≡ some (added, queue')
        → s' ≡ record s { cells = added; queue = queue'; threads = broadcast s.threads }
        → Step others s s'

  pub data Reach (others : Bool) (s : Shared E P) : Shared E P → Type 0 where
    here : Reach others s s
    next : {s' s'' : Shared E P} → Reach others s s' → Step others s' s'' → Reach others s s''

-- The pool of ppool_init: an empty queue, and workers that start.
abbrev pub start : {E P : Type 0} → Cells E P → Shared E P
start cells = record {
  cells = cells;
  queue = record { len = pos 0; head = 0 };
  lock = none;
  threads = λ t. outside;
  calls = [];
}
