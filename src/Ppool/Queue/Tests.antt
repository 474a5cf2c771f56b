-- ===== src/Ppool/Queue/Tests.antt =====
-- Runs of ppool_queue.c, and its theorems at inputs.
use emberlite.Common.{
  ℕ, ◌≡◌, ◌≢◌, refl, arith, none, some, List, [], ◌∷◌, ◌==◌, if◌then◌else◌, pos, All,
}
use emberlite.Ppool.Queue.{Ptr, PoolQueue, Cells, queue_add, queue_get_task, queue_cleanup}
use emberlite.Ppool.Queue.Spec.{Item, node_of, Away, Queued, Sorted, Inserted}
use emberlite.Ppool.Queue.Order.{queue_add-Inserted}
use emberlite.Ppool.Queue.Take.{queue_get_task-cons, queue_cleanup-frees}

abbrev item : Ptr → ℕ → Item ℕ ℕ
item a p = record { address = a; entry = 60; parameter = a; priority = pos p }

-- Tasks of the numbers 1 and 4 are queued at 10 and 20; a task of the number 1 is made at 30.
abbrev cells : Cells ℕ ℕ
cells a =
    if a == 10
    then some (node_of (item 10 1) 20)
    else if a == 20
    then some (node_of (item 20 4) 0)
    else if a == 30
    then some (node_of (item 30 1) 0)
    else none

abbrev queue : PoolQueue
queue = record { len = pos 2; head = 10 }

abbrev tasks : List (Item ℕ ℕ)
tasks = item 10 1 ∷ item 20 4 ∷ []

tasks-Queued : Queued tasks cells queue
tasks-Queued = record {
  chain = (
    20,
    refl,
    λ e. ground arith,
    refl,
    (λ e. ground arith, tt),
    (0, refl, λ e. ground arith, refl, tt, refl),
  );
  counted = refl;
}

queue_add-Inserted_example :
    (cells' : Cells ℕ ℕ) × (queue' : PoolQueue) × (ys : List (Item ℕ ℕ)) × (queue_add 5 cells queue
        30
      ≡ some (cells', queue'))
    × Queued ys cells' queue'
    × Inserted (item 30 1) tasks ys
    × Sorted ys
    × ((b : Ptr) → b ≢ 30 → Away b tasks → cells' b ≡ cells b)
queue_add-Inserted_example =
    queue_add-Inserted tasks cells queue (item 30 1) 5 tasks-Queued ((omega arith, tt), (tt, tt))
      (λ e. ground arith) (λ e. ground arith, (λ e. ground arith, tt)) refl (omega arith)

queue_get_task-cons_example :
    (queue' : PoolQueue) × (queue_get_task cells queue ≡ some (10, queue'))
    × Queued (item 20 4 ∷ []) cells queue'
    × Away 10 (item 20 4 ∷ [])
queue_get_task-cons_example =
    queue_get_task-cons cells queue (item 10 1) (item 20 4 ∷ []) tasks-Queued

queue_cleanup-frees_example :
    (cells' : Cells ℕ ℕ) × (queue' : PoolQueue) × (queue_cleanup 5 cells queue
      ≡ some (cells', queue'))
    × Queued [] cells' queue'
    × All (λ x. cells' x.address ≡ none) tasks
    × ((b : Ptr) → Away b tasks → cells' b ≡ cells b)
queue_cleanup-frees_example = queue_cleanup-frees tasks cells queue 5 tasks-Queued (omega arith)
