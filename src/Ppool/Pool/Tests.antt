-- ===== src/Ppool/Pool/Tests.antt =====
-- Runs of ppool.c, and its theorems at inputs.
use emberlite.Common.{
  ℕ, ◌≡◌, ◌≢◌, refl, arith, true, false, Option, none, some, List, [], ◌∷◌, ◌++◌, pos, negsuc, All,
}
use emberlite.Ppool.Queue.{Ptr, PoolQueue, Cells}
use emberlite.Ppool.Queue.Spec.{Item, Away, Queued, Sorted, Inserted}
use emberlite.Ppool.Pool.{
  Pool, World, System, pool_block, init, destroy, add, locked, broadcast, unlocked,
}
use emberlite.Ppool.Pool.Spec.{owned, InitOutcome}
use emberlite.Ppool.Pool.Add.{add-Inserted}
use emberlite.Ppool.Pool.Init.{init-InitOutcome}
use emberlite.Ppool.Pool.Destroy.{destroy-releases}

-- Another pool is live.
abbrev world : World
world = record { live = pool_block ∷ []; global_live = true; ppool_errno = pos 0 }

-- The second of three threads is not made.
abbrev sys : System
sys = record {
  pool_mem = true;
  queue_mem = true;
  id_mem = true;
  lock_made = true;
  global_made = true;
  cond_made = true;
  created = some 70 ∷ none ∷ some 72 ∷ [];
}

no_mutex :
    init (record sys { global_made = false }) (pos 3) world
    ≡ some (none, record world { ppool_errno = negsuc 2 })
unfolding init
no_mutex = refl

abbrev empty : Cells ℕ ℕ
empty a = none

abbrev queue : PoolQueue
queue = record { len = pos 0; head = 0 }

empty-Queued : Queued {E = ℕ} {P = ℕ} [] empty queue
empty-Queued = record { chain = refl; counted = refl }

init-InitOutcome_example :
    (o : Option Pool) × (w' : World) × (init sys (pos 3) world ≡ some (o, w'))
    × InitOutcome sys (pos 3) world o w'
init-InitOutcome_example = init-InitOutcome sys (pos 3) world

destroy-releases_example :
    (cells' : Cells ℕ ℕ) × (destroy 1 empty
        (some (record {
          pool_max_num = pos 2;
          rel_num = pos 2;
          queue = queue;
          id = some 70 ∷ some 72 ∷ [];
        }))
        (record world { live = owned ++ world.live; global_live = true })
      ≡ some (cells', 70 ∷ 72 ∷ [], record world { global_live = false }))
    × All {A = Item ℕ ℕ} (λ x. cells' x.address ≡ none) []
    × ((b : Ptr) → Away {E = ℕ} {P = ℕ} b [] → cells' b ≡ empty b)
destroy-releases_example =
    destroy-releases [] empty 1 (70 ∷ 72 ∷ []) (pos 2) queue world empty-Queued (omega arith)
      ((λ e. ground arith), ((λ e. ground arith), tt))

abbrev task : Item ℕ ℕ
task = record { address = 8; entry = 60; parameter = 3; priority = pos 2 }

abbrev idle : Pool
idle = record { pool_max_num = pos 1; rel_num = pos 1; queue = queue; id = some 70 ∷ [] }

add-Inserted_example :
    (cells' : Cells ℕ ℕ) × (queue' : PoolQueue) × (ys : List (Item ℕ ℕ)) × (add 1 8 empty
        (some idle)
        (some (record { entry = some 60; parameter = 3; priority = pos 2 }))
        world
      ≡ some (
        true,
        cells',
        some (record idle { queue = queue' }),
        world,
        locked queue ∷ broadcast queue' ∷ unlocked queue' ∷ [],
      ))
    × Queued ys cells' queue'
    × Inserted task [] ys
    × Sorted ys
    × ((b : Ptr) → b ≢ 8 → Away {E = ℕ} {P = ℕ} b [] → cells' b ≡ empty b)
add-Inserted_example =
    add-Inserted [] empty idle task 2 1 world empty-Queued tt refl (λ e. ground arith) tt
      (omega arith)
