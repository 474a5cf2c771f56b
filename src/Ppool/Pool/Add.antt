-- ===== src/Ppool/Pool/Add.antt =====
-- `ppool_add` of ppool.c.
use emberlite.Common.{ℕ, ◌<◌, ◌≡◌, ◌≢◌, refl, ap, ◌∙◌, true, none, some, List, [], ◌∷◌, pos, length}
use emberlite.Ppool.Queue.{Ptr, PoolQueue, Cells, queue_new, queue_add}
use emberlite.Ppool.Queue.Spec.{Item, Away, Queued, Sorted, Inserted}
use emberlite.Ppool.Queue.Frame.{eq_ne}
use emberlite.Ppool.Queue.Order.{queue_add-Inserted, queue_new-fresh}
use emberlite.Ppool.Pool.{Pool, World, locked, broadcast, unlocked, add_made, add}

module _ {E P : Type 0} where
  add_steps :
      (cells cells' cells'' : Cells E P) (pool : Pool) (queue' : PoolQueue) (x : Item E P)
      (fuel : ℕ) (w : World)
      → queue_new x.address cells x.entry x.parameter x.priority ≡ (none, x.address, cells')
      → x.address ≢ 0
      → queue_add fuel cells' pool.queue x.address ≡ some (cells'', queue')
      → add fuel x.address cells
          (some pool)
          (some (record { entry = some x.entry; parameter = x.parameter; priority = x.priority }))
          w
        ≡ some (
          true,
          cells'',
          some (record pool { queue = queue' }),
          w,
          locked pool.queue ∷ broadcast queue' ∷ unlocked queue' ∷ [],
        )
  unfolding add
  add_steps cells cells' cells'' pool queue' x fuel w n h q =
      ap (add_made fuel pool w) n ∙ rw (add_made, eq_ne x.address 0 h) (rw q refl)

  -- `ppool_add` of a task with an entry and a priority that is not negative, when malloc returns the
  -- address of no queued node, succeeds. It locks while the queue is as it was, and broadcasts and then
  -- unlocks when the task is queued, behind those of a smaller or the same number and before the
  -- others. It writes no other node.
  pub add-Inserted :
      (xs : List (Item E P)) (cells : Cells E P) (pool : Pool) (x : Item E P) (n fuel : ℕ)
      (w : World)
      → Queued xs cells pool.queue
      → Sorted xs
      → x.priority ≡ pos n
      → x.address ≢ 0
      → Away x.address xs
      → length xs < fuel
      → (cells' : Cells E P) × (queue' : PoolQueue) × (ys : List (Item E P)) × (add fuel x.address
            cells
            (some pool)
            (some (record { entry = some x.entry; parameter = x.parameter; priority = x.priority }))
            w
          ≡ some (
            true,
            cells',
            some (record pool { queue = queue' }),
            w,
            locked pool.queue ∷ broadcast queue' ∷ unlocked queue' ∷ [],
          ))
        × Queued ys cells' queue'
        × Inserted x xs ys
        × Sorted ys
        × ((b : Ptr) → b ≢ x.address → Away b xs → cells' b ≡ cells b)
  add-Inserted xs cells pool x n fuel w q s p h away f =
      let new = queue_new-fresh xs cells pool.queue x n p q h away in
      let put = queue_add-Inserted xs new.0 pool.queue x fuel new.2 s h away new.3 f in
      (
        put.0,
        put.1,
        put.2,
        add_steps cells new.0 put.0 pool put.1 x fuel w new.1 h put.3,
        put.4,
        put.5,
        put.6,
        λ b ne far. put.7 b ne far ∙ new.4 b ne,
      )
