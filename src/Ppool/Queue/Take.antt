-- ===== src/Ppool/Queue/Take.antt =====
-- `ppool_queue_get_task` takes the first node, and `ppool_queue_cleanup` and `ppool_queue_destroy`
-- free them all.
use emberlite.Common.{
  ℕ, zero, suc, ◌<◌, ◌≡◌, refl, ap, ◌∙◌, arith, none, some, List, [], ◌∷◌, pos, ◌-ℤ◌, pos--ℤ-one,
  All, length,
}
use emberlite.Ppool.Queue.{
  Ptr, PoolQueue, Cells, store, queue_get_task, free_loop, queue_cleanup, queue_destroy,
}
use emberlite.Ppool.Queue.Spec.{Item, Away, Chain, Queued}
use emberlite.Ppool.Queue.Frame.{eq_ne, store_self, store_ne, load-Chain, Chain-agree, store-agree}

module _ {E P : Type 0} where
  -- On an empty queue `get_task` returns NULL and changes nothing.
  pub queue_get_task-nil :
      (cells : Cells E P) (queue : PoolQueue)
      → Queued [] cells queue
      → queue_get_task cells queue ≡ some (0, queue)
  unfolding queue_get_task
  queue_get_task-nil cells queue q = rw q.chain refl

  -- Else it returns the node of the first task, which is no longer queued; the others are.
  pub queue_get_task-cons :
      (cells : Cells E P) (queue : PoolQueue) (x : Item E P) (xs : List (Item E P))
      → Queued (x ∷ xs) cells queue
      → (queue' : PoolQueue) × (queue_get_task cells queue ≡ some (x.address, queue'))
        × Queued xs cells queue'
        × Away x.address xs
  unfolding queue_get_task
  queue_get_task-cons cells queue x xs q =
      let first = load-Chain cells queue.head x xs q.chain in
      (
        record { len = queue.len -ℤ pos 1; head = q.chain.0 },
        rw (queue_get_task, eq_ne queue.head 0 first.0)
            (rw first.1 (
              ap (λ a. some (a, record { len = queue.len -ℤ pos 1; head = q.chain.0 })) q.chain.1)),
        record {
          chain = q.chain.5;
          counted = ap (λ n. n -ℤ pos 1) q.counted ∙ pos--ℤ-one (length xs);
        },
        q.chain.4,
      )

  free_loop-Chain :
      (xs : List (Item E P)) (cells : Cells E P) (a : Ptr) (fuel : ℕ)
      → Chain cells a xs
      → length xs < fuel
      → (cells' : Cells E P) × (free_loop fuel cells a ≡ some cells')
        × All (λ x. cells' x.address ≡ none) xs
        × ((b : Ptr) → Away b xs → cells' b ≡ cells b)
  unfolding free_loop
  free_loop-Chain xs cells a zero c h = absurd (omega arith)
  free_loop-Chain [] cells a (suc fuel) c h = (cells, rw c refl, tt, λ b far. refl)
  free_loop-Chain (x ∷ xs) cells a (suc fuel) c h =
      let first = load-Chain cells a x xs c in
      let without =
        Chain-agree cells (store cells x.address none) xs c.0
          (store-agree cells x.address none xs c.4) c.5 in
      let rest = free_loop-Chain xs (store cells x.address none) c.0 fuel without (omega arith) in
      (
        rest.0,
        rw (free_loop, eq_ne a 0 first.0)
            (rw first.1 (ap (λ b. free_loop fuel (store cells b none) c.0) c.1 ∙ rest.1)),
        (rest.3 x.address c.4 ∙ store_self cells x.address none, rest.2),
        λ b far. rest.3 b far.1 ∙ store_ne cells x.address b none far.0,
      )

  -- `cleanup` frees the node of every task once, reads none after that, and leaves all other memory;
  -- the queue is empty.
  pub queue_cleanup-frees :
      (xs : List (Item E P)) (cells : Cells E P) (queue : PoolQueue) (fuel : ℕ)
      → Queued xs cells queue
      → length xs < fuel
      → (cells' : Cells E P) × (queue' : PoolQueue) × (queue_cleanup fuel cells queue
          ≡ some (cells', queue'))
        × Queued [] cells' queue'
        × All (λ x. cells' x.address ≡ none) xs
        × ((b : Ptr) → Away b xs → cells' b ≡ cells b)
  unfolding queue_cleanup
  queue_cleanup-frees xs cells queue fuel q h =
      let freed = free_loop-Chain xs cells queue.head fuel q.chain h in
      (
        freed.0,
        record { len = pos 0; head = 0 },
        rw (queue_cleanup, freed.1) refl,
        record { chain = refl; counted = refl },
        freed.2,
        freed.3,
      )

  -- `destroy` frees the nodes in the same way.
  pub queue_destroy-frees :
      (xs : List (Item E P)) (cells : Cells E P) (queue : PoolQueue) (fuel : ℕ)
      → Queued xs cells queue
      → length xs < fuel
      → (cells' : Cells E P) × (queue_destroy fuel cells (some queue) ≡ some cells')
        × All (λ x. cells' x.address ≡ none) xs
        × ((b : Ptr) → Away b xs → cells' b ≡ cells b)
  unfolding queue_destroy
  queue_destroy-frees xs cells queue fuel q h = free_loop-Chain xs cells queue.head fuel q.chain h
