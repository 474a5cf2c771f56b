-- ===== src/Ppool/Queue/Order.antt =====
-- The order of the tasks in the queue of ppool_queue.c.
use emberlite.Common.{
  ℕ, ◌<◌, ◌≡◌, ◌≢◌, refl, ap, arith, Bool, true, false, some, List, [], ◌∷◌, if◌then◌else◌, ℤ, ◌≤ℤ◌,
  pos, negsuc, ltb_ℤ, none, ◌==◌, leb_ℤ, All, length,
}
use emberlite.Ppool.Queue.{Ptr, PoolQueue, Cells, store, queue_new, queue_add}
use emberlite.Ppool.Queue.Spec.{Item, node_of, Away, Queued, insert, Sorted, Inserted}
use emberlite.Ppool.Queue.Frame.{eq_ne, store_self, store_ne, Chain-agree, store-agree}
use emberlite.Ppool.Queue.Insert.{queue_add-insert}

natural : (m : ℕ) → ltb_ℤ (pos m) (pos 0) ≡ false
natural m = ground arith

leb_ℤ-true : (a b : ℤ) → leb_ℤ a b ≡ true → a ≤ℤ b
leb_ℤ-true a b h = ground arith

leb_ℤ-false : (a b : ℤ) → leb_ℤ a b ≡ false → ¬ (a ≤ℤ b)
leb_ℤ-false a b h = λ q. ground arith

≤ℤ_of_not : (a b : ℤ) → ¬ (a ≤ℤ b) → b ≤ℤ a
≤ℤ_of_not a b h = ground arith

≤ℤ_trans : (a b c : ℤ) → a ≤ℤ b → b ≤ℤ c → a ≤ℤ c
≤ℤ_trans a b c h h' = ground arith

module _ {E P : Type 0} where
  All-trans :
      (a b : ℤ) (xs : List (Item E P))
      → a ≤ℤ b
      → All (λ y. b ≤ℤ y.priority) xs
      → All (λ y. a ≤ℤ y.priority) xs
  All-trans a b [] h all = tt
  All-trans a b (x ∷ xs) h all = (≤ℤ_trans a b x.priority h all.0, All-trans a b xs h all.1)

  -- Everything behind a task of a larger number has a larger number.
  All-later :
      (a b : ℤ) (xs : List (Item E P))
      → ¬ (b ≤ℤ a)
      → All (λ y. b ≤ℤ y.priority) xs
      → All (λ y. ¬ (y.priority ≤ℤ a)) xs
  All-later a b [] h all = tt
  All-later a b (x ∷ xs) h all =
      ((λ q. h (≤ℤ_trans b x.priority a all.0 q)), All-later a b xs h all.1)

  All-insert :
      (a : ℤ) (x : Item E P) (xs : List (Item E P))
      → a ≤ℤ x.priority
      → All (λ y. a ≤ℤ y.priority) xs
      → All (λ y. a ≤ℤ y.priority) (insert x xs)
  unfolding insert
  All-insert a x [] h all = (h, tt)
  All-insert a x (y ∷ ys) h all = go (leb_ℤ y.priority x.priority) (All-insert a x ys h all.1)
    where
      go :
          (b : Bool)
          → All (λ y. a ≤ℤ y.priority) (insert x ys)
          → All (λ y. a ≤ℤ y.priority) (if b then y ∷ insert x ys else x ∷ y ∷ ys)
      go true ih = (all.0, ih)
      go false ih = (h, all)

  insert-Inserted :
      (x : Item E P) (xs : List (Item E P))
      → Sorted xs
      → Inserted x xs (insert x xs) × Sorted (insert x xs)
  unfolding insert
  insert-Inserted x [] s = (
    record { before = []; after = []; split = refl; joined = refl; not_later = tt; later = tt },
    (tt, tt),
  )
  insert-Inserted x (y ∷ ys) s = go (leb_ℤ y.priority x.priority) refl (insert-Inserted x ys s.1)
    where
      go :
          (b : Bool)
          → leb_ℤ y.priority x.priority ≡ b
          → Inserted x ys (insert x ys) × Sorted (insert x ys)
          → Inserted x (y ∷ ys) (if b then y ∷ insert x ys else x ∷ y ∷ ys)
            × Sorted (if b then y ∷ insert x ys else x ∷ y ∷ ys)
      go true le ih =
          let small = leb_ℤ-true y.priority x.priority le in
          (
            record {
              before = y ∷ ih.0.before;
              after = ih.0.after;
              split = ap (◌∷◌ y) ih.0.split;
              joined = ap (◌∷◌ y) ih.0.joined;
              not_later = (small, ih.0.not_later);
              later = ih.0.later;
            },
            (All-insert y.priority x ys small s.0, ih.1),
          )
      go false le ih =
          let large = leb_ℤ-false y.priority x.priority le in
          let below = ≤ℤ_of_not y.priority x.priority large in
          (
            record {
              before = [];
              after = y ∷ ys;
              split = refl;
              joined = refl;
              not_later = tt;
              later = (large, All-later x.priority y.priority ys large s.0);
            },
            ((below, All-trans x.priority y.priority ys below s.0), s),
          )

  -- On a queue of tasks in the order of their priority numbers, `queue_add` of a fresh node puts it
  -- behind the tasks of a smaller or the same number and before the others, which stay in order;
  -- no other node is written. The node is allocated, its next pointer is NULL, and the loop has more
  -- steps than there are tasks.
  pub queue_add-Inserted :
      (xs : List (Item E P)) (cells : Cells E P) (queue : PoolQueue) (x : Item E P) (fuel : ℕ)
      → Queued xs cells queue
      → Sorted xs
      → x.address ≢ 0
      → Away x.address xs
      → cells x.address ≡ some (node_of x 0)
      → length xs < fuel
      → (cells' : Cells E P) × (queue' : PoolQueue) × (ys : List (Item E P)) × (queue_add fuel cells
            queue x.address
          ≡ some (cells', queue'))
        × Queued ys cells' queue'
        × Inserted x xs ys
        × Sorted ys
        × ((b : Ptr) → b ≢ x.address → Away b xs → cells' b ≡ cells b)
  queue_add-Inserted xs cells queue x fuel q s h away e f =
      let put = queue_add-insert xs cells queue x fuel q h away e f in
      let order = insert-Inserted x xs s in
      (put.0, put.1, insert x xs, put.2, put.3, order.0, order.1, put.4)

  -- A node from `queue_new` changes nothing that is queued.
  pub queue_new-fresh :
      (xs : List (Item E P)) (cells : Cells E P) (queue : PoolQueue) (x : Item E P) (n : ℕ)
      → x.priority ≡ pos n
      → Queued xs cells queue
      → x.address ≢ 0
      → Away x.address xs
      → (cells' : Cells E P) × (queue_new x.address cells x.entry x.parameter x.priority
          ≡ (none, x.address, cells'))
        × Queued xs cells' queue
        × (cells' x.address ≡ some (node_of x 0))
        × ((b : Ptr) → b ≢ x.address → cells' b ≡ cells b)
  unfolding queue_new
  queue_new-fresh xs cells queue x n p q h away = (
    store cells x.address (some (node_of x 0)),
    choose x.priority p (eq_ne x.address 0 h),
    record {
      chain = Chain-agree cells _ xs queue.head (store-agree cells x.address _ xs away) q.chain;
      counted = q.counted;
    },
    store_self cells x.address _,
    λ b ne. store_ne cells x.address b _ ne,
  )
    where
      choose :
          (p : ℤ)
          → p ≡ pos n
          → (x.address == 0) ≡ false
          → queue_new x.address cells x.entry x.parameter p ≡ (
            none,
            x.address,
            store cells x.address (
                some (record { entry = x.entry; parameter = x.parameter; priority = p; next = 0 })),
          )
      choose (negsuc m) e z = ground arith
      choose (pos m) e z = rw (queue_new, natural m) (rw z refl)
