-- ===== src/Ppool/Queue/Insert.antt =====
-- `ppool_queue_add` of ppool_queue.c, over the list of the tasks.
use emberlite.Common.{
  ℕ, zero, suc, ◌+◌, ◌<◌, ◌≡◌, ◌≢◌, refl, sym, ap, ◌∙◌, arith, Bool, true, false, Option, none,
  some, List, [], ◌∷◌, if◌then◌else◌, ℤ, pos, negsuc, ◌+ℤ◌, pos-+ℤ-one, leb_ℤ, length,
}
use emberlite.Ppool.Queue.{
  Ptr, PoolQueue, Cells, store, set_next, insert_pos_loop, get_insert_pos, advance, link_after,
  add_at, queue_add,
}
use emberlite.Ppool.Queue.Spec.{Item, node_of, Away, Chain, Queued, insert, rank}
use emberlite.Ppool.Queue.Frame.{
  eq_ne, store_self, store_ne, load_ne, load-Chain, Chain-agree, store-agree, Away-insert,
}

module _ {E P : Type 0} where
  insert_pos_loop-rank :
      (xs : List (Item E P)) (cells : Cells E P) (a : Ptr) (fuel : ℕ) (p : ℤ) (at : ℕ)
      → Chain cells a xs
      → length xs < fuel
      → insert_pos_loop fuel cells a p at ≡ some (at + rank p xs)
  unfolding insert_pos_loop rank
  insert_pos_loop-rank xs cells a zero p at c h = absurd (omega arith)
  insert_pos_loop-rank [] cells a (suc fuel) p at c h =
      rw c (ap some {x = at} {y = at + 0} (omega arith))
  insert_pos_loop-rank (x ∷ xs) cells a (suc fuel) p at c h =
      let here = load-Chain cells a x xs c in
      let rest = insert_pos_loop-rank xs cells c.0 fuel p (suc at) c.5 (omega arith) in
      rw (insert_pos_loop, eq_ne a 0 here.0) (rw here.1 (decide (leb_ℤ x.priority p) _ rest))
    where
      decide :
          (b : Bool) (o : Option ℕ)
          → o ≡ some (suc at + rank p xs)
          → (if b then o else some at) ≡ some (at + (if b then suc (rank p xs) else 0))
      decide true o e =
          e ∙ ap some {x = suc at + rank p xs} {y = at + suc (rank p xs)} (omega arith)
      decide false o e = ap some {x = at} {y = at + 0} (omega arith)

  -- A write of the pointer of a node.
  set_next-store :
      (cells : Cells E P) (x : Item E P) (old n : Ptr)
      → x.address ≢ 0
      → cells x.address ≡ some (node_of x old)
      → set_next cells x.address n ≡ some (store cells x.address (some (node_of x n)))
  unfolding set_next
  set_next-store cells x old n h e = rw (set_next, load_ne cells x.address h) (rw e refl)

  -- The node of `x`, linked behind the first of a chain.
  link_after-Chain :
      (cells : Cells E P) (a : Ptr) (y : Item E P) (ws : List (Item E P)) (x : Item E P) (old : Ptr)
      → Chain cells a (y ∷ ws)
      → x.address ≢ 0
      → Away x.address (y ∷ ws)
      → cells x.address ≡ some (node_of x old)
      → (cells' : Cells E P) × (link_after cells a x.address ≡ some cells')
        × Chain cells' a (y ∷ x ∷ ws)
        × ((b : Ptr) → b ≢ x.address → Away b (y ∷ ws) → cells' b ≡ cells b)
  unfolding link_after
  link_after-Chain cells a y ws x old c h away e = (
    cells₂,
    rw (link_after, (load-Chain cells a y ws c).1) (rw (set_next-store cells x old c.0 h e) second),
    (
      x.address,
      c.1,
      c.2,
      store_self cells₁ y.address _,
      ((λ q. away.0 (sym q)), c.4),
      (
        c.0,
        refl,
        h,
        store_ne cells₁ y.address x.address _ away.0 ∙ store_self cells x.address _,
        away.1,
        tail,
      ),
    ),
    λ b ne far. store_ne cells₁ y.address b _ far.0 ∙ store_ne cells x.address b _ ne,
  )
    where
      cells₁ : Cells E P
      cells₁ = store cells x.address (some (node_of x c.0))

      cells₂ : Cells E P
      cells₂ = store cells₁ y.address (some (node_of y x.address))

      second : set_next cells₁ a x.address ≡ some cells₂
      second =
          ap (λ b. set_next cells₁ b x.address) c.1
          ∙ set_next-store cells₁ y c.0 x.address c.2
              (store_ne cells x.address y.address _ (λ q. away.0 (sym q)) ∙ c.3)

      tail : Chain cells₂ c.0 ws
      tail =
          Chain-agree cells₁ cells₂ ws c.0 (store-agree cells₁ y.address _ ws c.4)
            (Chain-agree cells cells₁ ws c.0 (store-agree cells x.address _ ws away.1) c.5)

  advance_step :
      (n : ℕ) (cells : Cells E P) (a : Ptr) (y : Item E P) (ws : List (Item E P))
      (c : Chain cells a (y ∷ ws))
      → advance (suc n) cells a ≡ advance n cells c.0
  unfolding advance
  advance_step n cells a y ws c = rw (advance, (load-Chain cells a y ws c).1) refl

  abbrev Linked : Cells E P → Ptr → Item E P → List (Item E P) → Item E P → ℕ → Type 0
  Linked cells a y ws x n =
      (cells' : Cells E P) × ((elim (advance n cells a) [
        | none ↦ none
        | some h ↦ link_after cells h x.address
      ])
        ≡ some cells')
      × Chain cells' a (y ∷ insert x ws)
      × ((b : Ptr) → b ≢ x.address → Away b (y ∷ ws) → cells' b ≡ cells b)

  -- As many steps as nodes stay before `x`, then the link.
  advance-Chain :
      (ws : List (Item E P)) (cells : Cells E P) (a : Ptr) (y x : Item E P) (old : Ptr)
      → Chain cells a (y ∷ ws)
      → x.address ≢ 0
      → Away x.address (y ∷ ws)
      → cells x.address ≡ some (node_of x old)
      → Linked cells a y ws x (rank x.priority ws)
  unfolding insert rank advance link_after
  advance-Chain [] cells a y x old c h away e = link_after-Chain cells a y [] x old c h away e
  advance-Chain (z ∷ ws) cells a y x old c h away e =
      decide (leb_ℤ z.priority x.priority) (advance-Chain ws cells c.0 z x old c.5 h away.1 e)
    where
      decide :
          (b : Bool)
          → Linked cells c.0 z ws x (rank x.priority ws)
          → (cells' : Cells E P) × ((elim (advance
                (if b then suc (rank x.priority ws) else 0)
                cells
                a) [ none ↦ none | some h ↦ link_after cells h x.address ])
              ≡ some cells')
            × Chain cells' a (y ∷ (if b then z ∷ insert x ws else x ∷ z ∷ ws))
            × ((b : Ptr) → b ≢ x.address → Away b (y ∷ z ∷ ws) → cells' b ≡ cells b)
      decide false ih = link_after-Chain cells a y (z ∷ ws) x old c h away e
      decide true ih = (
        ih.0,
        ap (λ o. elim o [ none ↦ none | some h ↦ link_after cells h x.address ])
              (advance_step (rank x.priority ws) cells a y (z ∷ ws) c)
            ∙ ih.1,
        (
          c.0,
          c.1,
          c.2,
          ih.3 y.address (λ q. away.0 (sym q)) c.4 ∙ c.3,
          (c.4.0, Away-insert y.address x ws (λ q. away.0 (sym q)) c.4.1),
          ih.2,
        ),
        λ b ne far. ih.3 b ne far.1,
      )

  length-insert : (x : Item E P) (xs : List (Item E P)) → length (insert x xs) ≡ suc (length xs)
  unfolding insert
  length-insert x [] = refl
  length-insert x (y ∷ ys) = go (leb_ℤ y.priority x.priority) (length-insert x ys)
    where
      go :
          (b : Bool)
          → length (insert x ys) ≡ suc (length ys)
          → length (if b then y ∷ insert x ys else x ∷ y ∷ ys) ≡ suc (suc (length ys))
      go true ih = ap suc ih
      go false ih = refl

  counted-insert :
      (x : Item E P) (xs : List (Item E P)) (len : ℤ)
      → len ≡ pos (length xs)
      → len +ℤ pos 1 ≡ pos (length (insert x xs))
  counted-insert x xs len h =
      ap (λ n. n +ℤ pos 1) h ∙ pos-+ℤ-one (length xs) ∙ ap pos (sym (length-insert x xs))

  queue_add_at :
      (fuel : ℕ) (cells : Cells E P) (queue : PoolQueue) (x : Item E P) (old : Ptr) (at : ℤ)
      → x.address ≢ 0
      → cells x.address ≡ some (node_of x old)
      → get_insert_pos fuel cells queue.head x.priority ≡ some at
      → queue_add fuel cells queue x.address ≡ add_at at cells queue x.address
  unfolding queue_add
  queue_add_at fuel cells queue x old at h e g =
      rw (queue_add, load_ne cells x.address h) (rw e (rw g refl))

  get_insert_pos-nil :
      (fuel : ℕ) (cells : Cells E P) (a : Ptr) (p : ℤ)
      → a ≡ 0
      → get_insert_pos fuel cells a p ≡ some (negsuc 0)
  unfolding get_insert_pos
  get_insert_pos-nil fuel cells a p h = rw h refl

  get_insert_pos-rank :
      (fuel : ℕ) (cells : Cells E P) (a : Ptr) (p : ℤ) (y : Item E P) (ys : List (Item E P))
      → Chain cells a (y ∷ ys)
      → length (y ∷ ys) < fuel
      → get_insert_pos fuel cells a p ≡ some (pos (rank p (y ∷ ys)))
  unfolding get_insert_pos
  get_insert_pos-rank fuel cells a p y ys c h =
      rw (get_insert_pos, eq_ne a 0 (load-Chain cells a y ys c).0)
        (rw (insert_pos_loop-rank (y ∷ ys) cells a fuel p 0 c h)
          (ap (λ n. some (pos n)) {x = 0 + rank p (y ∷ ys)} {y = rank p (y ∷ ys)} (omega arith)))

  -- Before all others.
  add_at-first :
      (xs : List (Item E P)) (cells : Cells E P) (queue : PoolQueue) (x : Item E P) (old : Ptr)
      → Chain cells queue.head xs
      → x.address ≢ 0
      → Away x.address xs
      → cells x.address ≡ some (node_of x old)
      → (cells' : Cells E P) × (add_at (pos zero) cells queue x.address
          ≡ some (cells', record { len = queue.len +ℤ pos 1; head = x.address }))
        × Chain cells' x.address (x ∷ xs)
        × ((b : Ptr) → b ≢ x.address → Away b xs → cells' b ≡ cells b)
  unfolding add_at
  add_at-first xs cells queue x old c h away e = (
    store cells x.address (some (node_of x queue.head)),
    rw (add_at, set_next-store cells x old queue.head h e) refl,
    (
      queue.head,
      refl,
      h,
      store_self cells x.address _,
      away,
      Chain-agree cells _ xs queue.head (store-agree cells x.address _ xs away) c,
    ),
    λ b ne far. store_ne cells x.address b _ ne,
  )

  add_at-later :
      (cells cells' : Cells E P) (queue : PoolQueue) (x : Item E P) (n : ℕ)
      → (elim (advance n cells queue.head) [ none ↦ none | some h ↦ link_after cells h x.address ])
        ≡ some cells'
      → add_at (pos (suc n)) cells queue x.address
        ≡ some (cells', record queue { len = queue.len +ℤ pos 1 })
  unfolding add_at
  add_at-later cells cells' queue x n h = go (advance n cells queue.head) h
    where
      go :
          (o : Option Ptr)
          → (elim o [ none ↦ none | some h ↦ link_after cells h x.address ]) ≡ some cells'
          → ◌≡◌ {A = Option (Cells E P × PoolQueue)}
              (elim o [
                | none ↦ none
                | some h ↦ elim (link_after cells h x.address) [
                  | none ↦ none
                  | some cells' ↦ some (cells', record queue { len = queue.len +ℤ pos 1 })
                ]
              ])
              (some (cells', record queue { len = queue.len +ℤ pos 1 }))
      go none h = ground arith
      go (some a) h = rw h refl

  -- `queue_add` puts the node at the place of its priority: the tasks that are queued are those of
  -- `insert`, in the same nodes, and no other node is written.
  pub queue_add-insert :
      (xs : List (Item E P)) (cells : Cells E P) (queue : PoolQueue) (x : Item E P) (fuel : ℕ)
      → Queued xs cells queue
      → x.address ≢ 0
      → Away x.address xs
      → cells x.address ≡ some (node_of x 0)
      → length xs < fuel
      → (cells' : Cells E P) × (queue' : PoolQueue) × (queue_add fuel cells queue x.address
          ≡ some (cells', queue'))
        × Queued (insert x xs) cells' queue'
        × ((b : Ptr) → b ≢ x.address → Away b xs → cells' b ≡ cells b)
  unfolding insert rank add_at
  queue_add-insert [] cells queue x fuel q h away e f = (
    cells,
    record { len = queue.len +ℤ pos 1; head = x.address },
    queue_add_at fuel cells queue x 0 (negsuc 0) h e
          (get_insert_pos-nil fuel cells queue.head x.priority q.chain)
        ∙ refl,
    record { chain = (0, refl, h, e, tt, refl); counted = counted-insert x [] queue.len q.counted },
    λ b ne far. refl,
  )
  queue_add-insert (y ∷ ys) cells queue x fuel q h away e f =
      place (leb_ℤ y.priority x.priority) refl
    where
      position : Bool → Option ℤ
      position b = some (pos (if b then suc (rank x.priority ys) else 0))

      found :
          get_insert_pos fuel cells queue.head x.priority ≡ position (leb_ℤ y.priority x.priority)
      found = get_insert_pos-rank fuel cells queue.head x.priority y ys q.chain f

      place :
          (b : Bool)
          → leb_ℤ y.priority x.priority ≡ b
          → (cells' : Cells E P) × (queue' : PoolQueue) × (queue_add fuel cells queue x.address
              ≡ some (cells', queue'))
            × Queued (if b then y ∷ insert x ys else x ∷ y ∷ ys) cells' queue'
            × ((b : Ptr) → b ≢ x.address → Away b (y ∷ ys) → cells' b ≡ cells b)
      place false le =
          let put = add_at-first (y ∷ ys) cells queue x 0 q.chain h away e in
          (
            put.0,
            record { len = queue.len +ℤ pos 1; head = x.address },
            queue_add_at fuel cells queue x 0 (pos 0) h e (found ∙ ap position le) ∙ put.1,
            record {
              chain = put.2;
              counted = ap (λ n. n +ℤ pos 1) q.counted ∙ pos-+ℤ-one (suc (length ys));
            },
            put.3,
          )
      place true le =
          let put = advance-Chain ys cells queue.head y x 0 q.chain h away e in
          (
            put.0,
            record queue { len = queue.len +ℤ pos 1 },
            queue_add_at fuel cells queue x 0 (pos (suc (rank x.priority ys))) h e
                  (found ∙ ap position le)
                ∙ add_at-later cells put.0 queue x (rank x.priority ys) put.1,
            record {
              chain = put.2;
              counted =
                  ap (λ n. n +ℤ pos 1) q.counted
                  ∙ pos-+ℤ-one (suc (length ys))
                  ∙ ap (λ n. pos (suc n)) (sym (length-insert x ys));
            },
            put.3,
          )
