-- ===== src/Ppool/Pool/Destroy.antt =====
-- `ppool_destroy` of ppool.c on a pool that `ppool_init` has made.
use emberlite.Common.{
  ℕ, zero, suc, true, false, ◌+◌, ◌<◌, ◌≡◌, ◌≢◌, refl, sym, arith, Option, none, some, List, [],
  ◌∷◌, ◌++◌, append-nil, map, ℤ, pos, get_or, get_elem?, get_elem?-drop, drop, length, All, ◌==◌,
  if◌then◌else◌,
}
use emberlite.Ppool.Queue.{Ptr, PoolQueue, Cells}
use emberlite.Ppool.Queue.Spec.{Item, Away, Queued}
use emberlite.Ppool.Queue.Take.{queue_destroy-frees}
use emberlite.Ppool.Pool.{Pool, World, cancel_loop, destroy}
use emberlite.Ppool.Pool.Spec.{owned}

get_or-get_elem? :
    (xs : List (Option ℕ)) (i : ℕ) (o : Option ℕ) → get_elem? xs i ≡ some o → get_or xs i none ≡ o
get_or-get_elem? [] i o h = ground arith
get_or-get_elem? (x ∷ xs) zero o h = ground arith
get_or-get_elem? (x ∷ xs) (suc i) o h = get_or-get_elem? xs i o h

nonzero : (t : ℕ) (A : Type 0) (a b : A) → t ≢ 0 → (if t == 0 then a else b) ≡ b
nonzero zero A a b h = absurd (h refl)
nonzero (suc t) A a b h = ground arith

cancel_loop-written :
    (threads : List ℕ) (i : ℕ) (id rest : List (Option ℕ))
    → drop i id ≡ map some threads ++ rest
    → All (λ t. t ≢ 0) threads
    → cancel_loop (length threads) i id ≡ some threads
unfolding cancel_loop
cancel_loop-written [] i id rest d h = refl
cancel_loop-written (t ∷ threads) i id rest d h =
    let here = get_elem?-drop id i (some t) (map some threads ++ rest) d in
    rw (cancel_loop, get_or-get_elem? id i (some t) here.0)
      (rw (cancel_loop-written threads (i + 1) id rest here.1 h.1) (nonzero t _ _ _ h.0))

-- A pool with the ids `threads`, `o` and `later`.
abbrev pub one_id : List ℕ → Option ℕ → List ℕ → ℤ → PoolQueue → Pool
one_id threads o later rel queue = record {
  pool_max_num = pos (length threads + suc (length later));
  rel_num = rel;
  queue = queue;
  id = map some threads ++ o ∷ map some later;
}

module _ {E P : Type 0} where
  -- Every thread of the pool was made: `ppool_destroy` frees the queued nodes, cancels each thread
  -- once, and releases all that the pool owns. PPOOL_LOCK, which all pools share, was initialised and is
  -- destroyed, and nothing else is released.
  pub destroy-releases :
      (xs : List (Item E P)) (cells : Cells E P) (fuel : ℕ) (threads : List ℕ) (rel : ℤ)
      (queue : PoolQueue) (w : World)
      → Queued xs cells queue
      → length xs < fuel
      → All (λ t. t ≢ 0) threads
      → (cells' : Cells E P) × (destroy fuel cells
            (some (record {
              pool_max_num = pos (length threads);
              rel_num = rel;
              queue = queue;
              id = map some threads;
            }))
            (record w { live = owned ++ w.live; global_live = true })
          ≡ some (cells', threads, record w { global_live = false }))
        × All (λ x. cells' x.address ≡ none) xs
        × ((b : Ptr) → Away b xs → cells' b ≡ cells b)
  unfolding destroy
  destroy-releases xs cells fuel threads rel queue w q f h =
      let freed = queue_destroy-frees xs cells queue fuel q f in
      (
        freed.0,
        rw (destroy, freed.1)
            (rw (cancel_loop-written threads 0 (map some threads) [] (sym (append-nil _)) h) refl),
        freed.2,
        freed.3,
      )
