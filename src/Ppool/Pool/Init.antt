-- ===== src/Ppool/Pool/Init.antt =====
-- `ppool_init` of ppool.c against its specification.
use emberlite.Common.{
  ℕ, zero, suc, ◌+◌, ◌≡◌, refl, sym, ap, ap₂, ◌∙◌, arith, Bool, true, false, Option, none, some,
  List, [], ◌∷◌, ◌++◌, append_assoc, ℤ, pos, negsuc, ◌+ℤ◌, pos-+ℤ-one, get_or, length,
  length-append, replicate, set_elem?, set_elem?-append, inl, inr,
}
use emberlite.Ppool.Queue.{PoolQueue}
use emberlite.Ppool.Pool.{Pool, World, System, create_loop, init}
use emberlite.Ppool.Pool.Spec.{attempts, made, InitOutcome, failed, no_cond, made_pool}

abbrev with_ids : ℤ → PoolQueue → ℤ → List (Option ℕ) → Pool
with_ids n q rel id = record { pool_max_num = n; rel_num = rel; queue = q; id = id }

create_loop-attempts :
    (left : ℕ) (before created : List (Option ℕ)) (rel i : ℕ) (n : ℤ) (q : PoolQueue)
    → i ≡ length before
    → create_loop left i created (with_ids n q (pos rel) (before ++ replicate left none))
      ≡ some (
          with_ids n q
            (pos (rel + made (attempts left i created)))
            (before ++ attempts left i created))
unfolding create_loop
create_loop-attempts zero before created rel i n q h =
    ap (λ k. some (with_ids n q (pos k) (before ++ []))) {x = rel} {y = rel + 0} (omega arith)
create_loop-attempts (suc left) before created rel i n q h =
    answer (get_or created i none)
      (λ rel before h. create_loop-attempts left before created rel (i + 1) n q h)
  where
    tail : List (Option ℕ)
    tail = attempts left (i + 1) created

    fresh : List (Option ℕ)
    fresh = replicate left none

    snoc : (o : Option ℕ) → i + 1 ≡ length (before ++ o ∷ [])
    snoc o = omega (arith, h, length-append before (o ∷ []))

    answer :
        (o : Option ℕ)
        → ((rel : ℕ) (before : List (Option ℕ))
            → i + 1 ≡ length before
            → create_loop left (i + 1) created (with_ids n q (pos rel) (before ++ fresh))
              ≡ some (with_ids n q (pos (rel + made tail)) (before ++ tail)))
        → ◌≡◌ {A = Option Pool}
            (elim o [
              | none ↦
                  create_loop left (i + 1) created (with_ids n q (pos rel) (before ++ none ∷ fresh))
              | some thread ↦ elim (set_elem? (before ++ none ∷ fresh) i (some thread)) [
                | none ↦ none
                | some id' ↦ create_loop left (i + 1) created (with_ids n q (pos rel +ℤ pos 1) id')
              ]
            ])
            (some (with_ids n q (pos (rel + made (o ∷ tail))) (before ++ o ∷ tail)))
    answer none ih =
        ap (λ l. create_loop left (i + 1) created (with_ids n q (pos rel) l))
          (sym (append_assoc before (none ∷ []) fresh))
        ∙ ih rel (before ++ none ∷ []) (snoc none)
        ∙ ap (λ l. some (with_ids n q (pos (rel + made tail)) l))
            (append_assoc before (none ∷ []) tail)
    answer (some t) ih =
        rw
          (ap (λ k. set_elem? (before ++ none ∷ fresh) k (some t)) h
            ∙ set_elem?-append before none fresh (some t))
          (ap₂ (λ r l. create_loop left (i + 1) created (with_ids n q r l)) (pos-+ℤ-one rel)
              (sym (append_assoc before (some t ∷ []) fresh))
            ∙ ih (suc rel) (before ++ some t ∷ []) (snoc (some t))
            ∙ ap₂ (λ r l. some (with_ids n q (pos r) l)) {x = suc rel + made tail}
                {y = rel + suc (made tail)} (omega arith) (append_assoc before (some t ∷ []) tail))

-- What each call of the system answers, up to the threads.
answers :
    (m : ℕ) (created : List (Option ℕ)) (w : World) (pm qm im lm gm cm : Bool)
    → create_loop
        (suc m)
        0
        created
        (with_ids (pos (suc m)) (record { len = pos 0; head = 0 }) (pos 0) (replicate (suc m) none))
      ≡ some (
          with_ids
            (pos (suc m))
            (record { len = pos 0; head = 0 })
            (pos (made (attempts (suc m) 0 created)))
            (attempts (suc m) 0 created))
    → (let sys : System = record {
      pool_mem = pm;
      queue_mem = qm;
      id_mem = im;
      lock_made = lm;
      global_made = gm;
      cond_made = cm;
      created = created;
    } in
        (o : Option Pool) × (w' : World) × (init sys (pos (suc m)) w ≡ some (o, w'))
        × InitOutcome sys (pos (suc m)) w o w')
unfolding init
answers m created w false qm im lm gm cm h = (none, _, refl, failed 0 (inr refl))
answers m created w true false im lm gm cm h = (none, _, refl, failed 4 (inr refl))
answers m created w true true false lm gm cm h = (none, _, refl, failed 1 (inr refl))
answers m created w true true true false gm cm h = (none, _, refl, failed 2 (inr refl))
answers m created w true true true true false cm h = (none, _, refl, failed 2 (inr refl))
answers m created w true true true true true false h = (none, _, refl, no_cond m 3 refl refl refl)
answers m created w true true true true true true h = (_, _, rw h refl, made_pool m refl refl refl)

-- If the number is positive and every malloc and initialiser succeeds, `ppool_init` returns a pool with
-- an empty queue that owns all that was acquired and counts the threads that were made, and
-- PPOOL_LOCK, which all pools share, is initialised. Else it returns NULL, sets an error number and
-- leaves nothing live that it acquired; PPOOL_LOCK is as it was, unless it is the condition that
-- fails, when PPOOL_LOCK is destroyed, whether or not another pool had initialised it. It releases
-- nothing that is not live.
pub init-InitOutcome :
    (sys : System) (n : ℤ) (w : World)
    → (o : Option Pool) × (w' : World) × (init sys n w ≡ some (o, w')) × InitOutcome sys n w o w'
unfolding init
init-InitOutcome sys (negsuc m) w = (none, _, refl, failed 5 (inl (omega arith)))
init-InitOutcome sys (pos zero) w = (none, _, refl, failed 5 (inl (omega arith)))
init-InitOutcome sys (pos (suc m)) w =
    answers m sys.created w sys.pool_mem sys.queue_mem sys.id_mem sys.lock_made sys.global_made
      sys.cond_made
      (create_loop-attempts (suc m) [] sys.created 0 0 (pos (suc m))
          (record { len = pos 0; head = 0 }) refl
        ∙ ap
            (λ k. some (
              with_ids (pos (suc m)) (record { len = pos 0; head = 0 }) (pos k)
                (attempts (suc m) 0 sys.created)))
            {x = 0 + made (attempts (suc m) 0 sys.created)}
            {y = made (attempts (suc m) 0 sys.created)} (omega arith))
