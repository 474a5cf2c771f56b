-- ===== src/Ppool/Pool/Spec.antt =====
-- What `ppool_init` of ppool.c promises.
use emberlite.Common.{
  ℕ, zero, suc, ◌+◌, ◌≡◌, Option, none, some, List, [], ◌∷◌, ◌++◌, ℤ, pos, negsuc, get_or, Bool,
  true, false, ◌&&◌, ◌⊎◌, ◌≤ℤ◌,
}
use emberlite.Ppool.Pool.{
  Pool, World, System, Resource, pool_block, queue_block, id_block, ppool_lock, ppool_cond,
}

-- The answers of pthread_create from the call `i` on.
abbrev pub attempts : ℕ → ℕ → List (Option ℕ) → List (Option ℕ)
attempts zero i created = []
attempts (suc left) i created = get_or created i none ∷ attempts left (i + 1) created

-- How many made a thread.
abbrev pub made : List (Option ℕ) → ℕ
made [] = 0
made (none ∷ ts) = made ts
made (some t ∷ ts) = suc (made ts)

-- All that a pool owns; PPOOL_LOCK is the pools' together.
abbrev pub owned : List Resource
owned = ppool_cond ∷ ppool_lock ∷ id_block ∷ queue_block ∷ pool_block ∷ []

-- Everything before the condition is made.
abbrev pub has_mutexes : System → Bool
has_mutexes sys =
    sys.pool_mem && (sys.queue_mem && (sys.id_mem && (sys.lock_made && sys.global_made)))

pub data InitOutcome (sys : System) (n : ℤ) (w : World) : Option Pool → World → Type 0 where
  -- No pool: an error number is left, and nothing else.
  failed :
      (e : ℕ)
      → (n ≤ℤ pos 0) ⊎ (has_mutexes sys ≡ false)
      → InitOutcome sys n w none (record w { ppool_errno = negsuc e })
  -- The same, but PPOOL_LOCK is destroyed, whether or not another pool has initialised it before.
  no_cond :
      (m e : ℕ)
      → n ≡ pos (suc m)
      → has_mutexes sys ≡ true
      → sys.cond_made ≡ false
      → InitOutcome sys n w none (record w { global_live = false; ppool_errno = negsuc e })
  -- A pool with an empty queue: everything it owns is live, PPOOL_LOCK is initialised, and it counts the threads that were made.
  made_pool :
      (m : ℕ)
      → n ≡ pos (suc m)
      → has_mutexes sys ≡ true
      → sys.cond_made ≡ true
      → InitOutcome sys n w
          (some (record {
            pool_max_num = n;
            rel_num = pos (made (attempts (suc m) 0 sys.created));
            queue = record { len = pos 0; head = 0 };
            id = attempts (suc m) 0 sys.created;
          }))
          (record w { live = owned ++ w.live; global_live = true })
