-- ===== src/Ppool/Worker/Invariant.antt =====
-- What each step of the workers of ppool.c keeps: the lock, the queue and the nodes.
use emberlite.Common.{
  ℕ, suc, ◌≡◌, ◌≢◌, ◌⊎◌, ◌<◌, refl, sym, ap, subst, ◌∙◌, arith, true, false, none, some, List, [],
  ◌∷◌, ◌++◌, ℤ, pos, leb_ℤ, length, ℕ_discrete, inl, inr,
}
use emberlite.Ppool.Queue.{
  Ptr, PoolNode, PoolQueue, Cells, store, queue_new, queue_add, queue_get_task,
}
use emberlite.Ppool.Queue.Spec.{Item, Away, Queued, insert}
use emberlite.Ppool.Queue.Frame.{Chain-agree, store-agree}
use emberlite.Ppool.Queue.Insert.{queue_add-insert}
use emberlite.Ppool.Queue.Order.{queue_new-fresh}
use emberlite.Ppool.Queue.Take.{queue_get_task-cons}
use emberlite.Ppool.Worker.{
  Thread, outside, inside, waiting, took, calling, ran, Shared, move, broadcast, start,
}
use emberlite.Ppool.Worker.Nodes.{
  node_of_thread, Nodes, Nodes-move, Nodes-took, Nodes-freed, Nodes-added, Nodes-broadcast,
  Away-zero, Away-fresh,
}
use emberlite.Ppool.Worker.Lock.{
  is_inside, unlike, some_inj, none-some, nil_cons, Idle, is_waiting, not_waiting, wake-awake,
  Locked, Idle-move, Locked-broadcast, Locked-move, Locked-leaves,
}

module _ {E P : Type 0} where
  pub record Inv (s : Shared E P) : Type 0 where
    pub tasks : List (Item E P)
    pub queued : Queued tasks s.cells s.queue
    pub nodes : Nodes tasks s.cells s.threads
    pub locked : Locked s.lock s.threads
    pub idle : Idle (tasks ≡ []) s.threads

  pub start-Inv : (cells : Cells E P) → Inv (start cells)
  start-Inv cells = record {
    tasks = [];
    queued = record { chain = refl; counted = refl };
    nodes = record {
      away = λ t h. absurd (h refl);
      allocated = λ t h. absurd (h refl);
      different = λ t u ne h. absurd (h refl);
    };
    locked = λ t. (λ e. absurd (unlike outside refl e), λ e. absurd (none-some t e));
    idle = λ t e. absurd (not_waiting outside refl e);
  }

  pub keeps :
      (s : Shared E P) (t : ℕ) (place : Thread)
      → Inv s
      → is_inside (s.threads t) ≡ false
      → is_inside place ≡ false
      → is_waiting place ≡ false
      → (node_of_thread place ≡ 0) ⊎ (node_of_thread place ≡ node_of_thread (s.threads t))
      → Inv (record s { threads = move t place s.threads })
  keeps s t place i old p awake how = record {
    tasks = i.tasks;
    queued = i.queued;
    nodes = Nodes-move i.tasks s.cells s.threads t place i.nodes how;
    locked = Locked-move s.lock s.threads t place i.locked (unlike _ old) (unlike place p);
    idle = Idle-move _ s.threads t place i.idle awake;
  }

  -- A thread that calls its task keeps the node.
  pub calls-Inv :
      (s : Shared E P) (t : ℕ) (a : Ptr) (c : PoolNode E P)
      → Inv s
      → s.threads t ≡ took a
      → Inv (record s {
        threads = move t (calling a) s.threads;
        calls = s.calls ++ ((c.entry, c.parameter) ∷ []);
      })
  calls-Inv s t a c i e =
      let m =
        keeps s t (calling a) i (ap is_inside e) refl refl (inr (sym (ap node_of_thread e))) in
      record {
        tasks = m.tasks;
        queued = m.queued;
        nodes = m.nodes;
        locked = m.locked;
        idle = m.idle;
      }

  -- A task is there when `len` is positive, and `get_task` takes it.
  pub get_task-first :
      (s : Shared E P)
      → (i : Inv s) → leb_ℤ s.queue.len (pos 0) ≡ false
      → (x : Item E P) × (xs : List (Item E P)) × (queue' : PoolQueue) × (i.tasks ≡ x ∷ xs)
        × (queue_get_task s.cells s.queue ≡ some (x.address, queue'))
        × Queued xs s.cells queue'
        × Away x.address xs
  get_task-first s i h = go i.tasks refl i.queued
    where
      go :
          (xs : List (Item E P))
          → i.tasks ≡ xs
          → Queued xs s.cells s.queue
          → (x : Item E P) × (xs : List (Item E P)) × (queue' : PoolQueue) × (i.tasks ≡ x ∷ xs)
            × (queue_get_task s.cells s.queue ≡ some (x.address, queue'))
            × Queued xs s.cells queue'
            × Away x.address xs
      go [] e q = absurd (clash (sym h ∙ ap (λ n. leb_ℤ n (pos 0)) q.counted))
        where
          clash : false ≢ leb_ℤ (pos 0) (pos 0)
          clash r = ground arith
      go (x ∷ xs) e q =
          let got = queue_get_task-cons s.cells s.queue x xs q in
          (x, xs, got.0, e, got.1, got.2, got.3)

  pub takes-Inv :
      (s : Shared E P) (t : ℕ) (a : Ptr) (queue' : PoolQueue)
      → Inv s
      → s.threads t ≡ inside
      → leb_ℤ s.queue.len (pos 0) ≡ false
      → queue_get_task s.cells s.queue ≡ some (a, queue')
      → Inv (record s { queue = queue'; lock = none; threads = move t (took a) s.threads })
  takes-Inv s t a queue' i e h got =
      subst
        (λ p. Inv (record s { queue = p.1; lock = none; threads = move t (took p.0) s.threads }))
        (some_inj (f.0.address, f.2) (a, queue') (sym f.4 ∙ got))
        (record {
          tasks = f.1;
          queued = f.5;
          nodes =
              Nodes-took f.0 f.1 s.cells s.threads t _
                (subst (λ xs. Nodes xs s.cells s.threads) f.3 i.nodes)
                (subst (λ xs. Queued xs s.cells s.queue) f.3 i.queued).chain.3 f.6;
          locked = Locked-leaves s.lock s.threads t (took f.0.address) i.locked e (unlike _ refl);
          idle =
              Idle-move _ s.threads t (took f.0.address)
                (λ u w. absurd (nil_cons _ _ (sym (i.idle u w) ∙ f.3))) refl;
        })
    where
      f :
          (x : Item E P) × (xs : List (Item E P)) × (queue' : PoolQueue) × (i.tasks ≡ x ∷ xs)
          × (queue_get_task s.cells s.queue ≡ some (x.address, queue'))
          × Queued xs s.cells queue'
          × Away x.address xs
      f = get_task-first s i h

  -- A node that is behind its call is not queued.
  pub ran-Away :
      (s : Shared E P) (t : ℕ) (a : Ptr) (i : Inv s) → s.threads t ≡ ran a → Away a i.tasks
  ran-Away s t a i e = elim (ℕ_discrete a 0) [
    | yes z ↦
        subst (λ b. Away b i.tasks) (sym z) (Away-zero s.cells s.queue.head i.tasks i.queued.chain)
    | no z ↦
        subst (λ b. Away b i.tasks) (ap node_of_thread e)
          (i.nodes.away t (λ q. z (sym (ap node_of_thread e) ∙ q)))
  ]

  -- A thread that finds no task waits.
  pub waits-Inv :
      (s : Shared E P) (t : ℕ)
      → Inv s
      → s.threads t ≡ inside
      → leb_ℤ s.queue.len (pos 0) ≡ true
      → Inv (record s { lock = none; threads = move t waiting s.threads })
  waits-Inv s t i e empty = record {
    tasks = i.tasks;
    queued = i.queued;
    nodes = Nodes-move i.tasks s.cells s.threads t waiting i.nodes (inl refl);
    locked = Locked-leaves s.lock s.threads t waiting i.locked e (unlike waiting refl);
    idle = λ u w. no_tasks i.tasks s.queue.len i.queued.counted empty;
  }
    where
      no_tasks :
          (xs : List (Item E P)) (len : ℤ)
          → len ≡ pos (length xs)
          → leb_ℤ len (pos 0) ≡ true
          → xs ≡ []
      no_tasks [] len c h = refl
      no_tasks (x ∷ xs) len c h = absurd (clash (sym (ap (λ n. leb_ℤ n (pos 0)) c) ∙ h))
        where
          clash : leb_ℤ (pos (suc (length xs))) (pos 0) ≢ true
          clash r = ground arith

  pub frees-Inv :
      (s : Shared E P) (t : ℕ) (a : Ptr)
      → Inv s
      → s.threads t ≡ ran a
      → Inv (record s { cells = store s.cells a none; threads = move t outside s.threads })
  frees-Inv s t a i e = record {
    tasks = i.tasks;
    queued = record {
      chain =
          Chain-agree s.cells _ i.tasks s.queue.head (store-agree s.cells a none i.tasks far)
            i.queued.chain;
      counted = i.queued.counted;
    };
    nodes = Nodes-freed i.tasks s.cells s.threads t a i.nodes e;
    locked =
        Locked-move s.lock s.threads t outside i.locked (unlike _ (ap is_inside e))
          (unlike outside refl);
    idle = Idle-move _ s.threads t outside i.idle refl;
  }
    where
      far : Away a i.tasks
      far = ran-Away s t a i e

  pub adds-Inv :
      (s : Shared E P) (x : Item E P) (priority n : ℕ) (made added : Cells E P) (queue' : PoolQueue)
      → Inv s
      → x.priority ≡ pos priority
      → x.address ≢ 0
      → s.cells x.address ≡ none
      → queue_new x.address s.cells x.entry x.parameter x.priority ≡ (none, x.address, made)
      → s.queue.len ≡ pos n
      → queue_add (suc n) made s.queue x.address ≡ some (added, queue')
      → Inv (record s { cells = added; queue = queue'; threads = broadcast s.threads })
  adds-Inv s x priority n made added queue' i p real free new_made len add_made =
      let new = queue_new-fresh i.tasks s.cells s.queue x priority p i.queued real far in
      let same : new.0 ≡ made = ap (λ r. r.2) (sym new.1 ∙ new_made) in
      let put =
        queue_add-insert i.tasks new.0 s.queue x (suc n) new.2 real far new.3
          (room n (length i.tasks) (sym len ∙ i.queued.counted)) in
      subst (λ r. Inv (record s { cells = r.0; queue = r.1; threads = broadcast s.threads }))
        (some_inj (put.0, put.1) (added, queue')
          (sym put.2 ∙ ap (λ c. queue_add (suc n) c s.queue x.address) same ∙ add_made))
        (record {
          tasks = insert x i.tasks;
          queued = put.3;
          nodes =
              Nodes-added x i.tasks s.cells put.0 (broadcast s.threads)
                (Nodes-broadcast i.tasks s.cells s.threads i.nodes) free
                (λ b ne away. put.4 b ne away ∙ new.4 b ne);
          locked = Locked-broadcast s.lock s.threads i.locked;
          idle = λ u w. absurd (wake-awake (s.threads u) w);
        })
    where
      far : Away x.address i.tasks
      far = Away-fresh s.cells x.address s.queue.head i.tasks free i.queued.chain

      room : (m k : ℕ) → pos m ≡ pos k → k < suc m
      room m k e = ground arith
