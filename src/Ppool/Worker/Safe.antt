-- ===== src/Ppool/Worker/Safe.antt =====
-- What holds of the workers of ppool.c in every order of their steps.
use emberlite.Common.{
  ℕ, ◌≡◌, ◌≢◌, refl, sym, ap, subst, ◌∙◌, Bool, true, false, some, pos, leb_ℤ, inl, inr,
}
use emberlite.Ppool.Queue.{Ptr, PoolNode, PoolQueue, Cells, load, queue_get_task}
use emberlite.Ppool.Queue.Spec.{Queued}
use emberlite.Ppool.Queue.Frame.{load_ne}
use emberlite.Ppool.Worker.{
  outside, inside, ran, Shared, Step, locks, waits, wakes, takes, continues, calls, returns, frees,
  adds, Reach, here, next, start,
}
use emberlite.Ppool.Worker.Nodes.{node_of_thread, Nodes-move}
use emberlite.Ppool.Worker.Lock.{is_inside, some_inj, Locked-enters, Idle-move}
use emberlite.Ppool.Worker.Invariant.{
  Inv, start-Inv, keeps, get_task-first, takes-Inv, frees-Inv, adds-Inv, waits-Inv, calls-Inv,
}

module _ {E P : Type 0} where
  pub Step-Inv : {others : Bool} (s s' : Shared E P) → Step others s s' → Inv s → Inv s'
  Step-Inv s s' (locks t e free eq) i = subst Inv (sym eq) (record {
    tasks = i.tasks;
    queued = i.queued;
    nodes = Nodes-move i.tasks s.cells s.threads t inside i.nodes (inl refl);
    locked = Locked-enters s.lock s.threads t i.locked free;
    idle = Idle-move _ s.threads t inside i.idle refl;
  })
  Step-Inv s s' (waits t e empty eq) i = subst Inv (sym eq) (waits-Inv s t i e empty)
  Step-Inv s s' (wakes t o e eq) i =
      subst Inv (sym eq) (keeps s t outside i (ap is_inside e) refl refl (inl refl))
  Step-Inv s s' (takes t a queue' e h got eq) i =
      subst Inv (sym eq) (takes-Inv s t a queue' i e h got)
  Step-Inv s s' (continues t e eq) i =
      subst Inv (sym eq) (keeps s t outside i (ap is_inside e) refl refl (inl refl))
  Step-Inv s s' (calls t a c e there eq) i = subst Inv (sym eq) (calls-Inv s t a c i e)
  Step-Inv s s' (returns t a o e eq) i =
      subst Inv (sym eq)
        (keeps s t (ran a) i (ap is_inside e) refl refl (inr (sym (ap node_of_thread e))))
  Step-Inv s s' (frees t a e eq) i = subst Inv (sym eq) (frees-Inv s t a i e)
  Step-Inv s s'
        (adds got entry parameter priority n made added queue' o free real fresh new len put eq) i =
      subst Inv (sym eq) (
        adds-Inv s
          (record { address = got; entry = entry; parameter = parameter; priority = pos priority })
          priority n made added queue' i refl real fresh new len put)

  pub Reach-Inv : {others : Bool} (s s' : Shared E P) → Reach others s s' → Inv s → Inv s'
  Reach-Inv s s' here i = i
  Reach-Inv s s'' (next {s'} before step) i = Step-Inv s' s'' step (Reach-Inv s s' before i)

  pub record Safe (s : Shared E P) : Type 0 where
    pub alone : (t u : ℕ) → s.threads t ≡ inside → s.threads u ≡ inside → t ≡ u
    pub own :
        (t u : ℕ)
        → t ≢ u
        → node_of_thread (s.threads t) ≢ 0
        → node_of_thread (s.threads t) ≢ node_of_thread (s.threads u)
    pub allocated :
        (t : ℕ)
        → node_of_thread (s.threads t) ≢ 0
        → (c : PoolNode E P) × (load s.cells (node_of_thread (s.threads t)) ≡ some c)
    pub taken :
        leb_ℤ s.queue.len (pos 0) ≡ false
        → (a : Ptr) × (queue' : PoolQueue) × (queue_get_task s.cells s.queue ≡ some (a, queue'))
          × (a ≢ 0)

  Inv-Safe : (s : Shared E P) → Inv s → Safe s
  Inv-Safe s i = record {
    alone = λ t u e e'. some_inj t u (sym ((i.locked t).0 e) ∙ (i.locked u).0 e');
    own = i.nodes.different;
    allocated =
        λ t h. let there = i.nodes.allocated t h in (there.0, load_ne s.cells _ h ∙ there.1);
    taken = λ h.
        let f = get_task-first s i h in
        (f.0.address, f.2, f.4, (subst (λ xs. Queued xs s.cells s.queue) f.3 i.queued).chain.2);
  }

  -- From a pool of ppool_init, whatever the workers and the clients that add tasks do in whatever order:
  -- at most one worker is behind the lock; no two workers have the same node, so no task is called or
  -- freed by two of them; the node of a worker is allocated when it is read and freed; and with a positive
  -- `len` `get_task` touches no memory that is not allocated, and returns a node.
  pub Reach-Safe : (cells : Cells E P) (s : Shared E P) → Reach true (start cells) s → Safe s
  Reach-Safe cells s reach = Inv-Safe s (Reach-Inv (start cells) s reach (start-Inv cells))
