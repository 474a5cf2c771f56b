-- ===== src/Ppool/Worker/Nodes.antt =====
-- The nodes that the workers of ppool.c have, and those that are queued.
use emberlite.Common.{
  ℕ, ◌≡◌, ◌≢◌, ◌⊎◌, inl, inr, refl, sym, ap, subst, ◌∙◌, arith, none, some, List, [], ◌∷◌,
  ℕ_discrete,
}
use emberlite.Ppool.Queue.{Ptr, PoolNode, Cells, store}
use emberlite.Ppool.Queue.Spec.{Item, Away, Chain, insert}
use emberlite.Ppool.Queue.Frame.{eq_ne, eq_self, store_ne, Away-insert}
use emberlite.Ppool.Worker.{Thread, outside, waiting, took, calling, ran, move, wake, broadcast}

-- The node of a thread, or 0.
abbrev pub node_of_thread : Thread → Ptr
node_of_thread (took a) = a
node_of_thread (calling a) = a
node_of_thread (ran a) = a
node_of_thread place = 0

pub move_self : (t : ℕ) (place : Thread) (threads : ℕ → Thread) → move t place threads t ≡ place
move_self t place threads = rw (eq_self t) refl

pub move-ne :
    (t u : ℕ) (place : Thread) (threads : ℕ → Thread) → u ≢ t → move t place threads u ≡ threads u
move-ne t u place threads h = rw (eq_ne u t h) refl

node_of_thread-wake : (place : Thread) → node_of_thread (wake place) ≡ node_of_thread place
node_of_thread-wake waiting = refl
node_of_thread-wake place = refl

module _ {E P : Type 0} where
  -- A thread's node is allocated and not queued, and no other thread has it.
  pub record Nodes (xs : List (Item E P)) (cells : Cells E P) (threads : ℕ → Thread) : Type 0 where
    pub away : (t : ℕ) → node_of_thread (threads t) ≢ 0 → Away (node_of_thread (threads t)) xs
    pub allocated :
        (t : ℕ)
        → node_of_thread (threads t) ≢ 0
        → (c : PoolNode E P) × (cells (node_of_thread (threads t)) ≡ some c)
    pub different :
        (t u : ℕ)
        → t ≢ u
        → node_of_thread (threads t) ≢ 0
        → node_of_thread (threads t) ≢ node_of_thread (threads u)

  -- A thread that keeps its node, or gives it up.
  pub Nodes-move :
      (xs : List (Item E P)) (cells : Cells E P) (threads : ℕ → Thread) (t : ℕ) (place : Thread)
      → Nodes xs cells threads
      → (node_of_thread place ≡ 0) ⊎ (node_of_thread place ≡ node_of_thread (threads t))
      → Nodes xs cells (move t place threads)
  Nodes-move xs cells threads t place n how = record {
    away = λ u h. subst (λ a. Away a xs) (sym (same u h)) (n.away u (still u h));
    allocated = λ u h.
        subst (λ a. (c : PoolNode E P) × (cells a ≡ some c)) (sym (same u h))
          (n.allocated u (still u h));
    different = λ u v ne h. apart u v ne h;
  }
    where
      at : ℕ → Ptr
      at u = node_of_thread (move t place threads u)

      either : (u : ℕ) → (at u ≡ 0) ⊎ (at u ≡ node_of_thread (threads u))
      either u = elim (ℕ_discrete u t) [
        | yes e ↦
            subst (λ v. (at v ≡ 0) ⊎ (at v ≡ node_of_thread (threads v))) (sym e)
              (subst (λ p. (node_of_thread p ≡ 0) ⊎ (node_of_thread p ≡ node_of_thread (threads t)))
                (sym (move_self t place threads)) how)
        | no ne ↦ inr (ap node_of_thread (move-ne t u place threads ne))
      ]

      same : (u : ℕ) → at u ≢ 0 → at u ≡ node_of_thread (threads u)
      same u h = elim (either u) [ inl z ↦ absurd (h z) | inr e ↦ e ]

      still : (u : ℕ) → at u ≢ 0 → node_of_thread (threads u) ≢ 0
      still u h e = h (same u h ∙ e)

      apart : (u v : ℕ) → u ≢ v → at u ≢ 0 → at u ≢ at v
      apart u v ne h e = elim (either v) [
        | inl z ↦ h (e ∙ z)
        | inr w ↦ n.different u v ne (still u h) (sym (same u h) ∙ e ∙ w)
      ]

  -- A broadcast: every thread keeps its node.
  pub Nodes-broadcast :
      (xs : List (Item E P)) (cells : Cells E P) (threads : ℕ → Thread)
      → Nodes xs cells threads
      → Nodes xs cells (broadcast threads)
  Nodes-broadcast xs cells threads n = record {
    away = λ u h. subst (λ a. Away a xs) (sym (same u)) (n.away u (still u h));
    allocated = λ u h.
        subst (λ a. (c : PoolNode E P) × (cells a ≡ some c)) (sym (same u))
          (n.allocated u (still u h));
    different = λ u v ne h q. n.different u v ne (still u h) (sym (same u) ∙ q ∙ same v);
  }
    where
      same : (u : ℕ) → node_of_thread (broadcast threads u) ≡ node_of_thread (threads u)
      same u = node_of_thread-wake (threads u)

      still : (u : ℕ) → node_of_thread (broadcast threads u) ≢ 0 → node_of_thread (threads u) ≢ 0
      still u h e = h (same u ∙ e)

  -- A thread that takes the first task.
  pub Nodes-took :
      (x : Item E P) (xs : List (Item E P)) (cells : Cells E P) (threads : ℕ → Thread) (t : ℕ)
      (c : PoolNode E P)
      → Nodes (x ∷ xs) cells threads
      → cells x.address ≡ some c
      → Away x.address xs
      → Nodes xs cells (move t (took x.address) threads)
  Nodes-took x xs cells threads t c n e far = record {
    away = λ u. at_place u (λ a. a ≢ 0 → Away a xs) (λ h. far) (λ h. (n.away u h).1);
    allocated = λ u.
        at_place u (λ a. a ≢ 0 → (d : PoolNode E P) × (cells a ≡ some d)) (λ h. (c, e))
          (n.allocated u);
    different = λ u v ne h. elim (ℕ_discrete u t) [
      | yes p ↦ λ q. elim (ℕ_discrete v t) [
        | yes r ↦ ne (p ∙ sym r)
        | no r ↦ (n.away v (λ z. h (q ∙ there v r ∙ z))).0 (sym (there v r) ∙ sym q ∙ here_at u p)
      ]
      | no p ↦ λ q. elim (ℕ_discrete v t) [
        | yes r ↦ (n.away u (λ z. h (there u p ∙ z))).0 (sym (there u p) ∙ q ∙ here_at v r)
        | no r ↦ n.different u v ne (λ z. h (there u p ∙ z)) (sym (there u p) ∙ q ∙ there v r)
      ]
    ];
  }
    where
      at : ℕ → Ptr
      at u = node_of_thread (move t (took x.address) threads u)

      there : (u : ℕ) → u ≢ t → at u ≡ node_of_thread (threads u)
      there u h = ap node_of_thread (move-ne t u (took x.address) threads h)

      here_at : (u : ℕ) → u ≡ t → at u ≡ x.address
      here_at u h = ap at h ∙ ap node_of_thread (move_self t (took x.address) threads)

      at_place :
          (u : ℕ) (Q : Ptr → Type 0) → Q x.address → Q (node_of_thread (threads u)) → Q (at u)
      at_place u Q h k = elim (ℕ_discrete u t) [
        | yes p ↦ subst Q (sym (here_at u p)) h
        | no p ↦ subst Q (sym (there u p)) k
      ]

  -- A thread that frees its node.
  pub Nodes-freed :
      (xs : List (Item E P)) (cells : Cells E P) (threads : ℕ → Thread) (t : ℕ) (a : Ptr)
      → Nodes xs cells threads
      → threads t ≡ ran a
      → Nodes xs (store cells a none) (move t outside threads)
  Nodes-freed xs cells threads t a n e = record {
    away = m.away;
    allocated =
        λ u h. ((m.allocated u h).0, store_ne cells a _ none (other u h) ∙ (m.allocated u h).1);
    different = m.different;
  }
    where
      m : Nodes xs cells (move t outside threads)
      m = Nodes-move xs cells threads t outside n (inl refl)

      at : ℕ → Ptr
      at u = node_of_thread (move t outside threads u)

      other : (u : ℕ) → at u ≢ 0 → at u ≢ a
      other u h q = elim (ℕ_discrete u t) [
        | yes p ↦ h (ap at p ∙ ap node_of_thread (move_self t outside threads))
        | no p ↦
            let there : at u ≡ node_of_thread (threads u) =
              ap node_of_thread (move-ne t u outside threads p) in
            n.different u t p (λ z. h (there ∙ z)) (sym there ∙ q ∙ sym (ap node_of_thread e))
      ]

  -- A task that is added in a fresh node.
  pub Nodes-added :
      (x : Item E P) (xs : List (Item E P)) (cells cells' : Cells E P) (threads : ℕ → Thread)
      → Nodes xs cells threads
      → cells x.address ≡ none
      → ((b : Ptr) → b ≢ x.address → Away b xs → cells' b ≡ cells b)
      → Nodes (insert x xs) cells' threads
  Nodes-added x xs cells cells' threads n fresh frame = record {
    away = λ u h. Away-insert _ x xs (other u h) (n.away u h);
    allocated =
        λ u h. ((n.allocated u h).0, frame _ (other u h) (n.away u h) ∙ (n.allocated u h).1);
    different = n.different;
  }
    where
      other : (u : ℕ) → node_of_thread (threads u) ≢ 0 → node_of_thread (threads u) ≢ x.address
      other u h q = some_none (sym (n.allocated u h).1 ∙ ap cells q ∙ fresh)
        where
          some_none : {c : PoolNode E P} → some c ≡ none → ⊥
          some_none r = ground arith

  -- Addresses that no queued task has.
  pub Away-zero :
      (cells : Cells E P) (h : Ptr) (xs : List (Item E P)) → Chain cells h xs → Away 0 xs
  Away-zero cells h [] c = tt
  Away-zero cells h (x ∷ xs) c = ((λ e. c.2 (sym e)), Away-zero cells c.0 xs c.5)

  pub Away-fresh :
      (cells : Cells E P) (a h : Ptr) (xs : List (Item E P))
      → cells a ≡ none
      → Chain cells h xs
      → Away a xs
  Away-fresh cells a h [] e c = tt
  Away-fresh cells a h (x ∷ xs) e c =
      ((λ q. absurd (clash (sym e ∙ ap cells q ∙ c.3))), Away-fresh cells a c.0 xs e c.5)
    where
      clash : {d : PoolNode E P} → none ≡ some d → ⊥
      clash r = ground arith
