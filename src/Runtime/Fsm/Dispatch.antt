-- ===== src/Runtime/Fsm/Dispatch.antt =====
-- `ember_fsm_dispatch` of fsm.c against its specification.
use emberlite.Common.{
  ℕ, zero, suc, ◌+◌, ◌≤◌, ◌≡◌, refl, ap, ◌∙◌, arith, Bool, not, ◌||◌, Option, none, some, List, [],
  ◌∷◌, ◌==◌, if◌then◌else◌, length, take, drop, get_elem?, drop-eq-cons, inr, ℤ, pos, negsuc,
}
use emberlite.Runtime.Fsm.{
  Transition, Fsm, Dispatched, enotfound, transition_at, run_action, dispatch_loop, dispatch,
}
use emberlite.Runtime.Fsm.Spec.{
  memory, entries, IsValid, first_match, Outcome, missing, plain, acted, refused,
}

module _ {A U W : Type 0} (call : A → Fsm A U → ℕ → ℕ → ℕ → U → W → ℤ × Fsm A U × W) where
  run_action-Outcome :
      (wanted : Bool) (event : ℕ) (t : Transition A) (o : Option A) (fsm : Fsm A U) (world : W)
      → t.action ≡ o
      → Outcome call event wanted fsm world (some t) (run_action call wanted event t o fsm world)
  unfolding run_action
  run_action-Outcome wanted event t none fsm world e = plain t refl e
  run_action-Outcome wanted event t (some action) fsm world e =
      judge (call action fsm fsm.current_state event t.to fsm.user_data world) refl
    where
      judge :
          (r : ℤ × Fsm A U × W)
          → call action fsm fsm.current_state event t.to fsm.user_data world ≡ r
          → Outcome call event wanted fsm world
              (some t)
              (run_action call wanted event t (some action) fsm world)
      judge (pos zero, fsm', world') c = rw c (acted t action fsm' world' refl e c)
      judge (pos (suc n), fsm', world') c =
          rw c (refused t action (pos (suc n)) fsm' world' refl e c cc)
      judge (negsuc n, fsm', world') c = rw c (refused t action (negsuc n) fsm' world' refl e c cc)

  -- The entry that decides, or none.
  decided : Bool → ℕ → Fsm A U → W → Option (Transition A) → Dispatched A U W
  decided wanted event fsm world none = record {
    result = enotfound;
    fsm = fsm;
    out = if wanted then some fsm.current_state else none;
    world = world;
  }
  decided wanted event fsm world (some t) = run_action call wanted event t t.action fsm world

  decided-Outcome :
      (wanted : Bool) (event : ℕ) (fsm : Fsm A U) (world : W) (o : Option (Transition A))
      → Outcome call event wanted fsm world o (decided wanted event fsm world o)
  unfolding decided
  decided-Outcome wanted event fsm world none = missing refl
  decided-Outcome wanted event fsm world (some t) =
      run_action-Outcome wanted event t t.action fsm world refl

  transition_at-memory : (fsm : Fsm A U) (i : ℕ) → transition_at fsm i ≡ get_elem? (memory fsm) i
  unfolding transition_at
  transition_at-memory fsm i = go fsm.transitions
    where
      go :
          (o : Option (List (Transition A)))
          → (elim o [ none ↦ none | some table ↦ get_elem? table i ])
            ≡ get_elem? (elim o [ none ↦ [] | some table ↦ table ]) i
      go none = refl
      go (some table) = refl

  -- One round of the loop, in the source's test and in the specification's.
  round-first_match :
      (wanted : Bool) (event : ℕ) (fsm : Fsm A U) (world : W) (t : Transition A)
      (ts : List (Transition A))
      → (if not (t.from == fsm.current_state) || not (t.event == event)
          then some (decided wanted event fsm world (first_match fsm.current_state event ts))
          else some (run_action call wanted event t t.action fsm world))
        ≡ some (decided wanted event fsm world (first_match fsm.current_state event (t ∷ ts)))
  unfolding first_match decided
  round-first_match wanted event fsm world t ts = ground arith

  -- The loop from `i` on finds the first match of what is left of the table.
  dispatch_loop-first_match :
      (left i : ℕ) (wanted : Bool) (event : ℕ) (fsm : Fsm A U) (world : W)
      → i + left ≤ length (memory fsm)
      → dispatch_loop call left i wanted event fsm world
        ≡ some (
            decided wanted event fsm world
              (first_match fsm.current_state event (take left (drop i (memory fsm)))))
  unfolding dispatch_loop decided first_match
  dispatch_loop-first_match zero i wanted event fsm world h = refl
  dispatch_loop-first_match (suc left) i wanted event fsm world h =
      let (t, at, shape) = drop-eq-cons (memory fsm) i (omega arith) in
      let found = λ (k : ℕ). some (
        decided wanted event fsm world
          (first_match fsm.current_state event (take left (drop k (memory fsm))))) in
      let rest : dispatch_loop call left (i + 1) wanted event fsm world ≡ found (suc i) =
        dispatch_loop-first_match left (i + 1) wanted event fsm world (omega arith)
        ∙ ap found {x = i + 1} {y = suc i} (omega arith) in
      rw (shape, dispatch_loop, transition_at-memory fsm i ∙ at, rest)
        (round-first_match wanted event fsm world t (take left (drop (suc i) (memory fsm))))

  -- `ember_fsm_dispatch` on a machine whose table is as long as it says reads nothing out of bounds,
  -- returns, and does what the first entry for the current state and the event asks, or reports that
  -- there is none.
  pub dispatch-Outcome :
      (fsm : Fsm A U) (event : ℕ) (wanted : Bool) (world : W)
      → IsValid fsm
      → (d : Dispatched A U W) × (dispatch call (some fsm) event wanted world ≡ inr (some d))
        × Outcome call event wanted fsm world (first_match fsm.current_state event (entries fsm)) d
  unfolding dispatch
  dispatch-Outcome fsm event wanted world v =
      let o = first_match fsm.current_state event (entries fsm) in
      (
        decided wanted event fsm world o,
        ap inr
            (dispatch_loop-first_match fsm.transition_count 0 wanted event fsm world (omega arith)),
        decided-Outcome wanted event fsm world o,
      )
