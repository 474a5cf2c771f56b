-- ===== src/Runtime/Fsm/Trace.antt =====
-- A machine driven by a sequence of events stays on the edges of its table.
use emberlite.Common.{
  ℕ, ◌≤◌, ◌≡◌, refl, ap, sym, ◌∙◌, subst, arith, Bool, false, Option, none, some, List, [], ◌∷◌,
  inl, inr, ◌⊎◌, ℤ, length,
}
use emberlite.Runtime.Fsm.{Transition, Fsm, Dispatched, FsmResult, ok, dispatch, init, reset}
use emberlite.Runtime.Fsm.Spec.{
  entries, IsValid, first_match, Outcome, missing, plain, acted, refused,
}
use emberlite.Runtime.Fsm.Dispatch.{dispatch-Outcome}

-- From `s` the edges that `dispatch` takes lead to the last index.
pub data Reach {A : Type 0} (table : List (Transition A)) (s : ℕ) : ℕ → Type 0 where
  here : Reach table s s
  next :
      {u v : ℕ} (event : ℕ) (t : Transition A)
      → Reach table s u
      → first_match u event table ≡ some t
      → t.to ≡ v
      → Reach table s v

Reach-trans :
    {A : Type 0} {table : List (Transition A)} {s u v : ℕ}
    → Reach table s u
    → Reach table u v
    → Reach table s v
Reach-trans r here = r
Reach-trans r (next event t q m e) = next event t (Reach-trans r q) m e

module _ {A U W : Type 0} (call : A → Fsm A U → ℕ → ℕ → ℕ → U → W → ℤ × Fsm A U × W) where
  abbrev machine_after : FsmResult ⊎ Option (Dispatched A U W) → Option (Fsm A U × W)
  machine_after (inl r) = none
  machine_after (inr none) = none
  machine_after (inr (some d)) = some (d.fsm, d.world)

  -- A client that dispatches one event after another, and looks at no result.
  pub run_events : Fsm A U → W → List ℕ → Option (Fsm A U × W)
  run_events fsm world [] = some (fsm, world)
  run_events fsm world (event ∷ events) =
      elim (machine_after (dispatch call (some fsm) event false world)) [
        | none ↦ none
        | some (fsm', world') ↦ run_events fsm' world' events
      ]

  -- The actions do not write to the machine.
  abbrev pub LeavesMachine : Type 0
  LeavesMachine =
      (action : A) (fsm : Fsm A U) (from event to : ℕ) (user : U) (world : W)
      → (call action fsm from event to user world).1 ≡ fsm

  -- What one event changes: only the state, and that along an edge.
  record Moved (fsm fsm' : Fsm A U) : Type 0 where
    edges : Reach (entries fsm) fsm.current_state fsm'.current_state
    rest : fsm' ≡ record fsm { current_state = fsm'.current_state }

  Outcome-Moved :
      LeavesMachine
      → (event : ℕ) (wanted : Bool) (fsm : Fsm A U) (world : W) (o : Option (Transition A))
        (d : Dispatched A U W)
      → o ≡ first_match fsm.current_state event (entries fsm)
      → Outcome call event wanted fsm world o d
      → Moved fsm d.fsm
  Outcome-Moved quiet event wanted fsm world o d e (missing _) = record {
    edges = here;
    rest = refl;
  }
  Outcome-Moved quiet event wanted fsm world o d e (plain t m _) = record {
    edges = next event t here (sym e ∙ m) refl;
    rest = refl;
  }
  Outcome-Moved quiet event wanted fsm world o d e (acted t action fsm' world' m _ c) = record {
    edges = next event t here (sym e ∙ m) refl;
    rest =
        ap (λ (f : Fsm A U). record f { current_state = t.to })
          (sym (ap (λ r. r.1) c)
            ∙ quiet action fsm fsm.current_state event t.to fsm.user_data world);
  }
  Outcome-Moved quiet event wanted fsm world o d e (refused t action r fsm' world' m _ c _) =
      let same =
        sym (ap (λ r. r.1) c) ∙ quiet action fsm fsm.current_state event t.to fsm.user_data world in
      subst (Moved fsm) (sym same) (record { edges = here; rest = refl })

  -- If the actions do not write to the machine, any sequence of events leaves a machine with a
  -- valid table in a state that the edges of the table lead to from the first, with all else as it
  -- was.
  pub run_events-Reach :
      (events : List ℕ) (fsm : Fsm A U) (world : W)
      → LeavesMachine
      → IsValid fsm
      → (fsm' : Fsm A U) × (world' : W) × (run_events fsm world events ≡ some (fsm', world'))
        × Reach (entries fsm) fsm.current_state fsm'.current_state
        × (fsm' ≡ record fsm { current_state = fsm'.current_state })
  unfolding run_events
  run_events-Reach [] fsm world quiet v = (fsm, world, refl, here, refl)
  run_events-Reach (event ∷ events) fsm world quiet v =
      let (d, e, o) = dispatch-Outcome call fsm event false world v in
      let m = Outcome-Moved quiet event false fsm world _ d refl o in
      let same_table = ap entries m.rest in
      let (fsm', world', r, edges, rest) =
        run_events-Reach events d.fsm d.world quiet (subst IsValid (sym m.rest) v) in
      (
        fsm',
        world',
        rw (e, run_events) r,
        Reach-trans m.edges
            (subst (λ table. Reach table d.fsm.current_state fsm'.current_state) same_table edges),
        rest ∙ ap (λ (f : Fsm A U). record f { current_state = fsm'.current_state }) m.rest,
      )

  init-IsValid :
      (old : Fsm A U) (initial : ℕ) (table : List (Transition A)) (count : ℕ) (user : U)
      {m : Fsm A U}
      → count ≤ length table
      → init (some old) initial (some table) count user ≡ (ok, some m)
      → IsValid m × (m.current_state ≡ initial) × (m.initial_state ≡ initial)
  unfolding init
  init-IsValid old initial table count user h e = ground arith

  -- A machine that `ember_fsm_init` has set up on a table of at least `count` entries, driven by any
  -- events whose actions do not write to it, and then reset, is the machine that `init` left.
  pub init_run_reset :
      (old : Fsm A U) (initial : ℕ) (table : List (Transition A)) (count : ℕ) (user : U)
      (events : List ℕ) (world : W) {m : Fsm A U}
      → LeavesMachine
      → count ≤ length table
      → init (some old) initial (some table) count user ≡ (ok, some m)
      → (fsm' : Fsm A U) × (world' : W) × (run_events m world events ≡ some (fsm', world'))
        × (reset (some fsm') ≡ some m)
  unfolding reset
  init_run_reset old initial table count user events world {m} quiet h e =
      let (v, current, first) = init-IsValid old initial table count user h e in
      let (fsm', world', r, edges, rest) = run_events-Reach events m world quiet v in
      (
        fsm',
        world',
        r,
        ap (λ (f : Fsm A U). some (record f { current_state = f.initial_state })) rest
            ∙ ap (λ s. some (record m { current_state = s })) (first ∙ sym current),
      )
