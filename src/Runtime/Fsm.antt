-- ===== src/Runtime/Fsm.antt =====
-- core/runtime/src/fsm.c and include/ember/fsm.h: a state machine driven by a table of transitions.
pub mod Spec
pub mod Dispatch
pub mod Trace
mod Tests
use emberlite.Common.{
  ℕ, zero, suc, ◌+◌, ◌≡◌, Bool, true, false, not, ◌&&◌, ◌||◌, Option, none, some, List, ◌==◌, ltb,
  if◌then◌else◌, ◌⊎◌, inl, inr, get_elem?, ℤ, is_zero,
}

-- `ember_fsm_result_t`
pub data FsmResult : Type 0 where
  ok einval enotfound eaction : FsmResult

-- `action` is a function pointer, an element of `A`, or NULL.
pub record Transition (A : Type 0) : Type 0 where
  pub from : ℕ
  pub event : ℕ
  pub to : ℕ
  pub action : Option A

-- `ember_fsm_t`. The table is what the pointer `transitions` leads to, or NULL; `U` is the type of
-- `user_data`.
pub record Fsm (A U : Type 0) : Type 0 where
  pub initial_state : ℕ
  pub current_state : ℕ
  pub transitions : Option (List (Transition A))
  pub transition_count : ℕ
  pub user_data : U

module _ {A U : Type 0} where
  -- `none` for the pointer `fsm` is NULL.
  pub init :
      Option (Fsm A U) → ℕ → Option (List (Transition A)) → ℕ → U → FsmResult × Option (Fsm A U)
  init none initial transitions count user = (einval, none)
  init (some fsm) initial none count user = if ltb 0 count then (einval, some fsm) else (
    ok,
    some (record {
      initial_state = initial;
      current_state = initial;
      transitions = none;
      transition_count = count;
      user_data = user;
    }),
  )
  init (some fsm) initial (some table) count user = (
    ok,
    some (record {
      initial_state = initial;
      current_state = initial;
      transitions = some table;
      transition_count = count;
      user_data = user;
    }),
  )

  pub reset : Option (Fsm A U) → Option (Fsm A U)
  reset none = none
  reset (some fsm) = some (record fsm { current_state = fsm.initial_state })

  pub state : Option (Fsm A U) → ℕ
  state none = 0
  state (some fsm) = fsm.current_state

  pub set_user_data : Option (Fsm A U) → U → Option (Fsm A U)
  set_user_data none user = none
  set_user_data (some fsm) user = some (record fsm { user_data = user })

  -- `fsm->transitions[i]`; `none` is a read out of bounds, or through NULL.
  pub transition_at : Fsm A U → ℕ → Option (Transition A)
  transition_at fsm i = elim fsm.transitions [ none ↦ none | some table ↦ get_elem? table i ]

-- What a call of `dispatch` leaves: `out` is what it wrote through `out_state`.
pub record Dispatched (A U W : Type 0) : Type 0 where
  pub result : FsmResult
  pub fsm : Fsm A U
  pub out : Option ℕ
  pub world : W

-- `call` runs the function behind a pointer: it may write to the machine and to the rest of the
-- world `W`, and returns an `int`.
module _ {A U W : Type 0} (call : A → Fsm A U → ℕ → ℕ → ℕ → U → W → ℤ × Fsm A U × W) where
  -- `if (out_state) *out_state = v;`
  abbrev write_out : Bool → ℕ → Option ℕ
  write_out wanted v = if wanted then some v else none

  -- The tail of the loop's body, for the transition that matches.
  pub finish : Bool → Transition A → Fsm A U → W → Dispatched A U W
  finish wanted t fsm world = record {
    result = ok;
    fsm = record fsm { current_state = t.to };
    out = write_out wanted t.to;
    world = world;
  }

  pub run_action : Bool → ℕ → Transition A → Option A → Fsm A U → W → Dispatched A U W
  unfolding finish
  run_action wanted event t none fsm world = finish wanted t fsm world
  run_action wanted event t (some action) fsm world =
      let (r, fsm', world') = call action fsm fsm.current_state event t.to fsm.user_data world in
      if not (is_zero r)
      then record { result = eaction; fsm = fsm'; out = none; world = world' }
      else finish wanted t fsm' world'

  -- The loop at `i` with `left` transitions to go; `none` is a read out of bounds.
  pub dispatch_loop : ℕ → ℕ → Bool → ℕ → Fsm A U → W → Option (Dispatched A U W)
  unfolding transition_at run_action
  dispatch_loop zero i wanted event fsm world = some (record {
    result = enotfound;
    fsm = fsm;
    out = write_out wanted fsm.current_state;
    world = world;
  })
  dispatch_loop (suc left) i wanted event fsm world =
      let next = dispatch_loop left (i + 1) wanted event fsm world in
      elim (transition_at fsm i) [
        | none ↦ none
        | some t ↦
            if not (t.from == fsm.current_state) || not (t.event == event)
            then next
            else some (run_action wanted event t t.action fsm world)
      ]

  -- On NULL nothing is read or written.
  pub dispatch : Option (Fsm A U) → ℕ → Bool → W → FsmResult ⊎ Option (Dispatched A U W)
  unfolding dispatch_loop
  dispatch none event wanted world = inl einval
  dispatch (some fsm) event wanted world =
      inr (dispatch_loop fsm.transition_count 0 wanted event fsm world)
