-- ===== src/Runtime/Fsm/Tests.antt =====
-- Runs of fsm.c, and its theorems at inputs.
use emberlite.Common.{
  ℕ, ◌+◌, ◌≡◌, refl, arith, true, none, some, List, [], ◌∷◌, ◌==◌, if◌then◌else◌, ℤ, pos, inr,
}
use emberlite.Runtime.Fsm.{Transition, Fsm, Dispatched, ok, eaction, init, reset, dispatch}
use emberlite.Runtime.Fsm.Spec.{entries, first_match, Outcome}
use emberlite.Runtime.Fsm.Dispatch.{dispatch-Outcome}
use emberlite.Runtime.Fsm.Trace.{Reach, run_events, run_events-Reach, init_run_reset}

-- A lamp: 0 is off and 1 is on; event 7 toggles. Action 5 counts in the world, action 9 refuses.
abbrev table : List (Transition ℕ)
table =
    record { from = 0; event = 7; to = 1; action = some 5 }
    ∷ record { from = 1; event = 7; to = 0; action = none }
    ∷ record { from = 1; event = 8; to = 0; action = some 9 }
    ∷ []

abbrev lamp : Fsm ℕ ℕ
lamp = record {
  initial_state = 0;
  current_state = 0;
  transitions = some table;
  transition_count = 3;
  user_data = 40;
}

abbrev call : ℕ → Fsm ℕ ℕ → ℕ → ℕ → ℕ → ℕ → ℕ → ℤ × Fsm ℕ ℕ × ℕ
call action fsm from event to user world =
    if action == 5 then (pos 0, fsm, world + user) else (pos 1, fsm, world)

toggled :
    dispatch call (some lamp) 7 true 2
    ≡ inr (
        some (record {
          result = ok;
          fsm = record lamp { current_state = 1 };
          out = some 1;
          world = 42;
        }))
unfolding dispatch
toggled = refl

refused_run :
    dispatch call (some (record lamp { current_state = 1 })) 8 true 2
    ≡ inr (
        some (record {
          result = eaction;
          fsm = record lamp { current_state = 1 };
          out = none;
          world = 2;
        }))
unfolding dispatch
refused_run = refl

dispatch-Outcome_example :
    (d : Dispatched ℕ ℕ ℕ) × (dispatch call (some lamp) 8 true 2 ≡ inr (some d))
    × Outcome call 8 true lamp 2 (first_match 0 8 (entries lamp)) d
dispatch-Outcome_example = dispatch-Outcome call lamp 8 true 2 (omega arith)

run_events-Reach_example :
    (fsm' : Fsm ℕ ℕ) × (world' : ℕ) × (run_events call lamp 0 (7 ∷ 8 ∷ 7 ∷ [])
      ≡ some (fsm', world'))
    × Reach (entries lamp) 0 fsm'.current_state
    × (fsm' ≡ record lamp { current_state = fsm'.current_state })
run_events-Reach_example =
    run_events-Reach call (7 ∷ 8 ∷ 7 ∷ []) lamp 0 (λ a f x e t u w. ground arith) (omega arith)

init_run_reset_example :
    (fsm' : Fsm ℕ ℕ) × (world' : ℕ) × (run_events call lamp 0 (7 ∷ []) ≡ some (fsm', world'))
    × (reset (some fsm') ≡ some lamp)
unfolding init
init_run_reset_example =
    init_run_reset call (record lamp { current_state = 9 }) 0 table 3 40 (7 ∷ []) 0
      (λ a f x e t u w. ground arith) (omega arith) refl
