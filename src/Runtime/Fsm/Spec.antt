-- ===== src/Runtime/Fsm/Spec.antt =====
-- What a call of `ember_fsm_dispatch` promises: the first entry of the table for the current state
-- and the event decides.
use emberlite.Common.{
  ℕ, ◌≤◌, ◌≡◌, ◌≢◌, Bool, ◌&&◌, Option, none, some, List, [], ◌∷◌, ◌==◌, if◌then◌else◌, length,
  take, ℤ, pos,
}
use emberlite.Runtime.Fsm.{Transition, Fsm, Dispatched, ok, enotfound, eaction}

module _ {A U : Type 0} where
  -- The memory that the table's pointer leads to.
  abbrev pub memory : Fsm A U → List (Transition A)
  memory fsm = elim fsm.transitions [ none ↦ [] | some table ↦ table ]

  -- The table.
  abbrev pub entries : Fsm A U → List (Transition A)
  entries fsm = take fsm.transition_count (memory fsm)

  -- The pointer leads to as many entries as the count says.
  abbrev pub IsValid : Fsm A U → Type 0
  IsValid fsm = fsm.transition_count ≤ length (memory fsm)

module _ {A : Type 0} where
  abbrev pub matches : ℕ → ℕ → Transition A → Bool
  matches state event t = t.from == state && t.event == event

  unfoldable pub first_match : ℕ → ℕ → List (Transition A) → Option (Transition A)
  first_match state event [] = none
  first_match state event (t ∷ ts) =
      if matches state event t then some t else first_match state event ts

module _ {A U W : Type 0} (call : A → Fsm A U → ℕ → ℕ → ℕ → U → W → ℤ × Fsm A U × W) (event : ℕ)
    (wanted : Bool) (fsm : Fsm A U) (world : W) where
  abbrev written : ℕ → Option ℕ
  written v = if wanted then some v else none

  -- `chosen` is the entry that decides, if there is one.
  pub data Outcome (chosen : Option (Transition A)) : Dispatched A U W → Type 0 where
    -- No entry: the machine stays, and its state is reported.
    missing :
        chosen ≡ none
        → Outcome chosen (record {
          result = enotfound;
          fsm = fsm;
          out = written fsm.current_state;
          world = world;
        })
    -- An entry without an action: its target is the new state.
    plain :
        (t : Transition A)
        → chosen ≡ some t
        → t.action ≡ none
        → Outcome chosen (record {
          result = ok;
          fsm = record fsm { current_state = t.to };
          out = written t.to;
          world = world;
        })
    -- Its action returns 0: the target is the new state of the machine that the action left.
    acted :
        (t : Transition A) (action : A) (fsm' : Fsm A U) (world' : W)
        → chosen ≡ some t
        → t.action ≡ some action
        → call action fsm fsm.current_state event t.to fsm.user_data world ≡ (pos 0, fsm', world')
        → Outcome chosen (record {
          result = ok;
          fsm = record fsm' { current_state = t.to };
          out = written t.to;
          world = world';
        })
    -- It returns anything else: the machine is as the action left it, and nothing is reported.
    refused :
        (t : Transition A) (action : A) (r : ℤ) (fsm' : Fsm A U) (world' : W)
        → chosen ≡ some t
        → t.action ≡ some action
        → call action fsm fsm.current_state event t.to fsm.user_data world ≡ (r, fsm', world')
        → r ≢ pos 0
        → Outcome chosen (record { result = eaction; fsm = fsm'; out = none; world = world' })
