-- ===== src/Runtime/NodeRegistry/Tests.antt =====
-- Runs of node_registry.c, and its theorems at inputs.
use emberlite.Common.{ℕ, ◌≡◌, refl, arith, Option, none, some, List, [], ◌∷◌, ◌++◌, replicate}
use emberlite.Runtime.NodeRegistry.{
  NodeRecord, Registry, RegistryResult, ok, edup, kind_device, state_init, state_ready, register,
  unregister, find, update_state, heartbeat,
}
use emberlite.Runtime.NodeRegistry.Spec.{
  Holds, registry_of, FindOutcome, UnregisterOutcome, ChangeOutcome,
}
use emberlite.Runtime.NodeRegistry.Lookup.{find-FindOutcome}
use emberlite.Runtime.NodeRegistry.Unregister.{unregister-UnregisterOutcome}
use emberlite.Runtime.NodeRegistry.Change.{update_state-ChangeOutcome, heartbeat-ChangeOutcome}
use emberlite.Runtime.NodeRegistry.Run.{
  Call, call_register, call_unregister, call_heartbeat, run_calls, run_calls-Holds,
}

-- "ab" and "c".
abbrev ab : List ℕ
ab = 97 ∷ 98 ∷ []

abbrev c : List ℕ
c = 99 ∷ []

abbrev node : List ℕ → NodeRecord ℕ
node name = record {
  name = name ++ replicate 30 0;
  node_id = 7;
  kind = kind_device;
  state = state_init;
  last_heartbeat_ms = 5;
  user_data = none;
}

abbrev two : List (NodeRecord ℕ)
two = node ab ∷ node c ∷ []

abbrev three_slots : Registry ℕ
three_slots = registry_of two 1

two-Holds : Holds two three_slots
two-Holds = record {
  spare = 1;
  layout = refl;
  named = ((omega arith, omega arith), ((omega arith, omega arith), tt));
  distinct = (((λ e. ground arith), tt), (tt, tt));
}

registered_again : register (some three_slots) (some (node c)) ≡ some (edup, some three_slots)
unfolding register
registered_again = refl

unregistered :
    unregister (some three_slots) (some ab) ≡ some (ok, some (registry_of (node c ∷ []) 2))
unfolding unregister
unregistered = refl

find-FindOutcome_example :
    (o : Option ℕ) × (find (some three_slots) (some c) ≡ some o) × FindOutcome two c o
find-FindOutcome_example = find-FindOutcome two three_slots two-Holds c

unregister-UnregisterOutcome_example :
    (result : RegistryResult) × (r' : Registry ℕ) × (unregister (some three_slots) (some ab)
      ≡ some (result, some r'))
    × UnregisterOutcome two three_slots ab result r'
unregister-UnregisterOutcome_example = unregister-UnregisterOutcome ab two three_slots two-Holds

update_state-ChangeOutcome_example :
    (result : RegistryResult) × (r' : Registry ℕ) × (update_state
        (some three_slots)
        (some ab)
        state_ready
      ≡ some (result, some r'))
    × ChangeOutcome (λ e. record e { state = state_ready }) two three_slots ab result r'
update_state-ChangeOutcome_example =
    update_state-ChangeOutcome two three_slots two-Holds ab state_ready

heartbeat-ChangeOutcome_example :
    (result : RegistryResult) × (r' : Registry ℕ) × (heartbeat (some three_slots) (some c) 900
      ≡ some (result, some r'))
    × ChangeOutcome (λ e. record e { last_heartbeat_ms = 900 }) two three_slots c result r'
heartbeat-ChangeOutcome_example = heartbeat-ChangeOutcome two three_slots two-Holds c 900

abbrev calls : List (Call ℕ)
calls = call_unregister ab ∷ call_register (node (99 ∷ 99 ∷ [])) ∷ call_heartbeat c 60 ∷ []

run_calls-Holds_example :
    (r' : Registry ℕ) × (es' : List (NodeRecord ℕ)) × (run_calls three_slots calls ≡ some r')
    × Holds es' r'
    × (r'.capacity ≡ 3)
run_calls-Holds_example = run_calls-Holds calls three_slots two two-Holds
