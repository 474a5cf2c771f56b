-- ===== src/Runtime/NodeRegistry/Run.antt =====
-- Sequences of calls of node_registry.c on one registry.
use emberlite.Common.{ℕ, ◌≡◌, refl, ◌∙◌, Option, none, some, List, [], ◌∷◌}
use emberlite.Runtime.NodeRegistry.{
  NodeRecord, Registry, RegistryResult, NodeState, clear, register, unregister, update_state,
  heartbeat,
}
use emberlite.Runtime.NodeRegistry.Spec.{
  Holds, RegisterOutcome, rejected, full, duplicate, added, UnregisterOutcome, unnamed, unknown,
  removed, ChangeOutcome, untouched, changed,
}
use emberlite.Runtime.NodeRegistry.Register.{clear-Holds, register-RegisterOutcome}
use emberlite.Runtime.NodeRegistry.Unregister.{unregister-UnregisterOutcome}
use emberlite.Runtime.NodeRegistry.Change.{update_state-ChangeOutcome, heartbeat-ChangeOutcome}

pub data Call (U : Type 0) : Type 0 where
  call_clear : Call U
  call_register : NodeRecord U → Call U
  call_unregister : List ℕ → Call U
  call_update_state : List ℕ → NodeState → Call U
  call_heartbeat : List ℕ → ℕ → Call U

module _ {U : Type 0} where
  -- The registry after a call, whatever its result; `none` is an access out of bounds.
  abbrev left_by : Option (RegistryResult × Option (Registry U)) → Option (Registry U)
  left_by none = none
  left_by (some (result, r)) = r

  unfoldable pub run_call : Registry U → Call U → Option (Registry U)
  run_call r call_clear = elim (clear (some r)) [ none ↦ none | some r' ↦ r' ]
  run_call r (call_register e) = left_by (register (some r) (some e))
  run_call r (call_unregister name) = left_by (unregister (some r) (some name))
  run_call r (call_update_state name s) = left_by (update_state (some r) (some name) s)
  run_call r (call_heartbeat name now_ms) = left_by (heartbeat (some r) (some name) now_ms)

  unfoldable pub run_calls : Registry U → List (Call U) → Option (Registry U)
  run_calls r [] = some r
  run_calls r (c ∷ cs) = elim (run_call r c) [ none ↦ none | some r' ↦ run_calls r' cs ]

  abbrev Good : ℕ → Option (Registry U) → Type 0
  Good capacity o =
      (r : Registry U) × (es : List (NodeRecord U)) × (o ≡ some r)
      × Holds es r
      × (r.capacity ≡ capacity)

  run_call-Good :
      (c : Call U) (r : Registry U) (es : List (NodeRecord U))
      → Holds es r
      → Good r.capacity (run_call r c)
  unfolding run_call
  run_call-Good call_clear r es h =
      let cleared = clear-Holds es r h in
      (cleared.0, [], rw (run_call, cleared.1) refl, cleared.2, cleared.3)
  run_call-Good (call_register e) r es h = go (register-RegisterOutcome es r h e)
    where
      go :
          (result : RegistryResult) × (r' : Registry U) × (register (some r) (some e)
              ≡ some (result, some r'))
            × RegisterOutcome es r e result r'
          → Good r.capacity (left_by (register (some r) (some e)))
      go (_, _, q, rejected _) = (r, es, rw q refl, h, refl)
      go (_, _, q, full _ _) = (r, es, rw q refl, h, refl)
      go (_, _, q, duplicate _ _ _ _ _ _ _) = (r, es, rw q refl, h, refl)
      go (_, _, q, added r' _ _ _ h' c) = (r', _, rw q refl, h', c)
  run_call-Good (call_unregister name) r es h = go (unregister-UnregisterOutcome name es r h)
    where
      go :
          (result : RegistryResult) × (r' : Registry U) × (unregister (some r) (some name)
              ≡ some (result, some r'))
            × UnregisterOutcome es r name result r'
          → Good r.capacity (left_by (unregister (some r) (some name)))
      go (_, _, q, unnamed _) = (r, es, rw q refl, h, refl)
      go (_, _, q, unknown _ _) = (r, es, rw q refl, h, refl)
      go (_, _, q, removed _ _ _ r' _ _ _ h' c) = (r', _, rw q refl, h', c)
  run_call-Good (call_update_state name s) r es h = go (update_state-ChangeOutcome es r h name s)
    where
      go :
          (result : RegistryResult) × (r' : Registry U) × (update_state (some r) (some name) s
              ≡ some (result, some r'))
            × ChangeOutcome (λ e. record e { state = s }) es r name result r'
          → Good r.capacity (left_by (update_state (some r) (some name) s))
      go (_, _, q, untouched _) = (r, es, rw q refl, h, refl)
      go (_, _, q, changed _ _ _ r' _ _ h' c) = (r', _, rw q refl, h', c)
  run_call-Good (call_heartbeat name now_ms) r es h =
      go (heartbeat-ChangeOutcome es r h name now_ms)
    where
      go :
          (result : RegistryResult) × (r' : Registry U) × (heartbeat (some r) (some name) now_ms
              ≡ some (result, some r'))
            × ChangeOutcome (λ e. record e { last_heartbeat_ms = now_ms }) es r name result r'
          → Good r.capacity (left_by (heartbeat (some r) (some name) now_ms))
      go (_, _, q, untouched _) = (r, es, rw q refl, h, refl)
      go (_, _, q, changed _ _ _ r' _ _ h' c) = (r', _, rw q refl, h', c)

  -- Any sequence of calls on a registry that holds records with different, proper names leaves one
  -- that does, of the same capacity, and accesses nothing out of bounds.
  pub run_calls-Holds :
      (cs : List (Call U)) (r : Registry U) (es : List (NodeRecord U))
      → Holds es r
      → (r' : Registry U) × (es' : List (NodeRecord U)) × (run_calls r cs ≡ some r')
        × Holds es' r'
        × (r'.capacity ≡ r.capacity)
  unfolding run_calls
  run_calls-Holds [] r es h = (r, es, refl, h, refl)
  run_calls-Holds (c ∷ cs) r es h =
      let once = run_call-Good c r es h in
      let rest = run_calls-Holds cs once.0 once.1 once.3 in
      (rest.0, rest.1, rw (run_calls, once.2) rest.2, rest.3, rest.4 ∙ once.4)
