-- ===== src/Runtime/NodeRegistry.antt =====
-- core/runtime/src/node_registry.c and include/ember/node_registry.h: nodes by name, in an array that
-- the caller provides.
pub mod Spec
mod Loops
mod Distinct
pub mod Lookup
pub mod Register
pub mod Change
pub mod Unregister
pub mod Run
mod Tests
use emberlite.Common.{
  ℕ, zero, suc, ◌+◌, ◌-◌, Bool, true, false, not, ◌&&◌, ◌||◌, Option, none, some, List, [], ◌==◌,
  ltb, leb, if◌then◌else◌, length, get_elem?, get_or, replicate, first, strncmp_eq, strncpy,
  set_elem?, fill,
}

pub data RegistryResult : Type 0 where
  ok einval enospc enotfound edup : RegistryResult

pub data NodeKind : Type 0 where
  kind_unknown kind_system kind_service kind_application kind_device kind_driver kind_tool :
      NodeKind

pub data NodeState : Type 0 where
  state_unknown state_init state_ready state_running state_degraded state_error state_stopped :
      NodeState

-- `EMBER_NODE_NAME_MAX`
abbrev pub name_max : ℕ
name_max = 32

-- `ember_node_record_t`. What `user_data` points to is an element of `U`, or nothing for NULL.
pub record NodeRecord (U : Type 0) : Type 0 where
  pub name : List ℕ
  pub node_id : ℕ
  pub kind : NodeKind
  pub state : NodeState
  pub last_heartbeat_ms : ℕ
  pub user_data : Option U

-- `ember_node_registry_t`. The list is the memory that `records` points to; `none` is NULL.
pub record Registry (U : Type 0) : Type 0 where
  pub records : Option (List (NodeRecord U))
  pub capacity : ℕ
  pub count : ℕ

-- The loop of `node_name_len` at `len`, with `left` steps to the limit.
pub name_len_loop : ℕ → ℕ → List ℕ → ℕ
name_len_loop zero len name = len
name_len_loop (suc left) len name =
    let rest = name_len_loop left (len + 1) name in if get_or name len 0 == 0 then len else rest

pub node_name_len : List ℕ → ℕ
unfolding name_len_loop
node_name_len name = name_len_loop name_max 0 name

pub node_name_valid : Option (List ℕ) → Bool
unfolding node_name_len
node_name_valid none = false
node_name_valid (some name) =
    if get_or name 0 0 == 0 then false else ltb (node_name_len name) name_max

module _ {U : Type 0} where
  -- What `memset` makes of a record.
  abbrev pub zero_record : NodeRecord U
  zero_record = record {
    name = replicate name_max 0;
    node_id = 0;
    kind = kind_unknown;
    state = state_unknown;
    last_heartbeat_ms = 0;
    user_data = none;
  }

  -- The result does not depend on what `dst` held.
  pub node_record_copy : NodeRecord U → NodeRecord U
  node_record_copy src = record {
    name =
        if get_or src.name 0 0 == 0
        then zero_record.name
        else strncpy zero_record.name src.name (name_max - 1);
    node_id = src.node_id;
    kind = src.kind;
    state = src.state;
    last_heartbeat_ms = src.last_heartbeat_ms;
    user_data = src.user_data;
  }

  -- Below `none` as a result is an access out of bounds, and `none` for an argument is NULL.
  pub init :
      Option (Registry U)
      → Option (List (NodeRecord U))
      → ℕ
      → Option (RegistryResult × Option (Registry U))
  init none storage capacity = some (einval, none)
  init (some r) none capacity = some (einval, some r)
  init (some r) (some storage) capacity =
      if capacity == 0 then some (einval, some r) else elim (fill storage capacity zero_record) [
        | none ↦ none
        | some rs ↦ some (ok, some (record { records = some rs; capacity = capacity; count = 0 }))
      ]

  pub clear : Option (Registry U) → Option (Option (Registry U))
  clear none = some none
  clear (some r) = elim r.records [
    | none ↦ some (some r)
    | some rs ↦ elim (fill rs r.capacity zero_record) [
      | none ↦ none
      | some rs' ↦ some (some (record r { records = some rs'; count = 0 }))
    ]
  ]

  pub count_of : Option (Registry U) → ℕ
  count_of none = 0
  count_of (some r) = r.count

  -- The loop of `find` at `i`, with `left` records to go.
  pub find_loop : ℕ → ℕ → List (NodeRecord U) → List ℕ → Option (Option ℕ)
  find_loop zero i rs name = some none
  find_loop (suc left) i rs name =
      let next = find_loop left (i + 1) rs name in
      elim (get_elem? rs i) [
        | none ↦ none
        | some e ↦ if strncmp_eq name_max e.name name then some (some i) else next
      ]

  -- The pointer to a record is its index.
  pub find : Option (Registry U) → Option (List ℕ) → Option (Option ℕ)
  unfolding node_name_valid find_loop
  find none name = some none
  find (some r) none = some none
  find (some r) (some name) = elim r.records [
    | none ↦ some none
    | some rs ↦ if not (node_name_valid (some name)) then some none else find_loop r.count 0 rs name
  ]

  pub find_const : Option (Registry U) → Option (List ℕ) → Option (Option ℕ)
  unfolding find
  find_const r name = find r name

  pub node_at : Option (Registry U) → ℕ → Option ℕ
  node_at none index = none
  node_at (some r) index = elim r.records [
    | none ↦ none
    | some rs ↦ if leb r.count index then none else some index
  ]

  pub node_at_const : Option (Registry U) → ℕ → Option ℕ
  unfolding node_at
  node_at_const r index = node_at r index

  -- `register` from the test of the count on, for the records `rs`.
  pub register_record :
      Registry U
      → List (NodeRecord U)
      → NodeRecord U
      → Option (RegistryResult × Option (Registry U))
  unfolding find node_record_copy
  register_record r rs e =
      if leb r.capacity r.count then some (enospc, some r) else elim (find (some r) (some e.name)) [
        | none ↦ none
        | some (some i) ↦ some (edup, some r)
        | some none ↦ elim (set_elem? rs r.count (node_record_copy e)) [
          | none ↦ none
          | some rs' ↦ some (ok, some (record r { records = some rs'; count = r.count + 1 }))
        ]
      ]

  pub register :
      Option (Registry U) → Option (NodeRecord U) → Option (RegistryResult × Option (Registry U))
  unfolding node_name_valid register_record
  register none e = some (einval, none)
  register (some r) none = some (einval, some r)
  register (some r) (some e) = elim r.records [
    | none ↦ some (einval, some r)
    | some rs ↦
        if not (node_name_valid (some e.name))
        then some (einval, some r)
        else register_record r rs e
  ]

  -- The inner loop of `unregister` at `j`, with `left` records to move.
  pub shift_loop : ℕ → ℕ → List (NodeRecord U) → Option (List (NodeRecord U))
  shift_loop zero j rs = some rs
  shift_loop (suc left) j rs = elim (get_elem? rs j) [
    | none ↦ none
    | some e ↦ elim (set_elem? rs (j - 1) e) [
      | none ↦ none
      | some rs' ↦ shift_loop left (j + 1) rs'
    ]
  ]

  -- The body of the outer loop for the record at `i`, which has the name.
  pub remove_at :
      Registry U → List (NodeRecord U) → ℕ → Option (RegistryResult × Option (Registry U))
  unfolding shift_loop
  remove_at r rs i = elim (shift_loop (r.count - (i + 1)) (i + 1) rs) [
    | none ↦ none
    | some rs' ↦ elim (set_elem? rs' (r.count - 1) zero_record) [
      | none ↦ none
      | some rs'' ↦ some (ok, some (record r { records = some rs''; count = r.count - 1 }))
    ]
  ]

  pub unregister_loop :
      ℕ
      → ℕ
      → Registry U
      → List (NodeRecord U)
      → List ℕ
      → Option (RegistryResult × Option (Registry U))
  unfolding remove_at
  unregister_loop zero i r rs name = some (enotfound, some r)
  unregister_loop (suc left) i r rs name =
      let next = unregister_loop left (i + 1) r rs name in
      elim (get_elem? rs i) [
        | none ↦ none
        | some e ↦ if not (strncmp_eq name_max e.name name) then next else remove_at r rs i
      ]

  pub unregister :
      Option (Registry U) → Option (List ℕ) → Option (RegistryResult × Option (Registry U))
  unfolding node_name_valid unregister_loop
  unregister none name = some (einval, none)
  unregister (some r) none = some (einval, some r)
  unregister (some r) (some name) = elim r.records [
    | none ↦ some (einval, some r)
    | some rs ↦
        if not (node_name_valid (some name))
        then some (einval, some r)
        else unregister_loop r.count 0 r rs name
  ]

  -- What `update_state` and `heartbeat` do: a write through the pointer that `find` returns.
  pub write_found :
      (NodeRecord U → NodeRecord U)
      → Option (Registry U)
      → Option (List ℕ)
      → Option (RegistryResult × Option (Registry U))
  unfolding find
  write_found f none name = some (enotfound, none)
  write_found f (some r) name = elim (find (some r) name) [
    | none ↦ none
    | some none ↦ some (enotfound, some r)
    | some (some i) ↦ elim r.records [
      | none ↦ none
      | some rs ↦ elim (get_elem? rs i) [
        | none ↦ none
        | some e ↦ elim (set_elem? rs i (f e)) [
          | none ↦ none
          | some rs' ↦ some (ok, some (record r { records = some rs' }))
        ]
      ]
    ]
  ]

  pub update_state :
      Option (Registry U)
      → Option (List ℕ)
      → NodeState
      → Option (RegistryResult × Option (Registry U))
  unfolding write_found
  update_state r name state = write_found (λ e. record e { state = state }) r name

  pub heartbeat :
      Option (Registry U) → Option (List ℕ) → ℕ → Option (RegistryResult × Option (Registry U))
  unfolding write_found
  heartbeat r name now_ms = write_found (λ e. record e { last_heartbeat_ms = now_ms }) r name
