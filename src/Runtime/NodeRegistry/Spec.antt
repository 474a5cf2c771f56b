-- ===== src/Runtime/NodeRegistry/Spec.antt =====
-- What the registry of node_registry.c stands for: a list of records with different names.
use emberlite.Common.{
  ℕ, ◌+◌, ◌<◌, ◌≡◌, ◌≢◌, Option, none, some, List, [], ◌∷◌, ◌++◌, length, replicate, All, c_str,
}
use emberlite.Runtime.NodeRegistry.{
  NodeRecord, Registry, RegistryResult, ok, einval, enospc, enotfound, edup, name_max, zero_record,
  node_record_copy,
}

-- A name is not empty, and ends before the limit.
abbrev pub IsName : List ℕ → Type 0
IsName name = (0 < length (c_str name_max name)) × (length (c_str name_max name) < name_max)

module _ {U : Type 0} where
  -- The text of the name.
  abbrev pub key : NodeRecord U → List ℕ
  key e = c_str name_max e.name

  abbrev pub Named : List ℕ → NodeRecord U → Type 0
  Named name e = key e ≡ c_str name_max name

  abbrev pub NotNamed : List ℕ → NodeRecord U → Type 0
  NotNamed name e = key e ≢ c_str name_max name

  -- No two records have one name.
  abbrev pub Distinct : List (NodeRecord U) → Type 0
  Distinct [] = Unit
  Distinct (e ∷ es) = All (λ e'. key e' ≢ key e) es × Distinct es

  -- The registry with the records `es`, and `spare` zeroed slots behind them.
  abbrev pub registry_of : List (NodeRecord U) → ℕ → Registry U
  registry_of es spare = record {
    records = some (es ++ replicate spare zero_record);
    capacity = length es + spare;
    count = length es;
  }

  pub registry_ext :
      {rs rs' : List (NodeRecord U)} {n n' m m' : ℕ}
      → rs ≡ rs'
      → n ≡ n'
      → m ≡ m'
      → ◌≡◌ {A = Registry U}
          (record { records = some rs; capacity = n; count = m })
          (record { records = some rs'; capacity = n'; count = m' })
  registry_ext p q t = λ i. record { records = some (p i); capacity = q i; count = t i }

  pub record Holds (es : List (NodeRecord U)) (r : Registry U) : Type 0 where
    pub spare : ℕ
    pub layout : r ≡ registry_of es spare
    pub named : All (λ e. IsName e.name) es
    pub distinct : Distinct es

  -- A name is that of no record, or of one.
  pub data Lookup (name : List ℕ) : List (NodeRecord U) → Type 0 where
    absent : (es : List (NodeRecord U)) → All (NotNamed name) es → Lookup name es
    present :
        (before : List (NodeRecord U)) (e : NodeRecord U) (after : List (NodeRecord U))
        → All (NotNamed name) before
        → Named name e
        → All (NotNamed name) after
        → Lookup name (before ++ e ∷ after)

  -- What `find` promises: the index of the record with the name, or nothing.
  pub data FindOutcome (es : List (NodeRecord U)) (name : List ℕ) : Option ℕ → Type 0 where
    missing : All (NotNamed name) es → FindOutcome es name none
    found :
        (before : List (NodeRecord U)) (e : NodeRecord U) (after : List (NodeRecord U))
        → es ≡ before ++ e ∷ after
        → Named name e
        → FindOutcome es name (some (length before))

  -- What `register` promises.
  pub data RegisterOutcome (es : List (NodeRecord U)) (r : Registry U) (e : NodeRecord U)
      : RegistryResult → Registry U → Type 0 where
    rejected : ¬ IsName e.name → RegisterOutcome es r e einval r
    full : IsName e.name → r.capacity ≡ length es → RegisterOutcome es r e enospc r
    duplicate :
        (before : List (NodeRecord U)) (x : NodeRecord U) (after : List (NodeRecord U))
        → IsName e.name
        → length es < r.capacity
        → es ≡ before ++ x ∷ after
        → Named e.name x
        → RegisterOutcome es r e edup r
    added :
        (r' : Registry U)
        → IsName e.name
        → length es < r.capacity
        → All (NotNamed e.name) es
        → Holds (es ++ node_record_copy e ∷ []) r'
        → r'.capacity ≡ r.capacity
        → RegisterOutcome es r e ok r'

  -- What `unregister` promises.
  pub data UnregisterOutcome (es : List (NodeRecord U)) (r : Registry U) (name : List ℕ)
      : RegistryResult → Registry U → Type 0 where
    unnamed : ¬ IsName name → UnregisterOutcome es r name einval r
    unknown : IsName name → All (NotNamed name) es → UnregisterOutcome es r name enotfound r
    removed :
        (before : List (NodeRecord U)) (e : NodeRecord U) (after : List (NodeRecord U))
        (r' : Registry U)
        → es ≡ before ++ e ∷ after
        → Named name e
        → All (NotNamed name) (before ++ after)
        → Holds (before ++ after) r'
        → r'.capacity ≡ r.capacity
        → UnregisterOutcome es r name ok r'

  -- What a write of `f` through the pointer that `find` returns promises.
  pub data ChangeOutcome (f : NodeRecord U → NodeRecord U) (es : List (NodeRecord U))
      (r : Registry U) (name : List ℕ) : RegistryResult → Registry U → Type 0 where
    untouched : All (NotNamed name) es → ChangeOutcome f es r name enotfound r
    changed :
        (before : List (NodeRecord U)) (e : NodeRecord U) (after : List (NodeRecord U))
        (r' : Registry U)
        → es ≡ before ++ e ∷ after
        → Named name e
        → Holds (before ++ f e ∷ after) r'
        → r'.capacity ≡ r.capacity
        → ChangeOutcome f es r name ok r'
