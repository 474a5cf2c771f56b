-- ===== src/Runtime/NodeRegistry/Lookup.antt =====
-- `find` of node_registry.c against its specification.
use emberlite.Common.{
  ℕ, ◌+◌, ◌<◌, ◌≡◌, refl, sym, ap, ◌∙◌, subst, arith, Bool, true, false, not, Option, none, some,
  List, ◌∷◌, ◌++◌, append_assoc, All, length, length-append, replicate, ◌⊎◌, inl, inr, Bool-cases,
  if◌then◌else◌,
}
use emberlite.Runtime.NodeRegistry.{
  NodeRecord, Registry, name_max, zero_record, node_name_valid, find_loop, find,
}
use emberlite.Runtime.NodeRegistry.Spec.{
  IsName, Named, NotNamed, Holds, Lookup, absent, present, FindOutcome, missing, found,
}
use emberlite.Runtime.NodeRegistry.Distinct.{All-imp, lookup}
use emberlite.Runtime.NodeRegistry.Loops.{
  node_name_valid-IsName, find_loop-absent, find_loop-present,
}

-- The code's test of a name decides.
pub IsName-cases :
    (name : List ℕ)
    → ((node_name_valid (some name) ≡ true) × IsName name)
      ⊎ ((node_name_valid (some name) ≡ false) × ¬ IsName name)
IsName-cases name = elim (Bool-cases (node_name_valid (some name))) [
  | inl y ↦ inl (y, (node_name_valid-IsName name).0 y)
  | inr n ↦ inr (n, λ h. ground (arith, (node_name_valid-IsName name).1 h))
]

module _ {U : Type 0} where
  -- A record of the registry has a name that is one.
  Named-IsName : (name : List ℕ) (e : NodeRecord U) → IsName e.name → Named name e → IsName name
  Named-IsName name e h n = subst (λ k. (0 < length k) × (length k < name_max)) n h

  -- What is no name is the name of no record.
  pub NotNamed-of-invalid :
      (name : List ℕ) (es : List (NodeRecord U))
      → ¬ IsName name
      → All (λ e. IsName e.name) es
      → All (NotNamed name) es
  NotNamed-of-invalid name es h = All-imp _ _ (λ e n eq. h (Named-IsName name e n eq)) es

  -- `find` with its test of the name decided.
  find_test :
      (b : Bool) (name : List ℕ) (r : Registry U) (rs : List (NodeRecord U))
      → node_name_valid (some name) ≡ b
      → r.records ≡ some rs
      → find (some r) (some name) ≡ (if not b then some none else find_loop r.count 0 rs name)
  unfolding find
  find_test b name r rs h e =
      ap
        (λ o. elim o [
          | none ↦ some none
          | some rs ↦
              if not (node_name_valid (some name)) then some none else find_loop r.count 0 rs name
        ])
        e
      ∙ ap (λ b. if not b then some none else find_loop r.count 0 rs name) h

  find-registry_of :
      (name : List ℕ) (es : List (NodeRecord U)) (k : ℕ)
      → IsName name
      → Lookup name es
      → (o : Option ℕ) × (find_loop (length es) 0 (es ++ replicate k zero_record) name ≡ some o)
        × FindOutcome es name o
  find-registry_of name es k v (absent _ h) =
      (none, find_loop-absent name es _ 0 _ refl h, missing h)
  find-registry_of name _ k v (present before e after h n h') = (
    some (length before),
    find_loop-present name before e (after ++ replicate k zero_record) _ (length after) 0 _
          (length-append before (e ∷ after)) (append_assoc before (e ∷ after) _) h n
        ∙ ap (λ i. some (some i)) {x = 0 + length before} {y = length before} (omega arith),
    found before e after refl n,
  )

  -- On a registry that holds the records, `find` returns the index of the one with the name,
  -- and nothing if there is none, or if the name is empty or too long; it reads in bounds.
  pub find-FindOutcome :
      (es : List (NodeRecord U)) (r : Registry U)
      → Holds es r
      → (name : List ℕ)
      → (o : Option ℕ) × (find (some r) (some name) ≡ some o) × FindOutcome es name o
  find-FindOutcome es r h name =
      subst (λ r. (o : Option ℕ) × (find (some r) (some name) ≡ some o) × FindOutcome es name o)
        (sym h.layout)
        (elim (IsName-cases name) [
          | inl v ↦
              let there = find-registry_of name es h.spare v.1 (lookup name es h.distinct) in
              (there.0, find_test true name _ _ v.0 refl ∙ there.1, there.2)
          | inr v ↦ (
            none,
            find_test false name _ _ v.0 refl,
            missing (NotNamed-of-invalid name es v.1 h.named),
          )
        ])
