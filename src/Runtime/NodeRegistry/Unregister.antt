-- ===== src/Runtime/NodeRegistry/Unregister.antt =====
-- `unregister` of node_registry.c against its specification.
use emberlite.Common.{
  ℕ, suc, ◌+◌, ◌≡◌, refl, sym, ap, ap₂, ◌∙◌, subst, arith, Bool, true, false, not, none, some, inl,
  inr, if◌then◌else◌, List, ◌∷◌, ◌++◌, append_assoc, All, All-append, length, length-append,
  replicate,
}
use emberlite.Runtime.NodeRegistry.{
  NodeRecord, Registry, RegistryResult, ok, einval, enotfound, zero_record, node_name_valid,
  unregister_loop, unregister, remove_at,
}
use emberlite.Runtime.NodeRegistry.Spec.{
  IsName, registry_of, registry_ext, Holds, Lookup, absent, present, UnregisterOutcome, unnamed,
  unknown, removed,
}
use emberlite.Runtime.NodeRegistry.Distinct.{All-split, Distinct-remove, lookup}
use emberlite.Runtime.NodeRegistry.Loops.{
  unregister_loop-absent, unregister_loop-present, remove_at-append,
}
use emberlite.Runtime.NodeRegistry.Lookup.{IsName-cases}

module _ {U : Type 0} (name : List ℕ) where
  abbrev Step : List (NodeRecord U) → Registry U → Type 0
  Step es r =
      (result : RegistryResult) × (r' : Registry U) × (unregister (some r) (some name)
        ≡ some (result, some r'))
      × UnregisterOutcome es r name result r'

  unregister_test :
      (b : Bool) (r : Registry U) (rs : List (NodeRecord U))
      → node_name_valid (some name) ≡ b
      → r.records ≡ some rs
      → unregister (some r) (some name)
        ≡ (if not b then some (einval, some r) else unregister_loop r.count 0 r rs name)
  unfolding unregister
  unregister_test b r rs h e =
      ap
        (λ o. elim o [
          | none ↦ some (einval, some r)
          | some rs ↦
              if not (node_name_valid (some name))
              then some (einval, some r)
              else unregister_loop r.count 0 r rs name
        ])
        e
      ∙ ap (λ b. if not b then some (einval, some r) else unregister_loop r.count 0 r rs name) h

  unregister-valid :
      (es : List (NodeRecord U)) (k : ℕ)
      → node_name_valid (some name) ≡ true
      → IsName name
      → Holds es (registry_of es k)
      → Lookup name es
      → Step es (registry_of es k)
  unregister-valid es k t v h (absent _ m) = (
    enotfound,
    _,
    unregister_test true _ _ t refl ∙ unregister_loop-absent name es _ 0 _ _ refl m,
    unknown v m,
  )
  unregister-valid _ k t v h (present before e after m n m') = (
    ok,
    registry_of (before ++ after) (suc k),
    unregister_test true _ _ t refl
        ∙ unregister_loop-present name before e (after ++ spare) _ (length after) 0 whole _
            (length-append before (e ∷ after)) (append_assoc before (e ∷ after) spare) m n
        ∙ ap₂ (λ rs i. remove_at whole rs i) {u = 0 + length before} {v = length before}
            (append_assoc before (e ∷ after) spare) (omega arith)
        ∙ remove_at-append whole before e after spare refl
        ∙ ap (λ r. some (ok, some r))
            (registry_ext {n = length (before ++ e ∷ after) + k}
              {n' = length (before ++ after) + suc k}
              (sym (append_assoc before after (zero_record ∷ spare))) (omega (arith, lengths))
              refl),
    removed before e after _ refl n (All-append _ before after m m')
        (record {
          spare = suc k;
          layout = refl;
          named = All-append _ before after split.0 split.1.1;
          distinct = Distinct-remove before e after h.distinct;
        })
        (omega (arith, lengths)),
  )
    where
      whole : Registry U
      whole = registry_of (before ++ e ∷ after) k

      spare : List (NodeRecord U)
      spare = replicate k zero_record

      lengths : length (before ++ e ∷ after) ≡ suc (length (before ++ after))
      lengths = omega (arith, length-append before (e ∷ after), length-append before after)

      split : All (λ e. IsName e.name) before × All (λ e. IsName e.name) (e ∷ after)
      split = All-split _ before (e ∷ after) h.named

  -- On a registry that holds `es`, `unregister` refuses what is no proper name, reports a name that
  -- is not there, and else takes out the one record with the name: the others keep their order, the
  -- slot that falls free is zeroed, and nothing is read or written out of bounds.
  pub unregister-UnregisterOutcome :
      (es : List (NodeRecord U)) (r : Registry U)
      → Holds es r
      → (result : RegistryResult) × (r' : Registry U) × (unregister (some r) (some name)
          ≡ some (result, some r'))
        × UnregisterOutcome es r name result r'
  unregister-UnregisterOutcome es r h = subst (Step es) (sym h.layout) (elim (IsName-cases name) [
    | inl v ↦
        unregister-valid es h.spare v.0 v.1 (subst (Holds es) h.layout h)
          (lookup name es h.distinct)
    | inr v ↦ (einval, _, unregister_test false _ _ v.0 refl, unnamed v.1)
  ])
