-- ===== src/Runtime/NodeRegistry/Change.antt =====
-- `update_state` and `heartbeat` of node_registry.c against their specification.
use emberlite.Common.{
  ℕ, ◌+◌, ◌≡◌, refl, sym, ap, ◌∙◌, subst, arith, Option, none, some, List, ◌∷◌, ◌++◌, append_assoc,
  All, All-append, length, length-append, replicate, get_elem?, get_elem?-append, set_elem?,
  set_elem?-append,
}
use emberlite.Runtime.NodeRegistry.{
  NodeRecord, Registry, RegistryResult, ok, enotfound, NodeState, zero_record, find, write_found,
  update_state, heartbeat,
}
use emberlite.Runtime.NodeRegistry.Spec.{
  IsName, key, Named, registry_of, registry_ext, Holds, FindOutcome, missing, found, ChangeOutcome,
  untouched, changed,
}
use emberlite.Runtime.NodeRegistry.Distinct.{All-split, Distinct-replace}
use emberlite.Runtime.NodeRegistry.Lookup.{find-FindOutcome}

module _ {U : Type 0} (f : NodeRecord U → NodeRecord U)
    (same : (e : NodeRecord U) → (f e).name ≡ e.name) where
  abbrev Step : List (NodeRecord U) → Registry U → List ℕ → Type 0
  Step es r name =
      (result : RegistryResult) × (r' : Registry U) × (write_found f (some r) (some name)
        ≡ some (result, some r'))
      × ChangeOutcome f es r name result r'

  write_missing :
      (r : Registry U) (name : List ℕ)
      → find (some r) (some name) ≡ some none
      → write_found f (some r) (some name) ≡ some (enotfound, some r)
  unfolding write_found
  write_missing r name h = rw (write_found, h) refl

  write_at :
      (r : Registry U) (name : List ℕ) (i : ℕ) (rs : List (NodeRecord U)) (e : NodeRecord U)
      (rs' : List (NodeRecord U))
      → find (some r) (some name) ≡ some (some i)
      → r.records ≡ some rs
      → get_elem? rs i ≡ some e
      → set_elem? rs i (f e) ≡ some rs'
      → write_found f (some r) (some name) ≡ some (ok, some (record r { records = some rs' }))
  unfolding write_found
  write_at r name i rs e rs' h p g s = rw (write_found, h) (rw p (rw g (rw s refl)))

  write-split :
      (before : List (NodeRecord U)) (e : NodeRecord U) (after : List (NodeRecord U)) (k : ℕ)
      (name : List ℕ)
      → Holds (before ++ e ∷ after) (registry_of (before ++ e ∷ after) k)
      → find (some (registry_of (before ++ e ∷ after) k)) (some name) ≡ some (some (length before))
      → Named name e
      → Step (before ++ e ∷ after) (registry_of (before ++ e ∷ after) k) name
  write-split before e after k name h there n = (
    ok,
    registry_of (before ++ f e ∷ after) k,
    write_at _ name (length before) _ e _ there (ap some (append_assoc before (e ∷ after) spare))
          (get_elem?-append before e (after ++ spare))
          (set_elem?-append before e (after ++ spare) (f e))
        ∙ ap (λ r. some (ok, some r))
            (registry_ext {n = length (before ++ e ∷ after) + k}
              {n' = length (before ++ f e ∷ after) + k}
              (sym (append_assoc before (f e ∷ after) spare)) (ap (λ n. n + k) lengths) lengths),
    changed before e after _ refl n
        (record {
          spare = k;
          layout = refl;
          named =
              All-append _ before (f e ∷ after) split.0
                (subst IsName (sym (same e)) split.1.0, split.1.1);
          distinct =
              Distinct-replace before e (f e) after (ap (λ s. key (record e { name = s })) (same e))
                h.distinct;
        })
        (ap (λ n. n + k) (sym lengths)),
  )
    where
      spare : List (NodeRecord U)
      spare = replicate k zero_record

      lengths : length (before ++ e ∷ after) ≡ length (before ++ f e ∷ after)
      lengths = omega (arith, length-append before (e ∷ after), length-append before (f e ∷ after))

      split : All (λ e. IsName e.name) before × All (λ e. IsName e.name) (e ∷ after)
      split = All-split _ before (e ∷ after) h.named

  -- A write through the pointer that `find` returns.
  pub write_found-ChangeOutcome :
      (es : List (NodeRecord U)) (r : Registry U) → Holds es r → (name : List ℕ) → Step es r name
  write_found-ChangeOutcome es r h name =
      subst (λ r. Step es r name) (sym h.layout)
        (go es h.spare (subst (Holds es) h.layout h)
          (find-FindOutcome es (registry_of es h.spare) (subst (Holds es) h.layout h) name))
    where
      go :
          (es : List (NodeRecord U)) (k : ℕ)
          → Holds es (registry_of es k)
          → (o : Option ℕ) × (find (some (registry_of es k)) (some name) ≡ some o)
            × FindOutcome es name o
          → Step es (registry_of es k) name
      go es k h (_, q, missing m) = (enotfound, _, write_missing _ name q, untouched m)
      go es k h (_, q, found before e after eq n) =
          subst
            (λ es.
              Holds es (registry_of es k)
              → find (some (registry_of es k)) (some name) ≡ some (some (length before))
              → Step es (registry_of es k) name)
            (sym eq) (λ h q. write-split before e after k name h q n) h q

module _ {U : Type 0} where
  -- `update_state` sets the state of the record with the name and changes nothing else; if there is
  -- none it reports so and changes nothing.
  pub update_state-ChangeOutcome :
      (es : List (NodeRecord U)) (r : Registry U)
      → Holds es r
      → (name : List ℕ) (s : NodeState)
      → (result : RegistryResult) × (r' : Registry U) × (update_state (some r) (some name) s
          ≡ some (result, some r'))
        × ChangeOutcome (λ e. record e { state = s }) es r name result r'
  unfolding update_state
  update_state-ChangeOutcome es r h name s =
      write_found-ChangeOutcome (λ e. record e { state = s }) (λ e. refl) es r h name

  -- `heartbeat` sets the time of the record with the name and changes nothing else; if there is none
  -- it reports so and changes nothing.
  pub heartbeat-ChangeOutcome :
      (es : List (NodeRecord U)) (r : Registry U)
      → Holds es r
      → (name : List ℕ) (now_ms : ℕ)
      → (result : RegistryResult) × (r' : Registry U) × (heartbeat (some r) (some name) now_ms
          ≡ some (result, some r'))
        × ChangeOutcome (λ e. record e { last_heartbeat_ms = now_ms }) es r name result r'
  unfolding heartbeat
  heartbeat-ChangeOutcome es r h name now_ms =
      write_found-ChangeOutcome (λ e. record e { last_heartbeat_ms = now_ms }) (λ e. refl) es r h
        name
