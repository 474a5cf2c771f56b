-- ===== src/Runtime/NodeRegistry/Register.antt =====
-- `init`, `clear` and `register` of node_registry.c against their specification.
use emberlite.Common.{
  ℕ, zero, suc, ◌+◌, ◌<◌, ◌≡◌, refl, sym, ap, ◌∙◌, subst, arith, Bool, true, false, not, Option,
  none, some, List, [], ◌∷◌, ◌++◌, append_assoc, All-append, length, length-append, replicate,
  get_or, c_str, c_str-suc, c_str-strncpy, strncpy, inl, inr, ◌==◌, leb, if◌then◌else◌, set_elem?,
  set_elem?-append, fill-all, length-replicate,
}
use emberlite.Runtime.NodeRegistry.{
  NodeRecord, Registry, RegistryResult, ok, einval, enospc, edup, name_max, zero_record,
  node_record_copy, node_name_valid, find, register_record, register, init, clear,
}
use emberlite.Runtime.NodeRegistry.Spec.{
  IsName, key, registry_of, registry_ext, Holds, FindOutcome, missing, found, RegisterOutcome,
  rejected, full, duplicate, added,
}
use emberlite.Runtime.NodeRegistry.Distinct.{All-imp, Distinct-append}
use emberlite.Runtime.NodeRegistry.Lookup.{IsName-cases, find-FindOutcome}

copy_name :
    (n : ℕ) (name : List ℕ)
    → 0 < length (c_str (suc n) name)
    → length (c_str (suc n) name) < suc n
    → c_str
        (suc n)
        (if get_or name 0 0 == 0 then replicate (suc n) 0 else strncpy (replicate (suc n) 0) name n)
      ≡ c_str (suc n) name
copy_name n [] h h' = ground arith
copy_name n (c ∷ name) h h' =
    ground (arith, c_str-strncpy n (c ∷ name), c_str-suc n (c ∷ name) (omega (arith, h')))

init_test : (A : Type 0) (a b : A) (n : ℕ) → 0 < n → (if n == 0 then a else b) ≡ b
init_test A a b zero h = absurd (omega arith)
init_test A a b (suc n) h = ground arith

module _ {U : Type 0} where
  -- The copy of a record with a proper name has that name.
  pub node_record_copy-key : (e : NodeRecord U) → IsName e.name → key (node_record_copy e) ≡ key e
  unfolding node_record_copy
  node_record_copy-key e h = copy_name 31 e.name h.0 h.1

  -- After `init` on storage of `capacity` records the registry is empty.
  pub init-Holds :
      (r : Registry U) (storage : List (NodeRecord U)) (capacity : ℕ)
      → 0 < capacity
      → length storage ≡ capacity
      → (r' : Registry U) × (init (some r) (some storage) capacity ≡ some (ok, some r'))
        × Holds [] r'
        × (r'.capacity ≡ capacity)
  unfolding init
  init-Holds r storage zero h l = absurd (omega arith)
  init-Holds r storage (suc n) h l = (
    record { records = some (replicate (suc n) zero_record); capacity = suc n; count = 0 },
    init_test _ _ _ (suc n) (omega arith) ∙ rw (fill-all (suc n) zero_record storage l) refl,
    record {
      spare = suc n;
      layout =
          ap
            (λ k. record {
              records = some (replicate (suc n) zero_record);
              capacity = k;
              count = 0;
            })
            {x = suc n} {y = 0 + suc n} (omega arith);
      named = tt;
      distinct = tt;
    },
    refl,
  )

  -- `clear` empties it.
  pub clear-Holds :
      (es : List (NodeRecord U)) (r : Registry U)
      → Holds es r
      → (r' : Registry U) × (clear (some r) ≡ some (some r'))
        × Holds [] r'
        × (r'.capacity ≡ r.capacity)
  unfolding clear
  clear-Holds es r h =
      subst
        (λ r.
          (r' : Registry U) × (clear (some r) ≡ some (some r'))
          × Holds [] r'
          × (r'.capacity ≡ r.capacity))
        (sym h.layout)
        (
          record {
            records = some (replicate (length es + h.spare) zero_record);
            capacity = length es + h.spare;
            count = 0;
          },
          rw
              (
                clear,
                fill-all (length es + h.spare) zero_record (es ++ replicate h.spare zero_record)
                    (length-append es _ ∙ ap (λ k. length es + k) (length-replicate h.spare _)),
              )
              refl,
          record {
            spare = length es + h.spare;
            layout =
                ap
                  (λ k. record {
                    records = some (replicate (length es + h.spare) zero_record);
                    capacity = k;
                    count = 0;
                  })
                  {x = length es + h.spare} {y = 0 + (length es + h.spare)} (omega arith);
            named = tt;
            distinct = tt;
          },
          refl,
        )

  register_test :
      (b : Bool) (e : NodeRecord U) (r : Registry U) (rs : List (NodeRecord U))
      → node_name_valid (some e.name) ≡ b
      → r.records ≡ some rs
      → register (some r) (some e)
        ≡ (if not b then some (einval, some r) else register_record r rs e)
  unfolding register
  register_test b e r rs h q =
      ap
        (λ o. elim o [
          | none ↦ some (einval, some r)
          | some rs ↦
              if not (node_name_valid (some e.name))
              then some (einval, some r)
              else register_record r rs e
        ])
        q
      ∙ ap (λ b. if not b then some (einval, some r) else register_record r rs e) h

  Step : List (NodeRecord U) → Registry U → NodeRecord U → Type 0
  Step es r e =
      (result : RegistryResult) × (r' : Registry U) × (register (some r) (some e)
        ≡ some (result, some r'))
      × RegisterOutcome es r e result r'

  register_record-full :
      (r : Registry U) (rs : List (NodeRecord U)) (e : NodeRecord U)
      → leb r.capacity r.count ≡ true
      → register_record r rs e ≡ some (enospc, some r)
  unfolding register_record
  register_record-full r rs e h = rw h refl

  register_record-duplicate :
      (r : Registry U) (rs : List (NodeRecord U)) (e : NodeRecord U) (i : ℕ)
      → leb r.capacity r.count ≡ false
      → find (some r) (some e.name) ≡ some (some i)
      → register_record r rs e ≡ some (edup, some r)
  unfolding register_record
  register_record-duplicate r rs e i h f = rw h (rw f refl)

  register_record-added :
      (r : Registry U) (rs rs' : List (NodeRecord U)) (e : NodeRecord U)
      → leb r.capacity r.count ≡ false
      → find (some r) (some e.name) ≡ some none
      → set_elem? rs r.count (node_record_copy e) ≡ some rs'
      → register_record r rs e
        ≡ some (ok, some (record r { records = some rs'; count = r.count + 1 }))
  unfolding register_record
  register_record-added r rs rs' e h f s = rw h (rw f (rw s refl))

  register-valid :
      (e : NodeRecord U) (es : List (NodeRecord U)) (k : ℕ)
      → node_name_valid (some e.name) ≡ true
      → IsName e.name
      → Holds es (registry_of es k)
      → Step es (registry_of es k) e
  unfolding Step
  register-valid e es zero t v h = (
    enospc,
    registry_of es 0,
    register_test true e _ _ t refl ∙ register_record-full _ _ e (ground arith),
    full v (omega arith),
  )
  register-valid e es (suc k) t v h =
      register-spare (find-FindOutcome es (registry_of es (suc k)) h e.name)
    where
      room : leb (length es + suc k) (length es) ≡ false
      room = ground arith

      longer : length (es ++ node_record_copy e ∷ []) ≡ length es + 1
      longer = length-append es (node_record_copy e ∷ [])

      copied : key (node_record_copy e) ≡ key e
      copied = node_record_copy-key e v

      name_ok : IsName (node_record_copy e).name
      name_ok = subst (λ t. (0 < length t) × (length t < name_max)) (sym copied) v

      register-spare :
          (o : Option ℕ) × (find (some (registry_of es (suc k))) (some e.name) ≡ some o)
            × FindOutcome es e.name o
          → Step es (registry_of es (suc k)) e
      register-spare (_, f, found before x after q n) = (
        edup,
        registry_of es (suc k),
        register_test true e _ _ t refl ∙ register_record-duplicate _ _ e _ room f,
        duplicate before x after v (omega arith) q n,
      )
      register-spare (_, f, missing none_named) = (
        ok,
        registry_of (es ++ node_record_copy e ∷ []) k,
        register_test true e _ _ t refl
            ∙ register_record-added _ _ _ e room f (set_elem?-append es zero_record _ _)
            ∙ ap (λ r. some (ok, some r))
                (registry_ext {n = length es + suc k}
                  {n' = length (es ++ node_record_copy e ∷ []) + k} {m = length es + 1}
                  {m' = length (es ++ node_record_copy e ∷ [])}
                  (sym (append_assoc es (node_record_copy e ∷ []) (replicate k zero_record)))
                  (omega (arith, longer)) (omega (arith, longer))),
        added _ v (omega arith) none_named
            (record {
              spare = k;
              layout = refl;
              named = All-append _ es (node_record_copy e ∷ []) h.named (name_ok, tt);
              distinct =
                  Distinct-append es (node_record_copy e) h.distinct
                    (All-imp _ _ (λ x ne eq. ne (eq ∙ copied)) es none_named);
            })
            (omega (arith, longer)),
      )

  pub register-RegisterOutcome :
      (es : List (NodeRecord U)) (r : Registry U)
      → Holds es r
      → (e : NodeRecord U)
      → (result : RegistryResult) × (r' : Registry U) × (register (some r) (some e)
          ≡ some (result, some r'))
        × RegisterOutcome es r e result r'
  unfolding Step
  register-RegisterOutcome es r h e =
      subst (λ r. Step es r e) (sym h.layout)
        (elim (IsName-cases e.name) [
          | inl v ↦ register-valid e es h.spare v.0 v.1 (subst (Holds es) h.layout h)
          | inr v ↦ (einval, _, register_test false e _ _ v.0 refl, rejected v.1)
        ])
