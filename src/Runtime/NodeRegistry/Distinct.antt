-- ===== src/Runtime/NodeRegistry/Distinct.antt =====
-- Lists of records with different names, and how the registry of node_registry.c changes them.
use emberlite.Common.{
  ℕ, ◌≡◌, ◌≢◌, sym, ◌∙◌, arith, Bool-cases, inl, inr, true, false, List, [], ◌∷◌, ◌++◌, All,
  All-append, strncmp_eq, strncmp_eq-c_str,
}
use emberlite.Runtime.NodeRegistry.{NodeRecord, name_max}
use emberlite.Runtime.NodeRegistry.Spec.{key, Named, NotNamed, Distinct, Lookup, absent, present}

module _ {ℓ κ} {A : Type ℓ} where
  pub All-split : (P : A → Type κ) (xs ys : List A) → All P (xs ++ ys) → All P xs × All P ys
  All-split P [] ys h = (tt, h)
  All-split P (x ∷ xs) ys h = let both = All-split P xs ys h.1 in ((h.0, both.0), both.1)

  pub All-imp : (P Q : A → Type κ) → ((x : A) → P x → Q x) → (xs : List A) → All P xs → All Q xs
  All-imp P Q f [] h = tt
  All-imp P Q f (x ∷ xs) h = (f x h.0, All-imp P Q f xs h.1)

module _ {U : Type 0} where
  pub Distinct-append :
      (es : List (NodeRecord U)) (e : NodeRecord U)
      → Distinct es
      → All (λ e'. key e' ≢ key e) es
      → Distinct (es ++ e ∷ [])
  Distinct-append [] e d h = (tt, tt)
  Distinct-append (x ∷ es) e d h =
      (All-append _ es (e ∷ []) d.0 ((λ eq. h.0 (sym eq)), tt), Distinct-append es e d.1 h.1)

  pub Distinct-remove :
      (before : List (NodeRecord U)) (e : NodeRecord U) (after : List (NodeRecord U))
      → Distinct (before ++ e ∷ after)
      → Distinct (before ++ after)
  Distinct-remove [] e after d = d.1
  Distinct-remove (x ∷ before) e after d =
      let both = All-split _ before (e ∷ after) d.0 in
      (All-append _ before after both.0 both.1.1, Distinct-remove before e after d.1)

  pub Distinct-replace :
      (before : List (NodeRecord U)) (e e' : NodeRecord U) (after : List (NodeRecord U))
      → key e' ≡ key e
      → Distinct (before ++ e ∷ after)
      → Distinct (before ++ e' ∷ after)
  Distinct-replace [] e e' after h d = (All-imp _ _ (λ x ne eq. ne (eq ∙ h)) after d.0, d.1)
  Distinct-replace (x ∷ before) e e' after h d =
      let both = All-split _ before (e ∷ after) d.0 in
      (
        All-append _ before (e' ∷ after) both.0 ((λ eq. both.1.0 (sym h ∙ eq)), both.1.1),
        Distinct-replace before e e' after h d.1,
      )

  pub strncmp_eq-Named :
      (name : List ℕ) (e : NodeRecord U) → Named name e → strncmp_eq name_max e.name name ≡ true
  strncmp_eq-Named name e h = (strncmp_eq-c_str name_max e.name name).1 h

  pub strncmp_eq-NotNamed :
      (name : List ℕ) (e : NodeRecord U) → NotNamed name e → strncmp_eq name_max e.name name ≡ false
  strncmp_eq-NotNamed name e h = elim (Bool-cases (strncmp_eq name_max e.name name)) [
    | inl y ↦ absurd (h ((strncmp_eq-c_str name_max e.name name).0 y))
    | inr n ↦ n
  ]

  Lookup-cons :
      (name : List ℕ) (e : NodeRecord U) (es : List (NodeRecord U))
      → NotNamed name e
      → Lookup name es
      → Lookup name (e ∷ es)
  Lookup-cons name e _ ne (absent es h) = absent (e ∷ es) (ne, h)
  Lookup-cons name e _ ne (present before x after h eq h') =
      present (e ∷ before) x after (ne, h) eq h'

  -- A name is looked up.
  pub lookup : (name : List ℕ) (es : List (NodeRecord U)) → Distinct es → Lookup name es
  lookup name [] d = absent [] tt
  lookup name (e ∷ es) d = elim (Bool-cases (strncmp_eq name_max e.name name)) [
    | inl y ↦
        let named = (strncmp_eq-c_str name_max e.name name).0 y in
        present [] e es tt named (All-imp _ _ (λ x ne eq. ne (eq ∙ sym named)) es d.0)
    | inr n ↦
        Lookup-cons name e es (λ eq. ground (arith, strncmp_eq-Named name e eq))
          (lookup name es d.1)
  ]
