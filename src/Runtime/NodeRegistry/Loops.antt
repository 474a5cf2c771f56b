-- ===== src/Runtime/NodeRegistry/Loops.antt =====
-- The loops of node_registry.c over an array.
use emberlite.Common.{
  ℕ, zero, suc, ◌+◌, ◌-◌, ◌↔◌, not, ◌<◌, ◌≡◌, refl, sym, ap, ap₂, ◌∙◌, arith, Bool, true, false,
  none, some, List, [], ◌∷◌, ◌++◌, append_assoc, All, length, drop, get_elem?, set_elem?,
  get_elem?-drop, get_elem?-append, set_elem?-append, first, rest, get_or, c_str, if◌then◌else◌,
  ◌==◌, ltb, strncmp_eq, length-append,
}
use emberlite.Runtime.NodeRegistry.{
  NodeRecord, Registry, ok, enotfound, name_max, zero_record, name_len_loop, node_name_len,
  node_name_valid, find_loop, shift_loop, remove_at, unregister_loop,
}
use emberlite.Runtime.NodeRegistry.Spec.{IsName, Named, NotNamed}
use emberlite.Runtime.NodeRegistry.Distinct.{strncmp_eq-Named, strncmp_eq-NotNamed}

first-drop : (i : ℕ) (xs : List ℕ) → first (drop i xs) ≡ get_or xs i 0
first-drop zero [] = refl
first-drop zero (x ∷ xs) = refl
first-drop (suc i) [] = refl
first-drop (suc i) (x ∷ xs) = first-drop i xs

rest-drop : (i : ℕ) (xs : List ℕ) → rest (drop i xs) ≡ drop (suc i) xs
rest-drop zero [] = refl
rest-drop zero (x ∷ xs) = refl
rest-drop (suc i) [] = refl
rest-drop (suc i) (x ∷ xs) = rest-drop i xs

name_len_loop-c_str :
    (left len : ℕ) (name : List ℕ)
    → name_len_loop left len name ≡ len + length (c_str left (drop len name))
unfolding name_len_loop
name_len_loop-c_str zero len name = omega arith
name_len_loop-c_str (suc left) len name =
    let ih : name_len_loop left (len + 1) name
        ≡ len + 1 + length (c_str left (rest (drop len name))) =
      name_len_loop-c_str left (len + 1) name
      ∙ ap (λ s. len + 1 + length (c_str left s))
          (ap (λ k. drop k name) {x = len + 1} {y = suc len} (omega arith)
            ∙ sym (rest-drop len name)) in
    rw (first-drop len name) (ground (arith, ih))

name_test :
    (n len : ℕ) (name : List ℕ)
    → len ≡ 0 + length (c_str (suc n) (drop 0 name))
    → ((if get_or name 0 0 == 0 then false else ltb len (suc n)) ≡ true)
      ↔ ((0 < length (c_str (suc n) name)) × (length (c_str (suc n) name) < suc n))
name_test n len [] h = ground arith
name_test n len (c ∷ name) h = ground arith

-- What the code takes for a name is one.
pub node_name_valid-IsName : (name : List ℕ) → (node_name_valid (some name) ≡ true) ↔ IsName name
unfolding node_name_valid
node_name_valid-IsName name = name_test 31 (node_name_len name) name (name_len_loop-c_str 32 0 name)

module _ {U : Type 0} (name : List ℕ) where
  find_loop_step :
      (left i : ℕ) (rs : List (NodeRecord U)) (e : NodeRecord U) (b : Bool)
      → get_elem? rs i ≡ some e
      → strncmp_eq name_max e.name name ≡ b
      → find_loop (suc left) i rs name
        ≡ (if b then some (some i) else find_loop left (i + 1) rs name)
  unfolding find_loop
  find_loop_step left i rs e b g h =
      ap
        (λ o. elim o [
          | none ↦ none
          | some e ↦
              if strncmp_eq name_max e.name name
              then some (some i)
              else find_loop left (i + 1) rs name
        ])
        g
      ∙ ap (λ b. if b then some (some i) else find_loop left (i + 1) rs name) h

  pub find_loop-absent :
      (es t : List (NodeRecord U)) (i : ℕ) (rs : List (NodeRecord U))
      → drop i rs ≡ es ++ t
      → All (NotNamed name) es
      → find_loop (length es) i rs name ≡ some none
  unfolding find_loop
  find_loop-absent [] t i rs d h = refl
  find_loop-absent (e ∷ es) t i rs d h =
      let here = get_elem?-drop rs i e (es ++ t) d in
      find_loop_step (length es) i rs e false here.0 (strncmp_eq-NotNamed name e h.0)
      ∙ find_loop-absent es t (i + 1) rs here.1 h.1

  pub find_loop-present :
      (before : List (NodeRecord U)) (e : NodeRecord U) (t : List (NodeRecord U)) (n m i : ℕ)
      (rs : List (NodeRecord U))
      → n ≡ length before + suc m
      → drop i rs ≡ before ++ e ∷ t
      → All (NotNamed name) before
      → Named name e
      → find_loop n i rs name ≡ some (some (i + length before))
  unfolding find_loop
  find_loop-present before e t zero m i rs l d h n = absurd (omega arith)
  find_loop-present [] e t (suc k) m i rs l d h n =
      let here = get_elem?-drop rs i e t d in
      find_loop_step k i rs e true here.0 (strncmp_eq-Named name e n)
      ∙ ap (λ i. some (some i)) {x = i} {y = i + 0} (omega arith)
  find_loop-present (x ∷ before) e t (suc k) m i rs l d h n =
      let here = get_elem?-drop rs i x (before ++ e ∷ t) d in
      find_loop_step k i rs x false here.0 (strncmp_eq-NotNamed name x h.0)
      ∙ find_loop-present before e t k m (i + 1) rs (omega arith) here.1 h.1 n
      ∙ ap (λ i. some (some i)) {x = i + 1 + length before} {y = i + suc (length before)}
          (omega arith)

  unregister_loop_step :
      (left i : ℕ) (r : Registry U) (rs : List (NodeRecord U)) (e : NodeRecord U) (b : Bool)
      → get_elem? rs i ≡ some e
      → strncmp_eq name_max e.name name ≡ b
      → unregister_loop (suc left) i r rs name
        ≡ (if not b then unregister_loop left (i + 1) r rs name else remove_at r rs i)
  unfolding unregister_loop
  unregister_loop_step left i r rs e b g h =
      ap
        (λ o. elim o [
          | none ↦ none
          | some e ↦
              if not (strncmp_eq name_max e.name name)
              then unregister_loop left (i + 1) r rs name
              else remove_at r rs i
        ])
        g
      ∙ ap (λ b. if not b then unregister_loop left (i + 1) r rs name else remove_at r rs i) h

  pub unregister_loop-absent :
      (es t : List (NodeRecord U)) (i : ℕ) (r : Registry U) (rs : List (NodeRecord U))
      → drop i rs ≡ es ++ t
      → All (NotNamed name) es
      → unregister_loop (length es) i r rs name ≡ some (enotfound, some r)
  unfolding unregister_loop
  unregister_loop-absent [] t i r rs d h = refl
  unregister_loop-absent (e ∷ es) t i r rs d h =
      let here = get_elem?-drop rs i e (es ++ t) d in
      unregister_loop_step (length es) i r rs e false here.0 (strncmp_eq-NotNamed name e h.0)
      ∙ unregister_loop-absent es t (i + 1) r rs here.1 h.1

  pub unregister_loop-present :
      (before : List (NodeRecord U)) (e : NodeRecord U) (t : List (NodeRecord U)) (n m i : ℕ)
      (r : Registry U) (rs : List (NodeRecord U))
      → n ≡ length before + suc m
      → drop i rs ≡ before ++ e ∷ t
      → All (NotNamed name) before
      → Named name e
      → unregister_loop n i r rs name ≡ remove_at r rs (i + length before)
  unfolding unregister_loop
  unregister_loop-present before e t zero m i r rs l d h n = absurd (omega arith)
  unregister_loop-present [] e t (suc k) m i r rs l d h n =
      let here = get_elem?-drop rs i e t d in
      unregister_loop_step k i r rs e true here.0 (strncmp_eq-Named name e n)
      ∙ ap (λ i. remove_at r rs i) {x = i} {y = i + 0} (omega arith)
  unregister_loop-present (x ∷ before) e t (suc k) m i r rs l d h n =
      let here = get_elem?-drop rs i x (before ++ e ∷ t) d in
      unregister_loop_step k i r rs x false here.0 (strncmp_eq-NotNamed name x h.0)
      ∙ unregister_loop-present before e t k m (i + 1) r rs (omega arith) here.1 h.1 n
      ∙ ap (λ i. remove_at r rs i) {x = i + 1 + length before} {y = i + suc (length before)}
          (omega arith)

module _ {U : Type 0} where
  shift_loop_step :
      (left j : ℕ) (rs : List (NodeRecord U)) (e : NodeRecord U) (rs' : List (NodeRecord U))
      → get_elem? rs j ≡ some e
      → set_elem? rs (j - 1) e ≡ some rs'
      → shift_loop (suc left) j rs ≡ shift_loop left (j + 1) rs'
  unfolding shift_loop
  shift_loop_step left j rs e rs' g h = rw (shift_loop, g, h) refl

  -- The records behind `e` move down by one; the last slot keeps a copy.
  pub shift_loop-append :
      (after before : List (NodeRecord U)) (e : NodeRecord U) (t : List (NodeRecord U))
      → (x : NodeRecord U) × (shift_loop
            (length after)
            (length before + 1)
            (before ++ e ∷ (after ++ t))
          ≡ some (before ++ (after ++ x ∷ t)))
  unfolding shift_loop
  shift_loop-append [] before e t = (e, refl)
  shift_loop-append (a ∷ after) before e t =
      let ih = shift_loop-append after (before ++ a ∷ []) a t in
      let w = after ++ t in
      let snoc : length (before ++ a ∷ []) ≡ length before + 1 = length-append before (a ∷ []) in
      (
        ih.0,
        shift_loop_step (length after) (length before + 1) (before ++ e ∷ a ∷ w) a
              (before ++ a ∷ a ∷ w)
              (ap₂ get_elem? (sym (append_assoc before (e ∷ []) (a ∷ w)))
                  (sym (length-append before (e ∷ [])))
                ∙ get_elem?-append (before ++ e ∷ []) a w)
              (ap (λ k. set_elem? (before ++ e ∷ a ∷ w) k a) {x = length before + 1 - 1}
                  {y = length before} (omega arith)
                ∙ set_elem?-append before e (a ∷ w) a)
            ∙ ap₂ (shift_loop (length after)) (ap (λ k. k + 1) (sym snoc))
                (sym (append_assoc before (a ∷ []) (a ∷ w)))
            ∙ ih.1
            ∙ ap some (append_assoc before (a ∷ []) (after ++ ih.0 ∷ t)),
      )

  -- Without `e` the records stay in order, and the last slot in use is zeroed.
  pub remove_at-append :
      (r : Registry U) (before : List (NodeRecord U)) (e : NodeRecord U)
      (after t : List (NodeRecord U))
      → r.count ≡ length (before ++ e ∷ after)
      → remove_at r (before ++ e ∷ (after ++ t)) (length before)
        ≡ some (
          ok,
          some (record r {
            records = some (before ++ (after ++ zero_record ∷ t));
            count = length (before ++ after);
          }),
        )
  unfolding remove_at
  remove_at-append r before e after t c =
      let counted : r.count ≡ suc (length before + length after) =
        omega (arith, c, length-append before (e ∷ after)) in
      let both : length (before ++ after) ≡ length before + length after =
        length-append before after in
      let shifted = shift_loop-append after before e t in
      let shift : shift_loop (r.count - (length before + 1)) (length before + 1)
            (before ++ e ∷ (after ++ t))
          ≡ some (before ++ (after ++ shifted.0 ∷ t)) =
        ap (λ k. shift_loop k (length before + 1) (before ++ e ∷ (after ++ t)))
          {x = r.count - (length before + 1)} {y = length after} (omega (arith, counted))
        ∙ shifted.1 in
      let zeroed : set_elem? (before ++ (after ++ shifted.0 ∷ t)) (r.count - 1) zero_record
          ≡ some (before ++ (after ++ zero_record ∷ t)) =
        ap₂ (λ xs k. set_elem? xs k zero_record) {u = r.count - 1} {v = length (before ++ after)}
          (sym (append_assoc before after (shifted.0 ∷ t))) (omega (arith, counted, both))
        ∙ set_elem?-append (before ++ after) shifted.0 t zero_record
        ∙ ap some (append_assoc before after (zero_record ∷ t)) in
      rw (remove_at, shift, zeroed)
        (ap
          (λ k. some (
            ok,
            some (record r { records = some (before ++ (after ++ zero_record ∷ t)); count = k }),
          ))
          {x = r.count - 1} {y = length (before ++ after)} (omega (arith, counted, both)))
