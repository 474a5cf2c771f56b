-- ===== src/Ppool/Queue/Frame.antt =====
-- Reads and writes of the nodes of ppool_queue.c.
use emberlite.Common.{
  ℕ, ◌≡◌, ◌≢◌, refl, sym, ap, ◌∙◌, arith, Bool, true, false, Option, some, List, [], ◌∷◌, ◌==◌,
  if◌then◌else◌, leb_ℤ, All, inl, inr, Bool-cases,
}
use emberlite.Ppool.Queue.{Ptr, PoolNode, Cells, store, load}
use emberlite.Ppool.Queue.Spec.{Item, node_of, Away, Chain, insert}

eq_test : (a b : ℕ) → (a == b) ≡ true → a ≡ b
eq_test a b h = ground arith

pub eq_self : (a : ℕ) → (a == a) ≡ true
eq_self a = ground arith

pub eq_ne : (a b : ℕ) → a ≢ b → (a == b) ≡ false
eq_ne a b h = elim (Bool-cases (a == b)) [ inl y ↦ absurd (h (eq_test a b y)) | inr n ↦ n ]

module _ {E P : Type 0} where
  pub store_self : (cells : Cells E P) (a : Ptr) (o : Option (PoolNode E P)) → store cells a o a ≡ o
  unfolding store
  store_self cells a o = rw (eq_self a) refl

  pub store_ne :
      (cells : Cells E P) (a b : Ptr) (o : Option (PoolNode E P))
      → b ≢ a
      → store cells a o b ≡ cells b
  unfolding store
  store_ne cells a b o h = rw (eq_ne b a h) refl

  pub load_ne : (cells : Cells E P) (a : Ptr) → a ≢ 0 → load cells a ≡ cells a
  unfolding load
  load_ne cells a h = rw (eq_ne a 0 h) refl

  -- The first node of a chain.
  pub load-Chain :
      (cells : Cells E P) (a : Ptr) (x : Item E P) (xs : List (Item E P))
      (c : Chain cells a (x ∷ xs))
      → (a ≢ 0) × (load cells a ≡ some (node_of x c.0))
  load-Chain cells a x xs c =
      let there : a ≢ 0 = λ e. c.2 (sym c.1 ∙ e) in
      (there, load_ne cells a there ∙ ap cells c.1 ∙ c.3)

  -- Nodes that are not written stay linked.
  pub Chain-agree :
      (cells cells' : Cells E P) (xs : List (Item E P)) (a : Ptr)
      → All (λ x. cells' x.address ≡ cells x.address) xs
      → Chain cells a xs
      → Chain cells' a xs
  Chain-agree cells cells' [] a h c = c
  Chain-agree cells cells' (x ∷ xs) a h c =
      (c.0, c.1, c.2, h.0 ∙ c.3, c.4, Chain-agree cells cells' xs c.0 h.1 c.5)

  pub store-agree :
      (cells : Cells E P) (a : Ptr) (o : Option (PoolNode E P)) (xs : List (Item E P))
      → Away a xs
      → All (λ x. store cells a o x.address ≡ cells x.address) xs
  store-agree cells a o [] h = tt
  store-agree cells a o (x ∷ xs) h =
      (store_ne cells a x.address o (λ e. h.0 (sym e)), store-agree cells a o xs h.1)

  pub Away-insert :
      (a : Ptr) (x : Item E P) (xs : List (Item E P))
      → a ≢ x.address
      → Away a xs
      → Away a (insert x xs)
  unfolding insert
  Away-insert a x [] h away = (h, tt)
  Away-insert a x (y ∷ ys) h away = go (leb_ℤ y.priority x.priority) (Away-insert a x ys h away.1)
    where
      go : (b : Bool) → Away a (insert x ys) → Away a (if b then y ∷ insert x ys else x ∷ y ∷ ys)
      go true ih = (away.0, ih)
      go false ih = (h, away)
