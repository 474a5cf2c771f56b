-- ===== src/Ppool/Queue/Spec.antt =====
-- What the queue of ppool_queue.c stands for: a list of tasks, and where to insert one.
use emberlite.Common.{
  ℕ, suc, ◌≡◌, ◌≢◌, some, List, [], ◌∷◌, ◌++◌, if◌then◌else◌, ℤ, pos, leb_ℤ, ◌≤ℤ◌, length, All,
}
use emberlite.Ppool.Queue.{Ptr, PoolNode, PoolQueue, Cells}

-- A task, and the address of its node.
pub record Item (E P : Type 0) : Type 0 where
  pub address : Ptr
  pub entry : E
  pub parameter : P
  pub priority : ℤ

module _ {E P : Type 0} where
  abbrev pub node_of : Item E P → Ptr → PoolNode E P
  node_of x next = record {
    entry = x.entry;
    parameter = x.parameter;
    priority = x.priority;
    next = next;
  }

  -- Not the address of one of them.
  abbrev pub Away : Ptr → List (Item E P) → Type 0
  Away a xs = All (λ x. a ≢ x.address) xs

  -- The nodes of `xs` are linked in this order from `a`, at different addresses.
  abbrev pub Chain : Cells E P → Ptr → List (Item E P) → Type 0
  Chain cells a [] = a ≡ 0
  Chain cells a (x ∷ xs) =
      (next : Ptr) × (a ≡ x.address)
      × (x.address ≢ 0)
      × (cells x.address ≡ some (node_of x next))
      × Away x.address xs
      × Chain cells next xs

  pub record Queued (xs : List (Item E P)) (cells : Cells E P) (queue : PoolQueue) : Type 0 where
    pub chain : Chain cells queue.head xs
    pub counted : queue.len ≡ pos (length xs)

  -- Before the first task of a larger priority number.
  unfoldable pub insert : Item E P → List (Item E P) → List (Item E P)
  insert x [] = x ∷ []
  insert x (y ∷ ys) = if leb_ℤ y.priority x.priority then y ∷ insert x ys else x ∷ y ∷ ys

  -- How many tasks stay before it.
  unfoldable pub rank : ℤ → List (Item E P) → ℕ
  rank p [] = 0
  rank p (y ∷ ys) = if leb_ℤ y.priority p then suc (rank p ys) else 0

  -- The tasks in the order of their priority numbers.
  abbrev pub Sorted : List (Item E P) → Type 0
  Sorted [] = Unit
  Sorted (x ∷ xs) = All (λ y. x.priority ≤ℤ y.priority) xs × Sorted xs

  -- `ys` is `xs` with `x` behind the tasks of a smaller or the same number, before the others.
  pub record Inserted (x : Item E P) (xs ys : List (Item E P)) : Type 0 where
    pub before : List (Item E P)
    pub after : List (Item E P)
    pub split : xs ≡ before ++ after
    pub joined : ys ≡ before ++ x ∷ after
    pub not_later : All (λ y. y.priority ≤ℤ x.priority) before
    pub later : All (λ y. ¬ (y.priority ≤ℤ x.priority)) after
