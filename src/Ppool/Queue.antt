-- ===== src/Ppool/Queue.antt =====
-- components/ppool/src/ppool_queue.c: a queue of tasks, a linked list ordered by priority.
pub mod Spec
pub mod Frame
pub mod Insert
pub mod Take
pub mod Order
mod Tests
use emberlite.Common.{
  ℕ, zero, suc, Bool, true, false, Option, none, some, ◌==◌, if◌then◌else◌, ℤ, pos, negsuc, ◌+ℤ◌,
  ◌-ℤ◌, leb_ℤ, ltb_ℤ,
}

-- An address; 0 is NULL.
abbrev pub Ptr : Type 0
Ptr = ℕ

-- `pool_node`. An element of `E` is a function pointer, one of `P` a parameter.
pub record PoolNode (E P : Type 0) : Type 0 where
  pub entry : E
  pub parameter : P
  pub priority : ℤ
  pub next : Ptr

-- `pool_queue`
pub record PoolQueue : Type 0 where
  pub len : ℤ
  pub head : Ptr

-- The nodes that are allocated.
abbrev pub Cells : Type 0 → Type 0 → Type 0
Cells E P = Ptr → Option (PoolNode E P)

-- What `ppool_errno` is set to.
abbrev pub pe_queue_no_mem : ℤ
pe_queue_no_mem = negsuc 4

abbrev pub pe_priority_error : ℤ
pe_priority_error = negsuc 5

abbrev pub pe_queue_node_no_mem : ℤ
pe_queue_node_no_mem = negsuc 6

-- `got` is what `malloc` returns.
pub queue_init : Ptr → Option ℤ × Option PoolQueue
queue_init got =
    if got == 0
    then (some pe_queue_no_mem, none)
    else (none, some (record { len = pos 0; head = 0 }))

module _ {E P : Type 0} where
  unfoldable pub store : Cells E P → Ptr → Option (PoolNode E P) → Cells E P
  store cells a o b = if b == a then o else cells b

  -- `*a`; `none` is a read through NULL, or of what is not allocated.
  unfoldable pub load : Cells E P → Ptr → Option (PoolNode E P)
  load cells a = if a == 0 then none else cells a

  -- `a->next = n`
  pub set_next : Cells E P → Ptr → Ptr → Option (Cells E P)
  set_next cells a n = elim (load cells a) [
    | none ↦ none
    | some c ↦ some (store cells a (some (record c { next = n })))
  ]

  -- The loop at `head`, after `at` nodes. `pos` is an int, and is at most the number of nodes. `none`
  -- is an access out of bounds, or that the fuel ran out.
  unfoldable pub insert_pos_loop : ℕ → Cells E P → Ptr → ℤ → ℕ → Option ℕ
  insert_pos_loop zero cells head priority at = none
  insert_pos_loop (suc fuel) cells head priority at =
      if head == 0 then some at else elim (load cells head) [
        | none ↦ none
        | some c ↦
            let next = insert_pos_loop fuel cells c.next priority (suc at) in
            if leb_ℤ c.priority priority then next else some at
      ]

  unfoldable pub get_insert_pos : ℕ → Cells E P → Ptr → ℤ → Option ℤ
  unfolding insert_pos_loop
  get_insert_pos fuel cells head priority =
      if head == 0
      then some (negsuc 0)
      else elim (insert_pos_loop fuel cells head priority 0) [ none ↦ none | some n ↦ some (pos n) ]

  -- The result: what `ppool_errno` is set to, the pointer, the nodes.
  unfoldable pub queue_new : Ptr → Cells E P → E → P → ℤ → Option ℤ × Ptr × Cells E P
  queue_new got cells entry parameter priority =
      if ltb_ℤ priority (pos 0)
      then (some pe_priority_error, 0, cells)
      else if got == 0
      then (some pe_queue_node_no_mem, 0, cells)
      else (
        none,
        got,
        store cells got
            (some (record { entry = entry; parameter = parameter; priority = priority; next = 0 })),
      )

  -- `n` times `h = h->next`.
  pub advance : ℕ → Cells E P → Ptr → Option Ptr
  advance zero cells h = some h
  advance (suc n) cells h = elim (load cells h) [ none ↦ none | some c ↦ advance n cells c.next ]

  -- `node->next = h->next; h->next = node`
  pub link_after : Cells E P → Ptr → Ptr → Option (Cells E P)
  unfolding set_next
  link_after cells h node = elim (load cells h) [
    | none ↦ none
    | some c ↦ elim (set_next cells node c.next) [
      | none ↦ none
      | some cells' ↦ set_next cells' h node
    ]
  ]

  -- `add` for the position that was found.
  unfoldable pub add_at : ℤ → Cells E P → PoolQueue → Ptr → Option (Cells E P × PoolQueue)
  unfolding set_next advance link_after
  add_at (negsuc n) cells queue node =
      some (cells, record { len = queue.len +ℤ pos 1; head = node })
  add_at (pos zero) cells queue node = elim (set_next cells node queue.head) [
    | none ↦ none
    | some cells' ↦ some (cells', record { len = queue.len +ℤ pos 1; head = node })
  ]
  add_at (pos (suc n)) cells queue node = elim (advance n cells queue.head) [
    | none ↦ none
    | some h ↦ elim (link_after cells h node) [
      | none ↦ none
      | some cells' ↦ some (cells', record queue { len = queue.len +ℤ pos 1 })
    ]
  ]

  unfoldable pub queue_add : ℕ → Cells E P → PoolQueue → Ptr → Option (Cells E P × PoolQueue)
  unfolding get_insert_pos add_at
  queue_add fuel cells queue node = elim (load cells node) [
    | none ↦ none
    | some c ↦ elim (get_insert_pos fuel cells queue.head c.priority) [
      | none ↦ none
      | some at ↦ add_at at cells queue node
    ]
  ]

  -- The pointer is 0 on an empty queue.
  unfoldable pub queue_get_task : Cells E P → PoolQueue → Option (Ptr × PoolQueue)
  queue_get_task cells queue =
      if queue.head == 0 then some (0, queue) else elim (load cells queue.head) [
        | none ↦ none
        | some c ↦ some (queue.head, record { len = queue.len -ℤ pos 1; head = c.next })
      ]

  -- The loop of `cleanup` and `destroy`: `free` of what is not allocated is `none`.
  pub free_loop : ℕ → Cells E P → Ptr → Option (Cells E P)
  free_loop zero cells h = none
  free_loop (suc fuel) cells h =
      if h == 0
      then some cells
      else elim (load cells h) [ none ↦ none | some c ↦ free_loop fuel (store cells h none) c.next ]

  pub queue_cleanup : ℕ → Cells E P → PoolQueue → Option (Cells E P × PoolQueue)
  unfolding free_loop
  queue_cleanup fuel cells queue = elim (free_loop fuel cells queue.head) [
    | none ↦ none
    | some cells' ↦ some (cells', record { len = pos 0; head = 0 })
  ]

  -- `none` for the queue is NULL. The queue itself is freed too.
  pub queue_destroy : ℕ → Cells E P → Option PoolQueue → Option (Cells E P)
  unfolding free_loop
  queue_destroy fuel cells none = some cells
  queue_destroy fuel cells (some queue) = free_loop fuel cells queue.head
