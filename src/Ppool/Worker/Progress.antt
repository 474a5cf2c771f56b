-- ===== src/Ppool/Worker/Progress.antt =====
-- A queued task of ppool.c is called.
use emberlite.Common.{◌≡◌, Bool, true, false, some, [], ◌∷◌, ◌++◌}
use emberlite.Ppool.Queue.{PoolNode, load}
use emberlite.Ppool.Worker.{Thread, took, calling, Shared, calls, Reach}

-- A worker that has a task to call, or is in its call, which may never return.
abbrev pub is_busy : Thread → Bool
is_busy (took a) = true
is_busy (calling a) = true
is_busy place = false

module _ {E P : Type 0} where
  -- By steps of the workers alone the task of the first node of the queue comes to be called next.
  abbrev pub Called : Shared E P → Type 0
  Called s =
      (s' : Shared E P) × (c : PoolNode E P) × Reach false s s'
      × (load s.cells s.queue.head ≡ some c)
      × (s'.calls ≡ s.calls ++ ((c.entry, c.parameter) ∷ []))
