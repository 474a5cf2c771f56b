-- ===== src/Ppool/Worker/Tests.antt =====
-- A run of two workers of ppool.c and a client.
use emberlite.Common.{
  ℕ, refl, sym, ap, arith, pos-+ℤ-one, pos--ℤ-one, none, some, true, [], ◌∷◌, pos,
}
use emberlite.Ppool.Queue.{
  Cells, store, load, insert_pos_loop, get_insert_pos, queue_new, add_at, queue_add, queue_get_task,
}
use emberlite.Ppool.Worker.{
  outside, inside, waiting, took, calling, broadcast, Shared, move, locks, waits, takes, calls,
  adds, Reach, here, next, start,
}
use emberlite.Ppool.Worker.Safe.{Safe, Reach-Safe}

abbrev empty : Cells ℕ ℕ
empty a = none

abbrev one : Cells ℕ ℕ
one = store empty 10 (some (record { entry = 60; parameter = 5; priority = pos 2; next = 0 }))

abbrev locked : Shared ℕ ℕ
locked = record (start empty) { lock = some 3; threads = move 3 inside (λ t. outside) }

abbrev asleep : Shared ℕ ℕ
asleep = record locked { lock = none; threads = move 3 waiting (move 3 inside (λ t. outside)) }

abbrev filled : Shared ℕ ℕ
filled = record asleep {
  cells = one;
  queue = record { len = pos 1; head = 10 };
  threads = broadcast asleep.threads;
}

abbrev other : Shared ℕ ℕ
other = record filled { lock = some 4; threads = move 4 inside filled.threads }

abbrev taken : Shared ℕ ℕ
taken = record other {
  queue = record { len = pos 0; head = 0 };
  lock = none;
  threads = move 4 (took 10) other.threads;
}

abbrev called : Shared ℕ ℕ
called = record taken { threads = move 4 (calling 10) taken.threads; calls = (60, 5) ∷ [] }

-- Worker 3 finds no task and waits, and a client adds one.
to_filled : Reach true (start empty) filled
unfolding store load queue_new queue_add add_at get_insert_pos insert_pos_loop queue_get_task
to_filled =
    next {s' = asleep}
      (next {s' = locked} (next {s' = start empty} here (locks 3 refl refl refl))
        (waits 3 refl refl refl))
      (adds 10 60 5 2 0 one one _ refl refl (λ e. ground arith) refl refl refl refl
        (ap (λ n. record filled { queue = record { len = n; head = 10 } }) (sym (pos-+ℤ-one 0))))

-- Worker 4 takes and calls it.
run : Reach true (start empty) called
unfolding store load queue_new queue_add add_at get_insert_pos insert_pos_loop queue_get_task
run =
    next {s' = taken}
      (next {s' = other} (next {s' = filled} to_filled (locks 4 refl refl refl)) (
        takes 4 10 _ refl refl refl
          (ap (λ n. record taken { queue = record { len = n; head = 0 } }) (sym (pos--ℤ-one 0)))))
      (calls 4 10 _ refl refl refl)

Reach-Safe_example : Safe called
Reach-Safe_example = Reach-Safe empty called run
