-- ===== src/Hal/Handle/Samples.antt =====
-- A process before and while it has a handle, for the tests of the drivers.
use emberlite.Common.{ℕ, List, [], ◌∷◌, refl, arith}
use emberlite.Hal.{eok}
use emberlite.Hal.Sys.{Held, absent, unlocked, Answer, done}
use emberlite.Hal.Handle.Spec.{Holds}

abbrev pub nothing_held : Held
nothing_held = record {
  fds = 0 ∷ 1 ∷ 2 ∷ [];
  blocks = 7;
  mutex = absent;
  sent = [];
  reads = [];
  interrupts = 2;
}

abbrev pub handle_held : Held
handle_held = record {
  fds = 3 ∷ 0 ∷ 1 ∷ 2 ∷ [];
  blocks = 8;
  mutex = unlocked;
  sent = [];
  reads = [];
  interrupts = 2;
}

pub handle_held-Holds : Holds 3 handle_held
handle_held-Holds = record { fd_held = refl; block_held = omega arith; mutex_held = refl }

-- A call that returns `v`.
abbrev pub gives : ℕ → Answer
gives v = done v [] eok

abbrev pub stores : List ℕ → ℕ → Answer
stores bs v = done v bs eok
