-- ===== src/Hal/Can/Frame.antt =====
-- What hal_can.c receives of a frame that it has sent.
use emberlite.Common.{
  ℕ, Option, ◌-◌, ◌%◌, ◌^◌, ◌≡◌, some, List, [], ◌∷◌, ◌++◌, ◌==◌, if◌then◌else◌, length, take,
  replicate, ℤ,
}
use emberlite.Hal.{Errno}
use emberlite.Hal.Sys.{read, write, poll_in, mutex_lock, mutex_unlock, Call, Answer, done, ◌>>◌}
use emberlite.Hal.Can.{CanFrame, CanHandle}

-- A frame as it arrives: eleven bits of its identifier, the bytes that its count names with zeros
-- behind, and a flag of 0 or 1.
abbrev pub arrived : CanFrame → CanFrame
arrived f = record {
  id = f.id % 2 ^ 11;
  dlc = f.dlc;
  frame_data = take f.dlc f.frame_data ++ replicate (8 - f.dlc) 0;
  is_rtr = if f.is_rtr == 0 then 0 else 1;
}

-- The bit of a flag.
abbrev rtr_bit : ℕ → ℕ
rtr_bit is_rtr = if is_rtr == 0 then 0 else 2 ^ 30

-- A socket that receives what it sends, as linux/can.h documents it for two sockets on one bus.
pub record Bus (D : Type 0) (fd : ℕ) : Type 0 where
  pub step : Call → D → Answer × D
  pub queued : D → List ℕ
  pub errno : D → Errno
  pub lock_keeps : (d : D) → queued (step mutex_lock d).1 ≡ queued d
  pub unlock_keeps : (d : D) → queued (step mutex_unlock d).1 ≡ queued d
  pub write_done :
      (d : D) (bs : List ℕ) → length bs ≡ 16 → (step (write fd bs) d).0 ≡ done 16 [] (errno d)
  pub write_queues : (d : D) (bs : List ℕ) → length bs ≡ 16 → queued (step (write fd bs) d).1 ≡ bs
  pub poll_done : (d : D) (t : ℤ) → (step (poll_in fd t) d).0 ≡ done 1 (1 ∷ []) (errno d)
  pub poll_keeps : (d : D) (t : ℤ) → queued (step (poll_in fd t) d).1 ≡ queued d
  pub read_done : (d : D) → (step (read fd 16) d).0 ≡ done 16 (queued d) (errno d)

abbrev pub socket : ℕ → Option CanHandle
socket fd = some (record { fd = some fd })

module _ {D : Type 0} (fd : ℕ) (b : Bus D fd) where
  unlocked_at : D → D
  unlocked_at d = (b.step mutex_unlock (b.step mutex_lock d).1).1
