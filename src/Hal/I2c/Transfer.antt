-- ===== src/Hal/I2c/Transfer.antt =====
-- What hal_i2c.c holds and sends.
use emberlite.Common.{
  ◌<◌, ℕ, ◌+◌, ◌≡◌, refl, sym, arith, Bool, true, Option, none, some, List, ◌∷◌, length, ltb, ◌==◌,
  if◌then◌else◌, ap,
}
use emberlite.Hal.{err_io, err_invalid_param, err_no_memory, status_from_errno}
use emberlite.Hal.Sys.{ret, ◌>>=◌, has, Held, absent, Ensures}
use emberlite.Hal.Sys.Rules.{
  ret-Ensures, call-Ensures, sys-Ensures, if-Ensures, >>=-Ensures, has-head,
}
use emberlite.Hal.Handle.{not_ok, close_handle, no_data, bytes_at}
use emberlite.Hal.Handle.Spec.{
  Keeps, Keeps-refl, Keeps-block, Keeps-idle, not_ok-true, locked_fd-Ensures, Opened, not_opened,
  Holds, HasNew, close_with-Opened, alloc_handle-Opened, Keeps-interrupted, open_close-Keeps, Sent,
  not_sent, failed-ne_ok, count_status-Sent,
}
use emberlite.Hal.I2c.{
  I2cConfig, I2cHandle, set_slave, i2c_open_path, i2c_open, i2c_close, i2c_write, i2c_write_reg,
}

set_slave-Keeps :
    (fd addr : ℕ) (s : Held)
    → has fd s.fds ≡ true
    → Ensures (λ st s'. Keeps s s') (set_slave fd addr) s
unfolding set_slave
set_slave-Keeps fd addr s h =
    if-Ensures (ltb 0x7f addr) (λ q. ret-Ensures (Keeps-refl s))
      λ q.
        sys-Ensures h (λ e d. ret-Ensures (Keeps-interrupted s e))
          (λ v bs e d. ret-Ensures (Keeps-refl s))

i2c_open_path-Opened :
    (config : I2cConfig) (path : List ℕ) (s : Held)
    → s.mutex ≡ absent
    → Ensures (Opened I2cHandle.fd s) (i2c_open_path config path) s
unfolding i2c_open_path
i2c_open_path-Opened config path s m =
    sys-Ensures tt
      (λ e d. ret-Ensures (
        not_opened (status_from_errno e) _ (failed-ne_ok s.interrupts e d) (Keeps-interrupted s e)))
      λ fd bs e d.
        >>=-Ensures (set_slave fd config.slave_addr) _ _
          (set_slave-Keeps fd config.slave_addr (record s { fds = fd ∷ s.fds }) (has-head fd s.fds))
          λ st s' k.
            if-Ensures (not_ok st)
              (λ q. close_with-Opened I2cHandle.fd fd s s' (new k) st (not_ok-true st q))
              (λ q. alloc_handle-Opened I2cHandle.fd fd s s' (new k) _ refl m)
  where
    new : {fd : ℕ} {s' : Held} → Keeps (record s { fds = fd ∷ s.fds }) s' → HasNew fd s s'
    new k = record { fds = k.fds; blocks = k.blocks; mutex = k.mutex }

-- hal_i2c_open, when its mutex is not made yet, and whatever the system answers, uses only descriptors
-- that it holds. With HAL_OK it returns a handle, for which the process holds a descriptor, a block and
-- an unlocked mutex more; else an error and no handle, and the process holds what it did.
pub i2c_open-Opened :
    (config : Option I2cConfig) (out_handle : Bool) (s : Held)
    → s.mutex ≡ absent
    → Ensures (Opened I2cHandle.fd s) (i2c_open config out_handle) s
unfolding i2c_open
i2c_open-Opened none out_handle s m =
    ret-Ensures (not_opened err_invalid_param s (λ q. ground arith) (Keeps-refl s))
i2c_open-Opened (some config) out_handle s m = at config.path
  where
    invalid : Ensures (Opened I2cHandle.fd s) (ret (err_invalid_param, none)) s
    invalid = ret-Ensures (not_opened err_invalid_param s (λ q. ground arith) (Keeps-refl s))

    at :
        (path : Option (List ℕ))
        → Ensures
            (Opened I2cHandle.fd s)
            (elim path [
              | none ↦ ret (err_invalid_param, none)
              | some path ↦
                  if out_handle then i2c_open_path config path else ret (err_invalid_param, none)
            ])
            s
    at none = invalid
    at (some path) =
        if-Ensures out_handle (λ q. i2c_open_path-Opened config path s m) (λ q. invalid)

-- hal_i2c_open and then hal_i2c_close of the handle it gave, NULL included, when the mutex is not made
-- before, whatever the system answers: only descriptors and blocks that are held are used, none is
-- closed or freed twice, and at the end the process holds what it did.
pub i2c_open-close-Keeps :
    (config : Option I2cConfig) (out_handle : Bool) (s : Held)
    → s.mutex ≡ absent
    → Ensures (λ st s'. Keeps s s') (i2c_open config out_handle >>= λ r. i2c_close r.1) s
unfolding i2c_close
i2c_open-close-Keeps config out_handle s m =
    open_close-Keeps I2cHandle.fd (i2c_open config out_handle) i2c_close s m refl
      (λ h fd e. ap close_handle e) (i2c_open-Opened config out_handle s m)

-- hal_i2c_write_reg on a handle that the process holds, with as many bytes behind `data` as it is told,
-- whatever the system answers within its documentation: `reg` and the bytes go out in one write at
-- most, HAL_OK means that all were taken, and the process holds what it did.
pub i2c_write_reg-Sent :
    (h : I2cHandle) (fd reg : ℕ) (buffer : Option (List ℕ)) (len : ℕ) (s : Held)
    → h.fd ≡ some fd
    → Holds fd s
    → length (bytes_at buffer len) ≡ len
    → Ensures (Sent fd (reg ∷ bytes_at buffer len) s) (i2c_write_reg (some h) reg buffer len) s
unfolding i2c_write_reg
i2c_write_reg-Sent h fd reg buffer len s e o l =
    if-Ensures (no_data buffer len)
      (λ q. ret-Ensures (not_sent err_invalid_param s (λ q. ground arith) (Keeps-refl s) refl))
      λ q. locked_fd-Ensures h.fd err_io _ fd e o (
        sys-Ensures tt
          (λ e d.
            ret-Ensures
              (not_sent err_no_memory _ (λ q. ground arith) (Keeps-idle s o.mutex_held) refl))
          λ p bs e d.
            sys-Ensures o.fd_held
              (λ e d. call-Ensures (omega arith) λ a d'. ret-Ensures (
                not_sent _ _ (failed-ne_ok s.interrupts e d)
                  (Keeps-block s _ refl refl (sym o.mutex_held)) refl))
              λ v bs e d. call-Ensures (omega arith) λ a d'. ret-Ensures (
                count_status-Sent fd (len + 1) (reg ∷ bytes_at buffer len) s _ v bs e
                  (omega (arith, l)) (Keeps-block s _ refl refl (sym o.mutex_held)) d refl))

pub i2c_write-Sent :
    (h : I2cHandle) (fd : ℕ) (buffer : Option (List ℕ)) (len : ℕ) (s : Held)
    → h.fd ≡ some fd
    → Holds fd s
    → 0 < len
    → length (bytes_at buffer len) ≡ len
    → Ensures (Sent fd (bytes_at buffer len) s) (i2c_write (some h) buffer len) s
unfolding i2c_write
i2c_write-Sent h fd buffer len s e o p l =
    if-Ensures (no_data buffer len)
      (λ q. ret-Ensures (not_sent err_invalid_param s (λ q. ground arith) (Keeps-refl s) refl))
      λ q.
        if-Ensures (len == 0) (λ q. absurd (ground arith))
          λ q. locked_fd-Ensures h.fd err_io _ fd e o (
            sys-Ensures o.fd_held
              (λ e d.
                ret-Ensures
                  (not_sent _ _ (failed-ne_ok s.interrupts e d) (Keeps-idle s o.mutex_held) refl))
              λ v bs e d. ret-Ensures (
                count_status-Sent fd len (bytes_at buffer len) s _ v bs e l
                  (Keeps-idle s o.mutex_held) d refl))
