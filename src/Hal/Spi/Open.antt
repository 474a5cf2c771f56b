-- ===== src/Hal/Spi/Open.antt =====
-- What hal_spi.c holds from its open to its close.
use emberlite.Common.{
  ℕ, ◌+◌, ◌≡◌, refl, ap, ◌∙◌, arith, Bool, Option, none, some, List, ◌∷◌, ◌||◌, not, if◌then◌else◌,
}
use emberlite.Hal.{HalStatus, err_invalid_param, err_no_memory, status_from_errno}
use emberlite.Hal.Sys.{has, Held, absent, unlocked, Request, Io, ret, ◌>>=◌, Ensures}
use emberlite.Hal.Sys.Rules.{
  ret-Ensures, call-Ensures, sys-Ensures, if-Ensures, >>=-Ensures, has-head,
}
use emberlite.Hal.Handle.{close_handle}
use emberlite.Hal.Handle.Spec.{
  Keeps, Keeps-refl, Keeps-interrupted, Opened, opened, not_opened, failed-ne_ok, close_with-Opened,
  close_handle-Keeps, open_close-Keeps,
}
use emberlite.Hal.Spi.{
  SpiConfig, SpiHandle, spi_close, spi_set, spi_open_path, spi_bad_config, spi_open,
}

-- The process behind the initialisation of a new handle's mutex.
record HasHandle (fd : ℕ) (s s' : Held) : Type 0 where
  fds : s'.fds ≡ fd ∷ s.fds
  blocks : s'.blocks ≡ s.blocks + 1
  mutex : s'.mutex ≡ unlocked

spi_set-Opened :
    (config : SpiConfig) (fd : ℕ) (request : Request) (next : Io (HalStatus × Option SpiHandle))
    (s s' : Held)
    → s.mutex ≡ absent
    → HasHandle fd s s'
    → Ensures (Opened SpiHandle.fd s) next s'
    → Ensures
        (Opened SpiHandle.fd s)
        (spi_set (record { fd = some fd; cfg = config }) fd request next)
        s'
unfolding spi_set spi_close
spi_set-Opened config fd request next s s' m n go =
    sys-Ensures (ap (has fd) n.fds ∙ has-head fd s.fds)
      (λ e d.
        >>=-Ensures (close_handle (some fd)) (λ st. ret (status_from_errno e, none)) _
          (close_handle-Keeps fd s _ m n.fds n.blocks n.mutex)
          λ st s'' k.
            ret-Ensures (not_opened (status_from_errno e) s'' (failed-ne_ok s'.interrupts e d) k))
      (λ v bs e d. go)

spi_open_path-Opened :
    (config : SpiConfig) (path : List ℕ) (s : Held)
    → s.mutex ≡ absent
    → Ensures (Opened SpiHandle.fd s) (spi_open_path config path) s
unfolding spi_open_path
spi_open_path-Opened config path s m =
    sys-Ensures tt
      (λ e d. ret-Ensures (
        not_opened (status_from_errno e) _ (failed-ne_ok s.interrupts e d) (Keeps-interrupted s e)))
      λ fd bs e d.
        sys-Ensures tt
          (λ e d.
            close_with-Opened SpiHandle.fd fd s _ record { fds = refl; blocks = refl; mutex = refl }
              err_no_memory (λ q. ground arith))
          λ v bs e d. call-Ensures m λ a d.
            spi_set-Opened config fd _ _ s _ m record { fds = refl; blocks = refl; mutex = refl }
              (spi_set-Opened config fd _ _ s _ m record { fds = refl; blocks = refl; mutex = refl }
                (spi_set-Opened config fd _ _ s _ m
                  record { fds = refl; blocks = refl; mutex = refl }
                  (ret-Ensures (opened _ fd _ refl refl refl refl))))

spi_open-Opened :
    (config : Option SpiConfig) (out_handle : Bool) (s : Held)
    → s.mutex ≡ absent
    → Ensures (Opened SpiHandle.fd s) (spi_open config out_handle) s
unfolding spi_open
spi_open-Opened none out_handle s m =
    ret-Ensures (not_opened err_invalid_param s (λ q. ground arith) (Keeps-refl s))
spi_open-Opened (some config) out_handle s m = at config.path
  where
    invalid : Ensures (Opened SpiHandle.fd s) (ret (err_invalid_param, none)) s
    invalid = ret-Ensures (not_opened err_invalid_param s (λ q. ground arith) (Keeps-refl s))

    at :
        (path : Option (List ℕ))
        → Ensures
            (Opened SpiHandle.fd s)
            (elim path [
              | none ↦ ret (err_invalid_param, none)
              | some path ↦
                  if not out_handle || spi_bad_config config
                  then ret (err_invalid_param, none)
                  else spi_open_path config path
            ])
            s
    at none = invalid
    at (some path) =
        if-Ensures (not out_handle || spi_bad_config config) (λ q. invalid)
          (λ q. spi_open_path-Opened config path s m)

-- hal_spi_open and then hal_spi_close of the handle it gave, NULL included, when the mutex is not made
-- before, whatever the system answers: also when one of the three settings fails and the open itself
-- closes the handle, nothing is closed or freed twice, and at the end the process holds what it did.
pub spi_open-close-Keeps :
    (config : Option SpiConfig) (out_handle : Bool) (s : Held)
    → s.mutex ≡ absent
    → Ensures (λ st s'. Keeps s s') (spi_open config out_handle >>= λ r. spi_close r.1) s
unfolding spi_close
spi_open-close-Keeps config out_handle s m =
    open_close-Keeps SpiHandle.fd (spi_open config out_handle) spi_close s m refl
      (λ h fd e. ap close_handle e) (spi_open-Opened config out_handle s m)
