-- ===== src/Hal/Can/Open.antt =====
-- What hal_can.c holds from its open to its close.
use emberlite.Common.{
  ℕ, ◌≡◌, refl, ap, arith, Bool, Option, none, some, List, ◌∷◌, ◌==◌, if◌then◌else◌,
}
use emberlite.Hal.{Errno, err_invalid_param, status_from_errno}
use emberlite.Hal.Sys.{Held, absent, ret, ◌>>=◌, IsFailure, interrupted, Ensures}
use emberlite.Hal.Sys.Rules.{ret-Ensures, sys-Ensures, if-Ensures, has-head}
use emberlite.Hal.Handle.{close_with, alloc_handle, close_handle}
use emberlite.Hal.Handle.Spec.{
  Keeps, Keeps-refl, Keeps-interrupted, Opened, not_opened, failed-ne_ok, close_with-Opened,
  alloc_handle-Opened, open_close-Keeps,
}
use emberlite.Hal.Can.{CanConfig, CanHandle, can_filter, can_open_name, can_open, can_close}

module _ (fd : ℕ) (s : Held) where
  -- The end of an open whose call on the new descriptor failed.
  given_up :
      (e : Errno)
      → IsFailure s.interrupts e
      → Ensures
          (Opened CanHandle.fd s)
          (close_with fd (status_from_errno e))
          (record s { fds = fd ∷ s.fds; interrupts = interrupted e s.interrupts })
  given_up e d =
      close_with-Opened CanHandle.fd fd s _ record { fds = refl; blocks = refl; mutex = refl }
        (status_from_errno e) (failed-ne_ok s.interrupts e d)

  can_filter-Opened :
      (config : CanConfig)
      → s.mutex ≡ absent
      → Ensures (Opened CanHandle.fd s) (can_filter fd config) (record s { fds = fd ∷ s.fds })
  unfolding can_filter
  can_filter-Opened config m =
      if-Ensures (config.filter_id == 0) (λ q. alloc)
        λ q. sys-Ensures (has-head fd s.fds) given_up λ v bs e d. alloc
    where
      alloc :
          Ensures
            (Opened CanHandle.fd s)
            (alloc_handle fd (record { fd = some fd }))
            (record s { fds = fd ∷ s.fds })
      alloc =
          alloc_handle-Opened CanHandle.fd fd s _ record { fds = refl; blocks = refl; mutex = refl }
            (record { fd = some fd }) refl m

can_open_name-Opened :
    (config : CanConfig) (ifname : List ℕ) (s : Held)
    → s.mutex ≡ absent
    → Ensures (Opened CanHandle.fd s) (can_open_name config ifname) s
unfolding can_open_name
can_open_name-Opened config ifname s m =
    sys-Ensures tt
      (λ e d. ret-Ensures (
        not_opened (status_from_errno e) _ (failed-ne_ok s.interrupts e d) (Keeps-interrupted s e)))
      λ fd bs e d. sys-Ensures (has-head fd s.fds) (given_up fd s) λ v index e d.
        sys-Ensures (has-head fd s.fds) (given_up fd s) λ v bs e d. can_filter-Opened fd s config m

can_open-Opened :
    (config : Option CanConfig) (out_handle : Bool) (s : Held)
    → s.mutex ≡ absent
    → Ensures (Opened CanHandle.fd s) (can_open config out_handle) s
unfolding can_open
can_open-Opened none out_handle s m =
    ret-Ensures (not_opened err_invalid_param s (λ q. ground arith) (Keeps-refl s))
can_open-Opened (some config) out_handle s m = at config.ifname
  where
    invalid : Ensures (Opened CanHandle.fd s) (ret (err_invalid_param, none)) s
    invalid = ret-Ensures (not_opened err_invalid_param s (λ q. ground arith) (Keeps-refl s))

    at :
        (ifname : Option (List ℕ))
        → Ensures
            (Opened CanHandle.fd s)
            (elim ifname [
              | none ↦ ret (err_invalid_param, none)
              | some ifname ↦
                  if out_handle then can_open_name config ifname else ret (err_invalid_param, none)
            ])
            s
    at none = invalid
    at (some ifname) =
        if-Ensures out_handle (λ q. can_open_name-Opened config ifname s m) (λ q. invalid)

-- hal_can_open and then hal_can_close of the handle it gave, NULL included, when the mutex is not made
-- before, whatever the system answers: the socket is closed on every path that made it and not
-- twice, and at the end the process holds what it did.
pub can_open-close-Keeps :
    (config : Option CanConfig) (out_handle : Bool) (s : Held)
    → s.mutex ≡ absent
    → Ensures (λ st s'. Keeps s s') (can_open config out_handle >>= λ r. can_close r.1) s
unfolding can_close
can_open-close-Keeps config out_handle s m =
    open_close-Keeps CanHandle.fd (can_open config out_handle) can_close s m refl
      (λ h fd e. ap close_handle e) (can_open-Opened config out_handle s m)
