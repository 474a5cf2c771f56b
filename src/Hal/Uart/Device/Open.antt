-- ===== src/Hal/Uart/Device/Open.antt =====
-- What hal_uart.c holds from its open to its close.
use emberlite.Common.{
  ℕ, ◌+◌, ◌-◌, ◌≡◌, refl, sym, ap, subst, ◌∙◌, arith, Bool, true, false, Option, none, some, List,
  ◌∷◌, ◌==◌, ◌||◌, not, if◌then◌else◌,
}
use emberlite.Hal.{HalStatus, err_invalid_param, err_no_memory, status_from_errno}
use emberlite.Hal.Termios.{Termios}
use emberlite.Hal.Sys.{
  Request, get_attributes2, set_attributes, set_attributes2, ioctl, set_input_speed,
  set_output_speed, Answer, failed, done, after, Held, absent, unlocked, locked, has, remove, ret,
  ◌>>=◌, Ensures,
}
use emberlite.Hal.Sys.Rules.{
  ret-Ensures, call-Ensures, sys-Ensures, if-Ensures, >>=-Ensures, has-head, remove-head,
}
use emberlite.Hal.Handle.{not_ok}
use emberlite.Hal.Handle.Spec.{
  Keeps, Keeps-refl, Keeps-trans, Keeps-interrupted, Opened, opened, not_opened, not_ok-true,
  failed-ne_ok, close_with-Opened,
}
use emberlite.Hal.Uart.Config.{UartConfig, baud_to_speed}
use emberlite.Hal.Uart.Device.{
  UartHandle, zero_status, other_rate, apply_baud_linux, apply_baud, apply_attributes, apply_config,
  new_handle, uart_open_path, uart_open, restore, uart_close_fd, uart_close,
}

ioctl-Keeps : (fd : ℕ) (r : Request) (a : Answer) (s : Held) → Keeps s (after (ioctl fd r) a s)
ioctl-Keeps fd r (failed e) s = Keeps-interrupted s e
ioctl-Keeps fd r (done v bs e) s = Keeps-refl s

speed-Keeps :
    (code : ℕ) (a : Answer) (s : Held)
    → Keeps s (after (set_input_speed code) a s) × Keeps s (after (set_output_speed code) a s)
speed-Keeps code (failed e) s = (Keeps-interrupted s e, Keeps-interrupted s e)
speed-Keeps code (done v bs e) s = (Keeps-refl s, Keeps-refl s)

still_has : (fd : ℕ) (s s' : Held) → has fd s.fds ≡ true → Keeps s s' → has fd s'.fds ≡ true
still_has fd s s' h k = ap (has fd) k.fds ∙ h

module _ (fd : ℕ) (tio : Termios) (baud : ℕ) (s : Held) (h : has fd s.fds ≡ true) where
  apply_baud_linux-Keeps : Ensures (λ st s'. Keeps s s') (apply_baud_linux fd tio baud) s
  unfolding apply_baud_linux
  apply_baud_linux-Keeps = call-Ensures h λ a d.
      if-Ensures (not_ok (zero_status a)) (λ q. ret-Ensures (ioctl-Keeps fd get_attributes2 a s))
        λ q. call-Ensures (still_has fd s _ h (ioctl-Keeps fd get_attributes2 a s)) λ b d'.
          ret-Ensures (
            Keeps-trans (ioctl-Keeps fd get_attributes2 a s)
              (ioctl-Keeps fd (set_attributes2 (other_rate tio) baud) b _))

  apply_baud-Keeps : Ensures (λ st s'. Keeps s s') (apply_baud fd tio baud) s
  unfolding apply_baud
  apply_baud-Keeps =
      if-Ensures (baud_to_speed baud == 0) (λ q. apply_baud_linux-Keeps)
        λ q. call-Ensures tt λ a d.
          if-Ensures (not_ok (zero_status a)) (λ q. ret-Ensures (speed-Keeps code a s).0)
            λ q. call-Ensures tt λ b d.
              if-Ensures (not_ok (zero_status b)) (λ q. ret-Ensures (both a b))
                λ q. call-Ensures (still_has fd s _ h (both a b)) λ c d.
                  ret-Ensures
                    (Keeps-trans (both a b) (ioctl-Keeps fd (set_attributes tio (some code)) c _))
    where
      code : ℕ
      code = baud_to_speed baud

      both :
          (a b : Answer)
          → Keeps s (after (set_output_speed code) b (after (set_input_speed code) a s))
      both a b = Keeps-trans (speed-Keeps code a s).0 (speed-Keeps code b _).1

-- The result of a configuration: the handle has its descriptor still.
abbrev Configured : ℕ → Held → HalStatus × UartHandle → Held → Type 0
Configured fd s r s' = (r.1.fd ≡ some fd) × Keeps s s'

apply_attributes-Configured :
    (h : UartHandle) (fd : ℕ) (cfg : UartConfig) (tio : Option Termios) (s : Held)
    → h.fd ≡ some fd
    → has fd s.fds ≡ true
    → Ensures (Configured fd s) (apply_attributes h fd cfg tio) s
unfolding apply_attributes
apply_attributes-Configured h fd cfg none s e q = ret-Ensures (e, Keeps-refl s)
apply_attributes-Configured h fd cfg (some tio) s e q =
    >>=-Ensures (apply_baud fd tio cfg.baudrate) _ s (apply_baud-Keeps fd tio cfg.baudrate s q)
      λ st s' k. if-Ensures (not_ok st) (λ r. ret-Ensures (e, k)) (λ r. ret-Ensures (e, k))

apply_config-Configured :
    (h : UartHandle) (fd : ℕ) (cfg : UartConfig) (keep_saved : Bool) (s : Held)
    → h.fd ≡ some fd
    → has fd s.fds ≡ true
    → Ensures (Configured fd s) (apply_config h fd cfg keep_saved) s
unfolding apply_config
apply_config-Configured h fd cfg keep_saved s e q =
    sys-Ensures q (λ x d. ret-Ensures (e, Keeps-interrupted s x))
      λ v words x d. apply_attributes-Configured _ fd cfg _ s e q

uart_open_path-Opened :
    (config : UartConfig) (path : List ℕ) (s : Held)
    → s.mutex ≡ absent
    → Ensures (Opened UartHandle.fd s) (uart_open_path config path) s
unfolding uart_open_path
uart_open_path-Opened config path s m =
    sys-Ensures tt
      (λ e d. ret-Ensures (
        not_opened (status_from_errno e) _ (failed-ne_ok s.interrupts e d) (Keeps-interrupted s e)))
      λ fd bs e d.
        sys-Ensures tt
          (λ e d.
            close_with-Opened UartHandle.fd fd s _
              record { fds = refl; blocks = refl; mutex = refl } err_no_memory (λ q. ground arith))
          λ v bs e d. call-Ensures m λ a d. call-Ensures refl λ a d.
            >>=-Ensures (apply_config (new_handle fd) fd config false) _ _
              (apply_config-Configured (new_handle fd) fd config false _ refl (has-head fd s.fds))
              λ r s' c. call-Ensures c.1.mutex λ a d.
                if-Ensures (not_ok r.0)
                  (λ q. call-Ensures (ap (has fd) c.1.fds ∙ has-head fd s.fds) λ a d.
                    call-Ensures refl λ a d. call-Ensures (omega (arith, c.1.blocks)) λ a d.
                      ret-Ensures (
                        not_opened r.0 _ (not_ok-true r.0 q) record {
                          fds = ap (remove fd) c.1.fds ∙ remove-head fd s.fds;
                          blocks = omega (arith, c.1.blocks);
                          mutex = sym m;
                        }))
                  (λ q. ret-Ensures (opened r.1 fd _ c.0 c.1.fds c.1.blocks refl))

uart_open-Opened :
    (config : Option UartConfig) (out_handle : Bool) (s : Held)
    → s.mutex ≡ absent
    → Ensures (Opened UartHandle.fd s) (uart_open config out_handle) s
unfolding uart_open
uart_open-Opened none out_handle s m =
    ret-Ensures (not_opened err_invalid_param s (λ q. ground arith) (Keeps-refl s))
uart_open-Opened (some config) out_handle s m = at config.path
  where
    invalid : Ensures (Opened UartHandle.fd s) (ret (err_invalid_param, none)) s
    invalid = ret-Ensures (not_opened err_invalid_param s (λ q. ground arith) (Keeps-refl s))

    at :
        (path : Option (List ℕ))
        → Ensures
            (Opened UartHandle.fd s)
            (elim path [
              | none ↦ ret (err_invalid_param, none)
              | some path ↦
                  if not out_handle || (config.baudrate == 0)
                  then ret (err_invalid_param, none)
                  else uart_open_path config path
            ])
            s
    at none = invalid
    at (some path) =
        if-Ensures (not out_handle || (config.baudrate == 0)) (λ q. invalid)
          (λ q. uart_open_path-Opened config path s m)

-- The process while it has the new handle.
record HasHandle (fd : ℕ) (s s' : Held) : Type 0 where
  fds : s'.fds ≡ fd ∷ s.fds
  blocks : s'.blocks ≡ s.blocks + 1

uart_close_fd-Keeps :
    (fd : ℕ) (s s' : Held)
    → s.mutex ≡ absent
    → s'.mutex ≡ unlocked
    → HasHandle fd s s'
    → Ensures (λ st s''. Keeps s s'') (uart_close_fd (some fd)) s'
unfolding uart_close_fd
uart_close_fd-Keeps fd s s' m u n =
    sys-Ensures (ap (has fd) n.fds ∙ has-head fd s.fds)
      (λ e d.
        call-Ensures u λ a d. call-Ensures (omega (arith, n.blocks)) λ a d. ret-Ensures given_back)
      (λ v bs e d.
        call-Ensures u λ a d. call-Ensures (omega (arith, n.blocks)) λ a d. ret-Ensures given_back)
  where
    given_back :
        Keeps s (record s' { fds = remove fd s'.fds; blocks = s'.blocks - 1; mutex = absent })
    given_back = record {
      fds = ap (remove fd) n.fds ∙ remove-head fd s.fds;
      blocks = omega (arith, n.blocks);
      mutex = sym m;
    }

uart_close-Keeps :
    (fd : ℕ) (cfg : UartConfig) (saved : Option Termios) (s s' : Held)
    → s.mutex ≡ absent
    → s'.mutex ≡ unlocked
    → HasHandle fd s s'
    → Ensures
        (λ st s''. Keeps s s'')
        (uart_close (some (record { fd = some fd; cfg = cfg; tio_saved = saved })))
        s'
unfolding uart_close restore
uart_close-Keeps fd cfg none s s' m u n = call-Ensures u λ a d.
    call-Ensures refl
      λ a d. uart_close_fd-Keeps fd s _ m refl record { fds = n.fds; blocks = n.blocks }
uart_close-Keeps fd cfg (some saved) s s' m u n = call-Ensures u λ a d.
    call-Ensures (ap (has fd) n.fds ∙ has-head fd s.fds) λ b d.
      let k = ioctl-Keeps fd (set_attributes saved none) b (record s' { mutex = locked }) in
      call-Ensures k.mutex λ a d.
        uart_close_fd-Keeps fd s _ m refl
          record { fds = k.fds ∙ n.fds; blocks = k.blocks ∙ n.blocks }

-- hal_uart_open and then hal_uart_close of the handle it gave, NULL included, when the mutex is not made
-- before, whatever the system answers: also when the configuration of the line fails, or closing
-- it, nothing is closed or freed twice, the mutex is destroyed unlocked, and at the end the process holds
-- what it did.
pub uart_open-close-Keeps :
    (config : Option UartConfig) (out_handle : Bool) (s : Held)
    → s.mutex ≡ absent
    → Ensures (λ st s'. Keeps s s') (uart_open config out_handle >>= λ r. uart_close r.1) s
unfolding uart_close
uart_open-close-Keeps config out_handle s m =
    >>=-Ensures (uart_open config out_handle) _ s (uart_open-Opened config out_handle s m) closes
  where
    closes :
        (r : HalStatus × Option UartHandle) (s' : Held)
        → Opened UartHandle.fd s r s'
        → Ensures (λ st s''. Keeps s s'') (uart_close r.1) s'
    closes _ _ (not_opened st s' ne k) = ret-Ensures k
    closes _ _ (opened h fd s' e f b u) =
        subst (λ o. Ensures (λ st s''. Keeps s s'') (uart_close (some (record h { fd = o }))) s')
          (sym e) (uart_close-Keeps fd h.cfg h.tio_saved s s' m u record { fds = f; blocks = b })
