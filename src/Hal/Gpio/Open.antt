-- ===== src/Hal/Gpio/Open.antt =====
-- What hal_gpio.c holds from its open to its close.
use emberlite.Common.{
  ℕ, ◌+◌, ◌≡◌, refl, ap, ◌∙◌, arith, Bool, true, false, not, ◌||◌, Option, none, some, List, ◌∷◌,
  ◌==◌,
}
use emberlite.Hal.{
  ok, err_io, err_invalid_param, err_not_supported, err_no_memory, status_from_errno,
}
use emberlite.Hal.Sys.{Held, absent, ret, ◌>>=◌, Ensures}
use emberlite.Hal.Sys.Rules.{
  ret-Ensures, call-Ensures, sys-Ensures, if-Ensures, >>=-Ensures, has-head,
}
use emberlite.Hal.Handle.{not_ok, close_handle}
use emberlite.Hal.Handle.Spec.{
  Keeps, Keeps-refl, Keeps-trans, Keeps-idle, Keeps-interrupted, Opened, opened, not_opened, Holds,
  not_ok-true, failed-ne_ok, locked_fd-Ensures, close_with-Opened, open_close-Keeps,
}
use emberlite.Hal.Text.{write_text_file}
use emberlite.Hal.Text.Files.{write_text_file-Keeps}
use emberlite.Hal.Gpio.{
  GpioConfig, GpioHandle, status_of, gpio_export, gpio_set_direction, gpio_write, gpio_handle,
  initial, gpio_open_value, gpio_open_config, gpio_open, gpio_close,
}

gpio_export-Keeps : (pin : ℕ) (s : Held) → Ensures (λ st s'. Keeps s s') (gpio_export pin) s
unfolding gpio_export
gpio_export-Keeps pin s = >>=-Ensures _ _ s (write_text_file-Keeps _ _ s) λ r s' k. ret-Ensures k

gpio_set_direction-Keeps :
    (pin direction : ℕ) (s : Held)
    → Ensures (λ st s'. Keeps s s') (gpio_set_direction pin direction) s
unfolding gpio_set_direction
gpio_set_direction-Keeps pin direction s =
    if-Ensures (direction == 0) (λ q. written)
      λ q. if-Ensures (direction == 1) (λ q. written) λ q. ret-Ensures (Keeps-refl s)
  where
    written :
        {path text : List ℕ}
        → Ensures (λ st s'. Keeps s s') (write_text_file path text >>= λ r. ret (status_of r)) s
    written = >>=-Ensures _ _ s (write_text_file-Keeps _ _ s) λ r s' k. ret-Ensures k

gpio_write-Keeps :
    (h : GpioHandle) (level fd : ℕ) (s : Held)
    → h.fd_value ≡ some fd
    → Holds fd s
    → Ensures (λ st s'. Keeps s s') (gpio_write (some h) level) s
unfolding gpio_write
gpio_write-Keeps h level fd s e o =
    if-Ensures (h.direction == 1)
      (λ q. locked_fd-Ensures h.fd_value err_io _ fd e o (
        sys-Ensures o.fd_held (λ e d. ret-Ensures (Keeps-idle s o.mutex_held))
          λ v bs e d.
            sys-Ensures o.fd_held (λ e d. ret-Ensures (Keeps-idle s o.mutex_held))
              λ v bs e d. ret-Ensures (Keeps-idle s o.mutex_held)))
      (λ q. ret-Ensures (Keeps-refl s))

gpio_open_value-Opened :
    (config : GpioConfig) (s s' : Held)
    → s.mutex ≡ absent
    → Keeps s s'
    → Ensures (Opened GpioHandle.fd_value s) (gpio_open_value config) s'
unfolding gpio_open_value
gpio_open_value-Opened config s s' m k =
    sys-Ensures tt
      (λ e d. ret-Ensures (
        not_opened (status_from_errno e) _ (failed-ne_ok s'.interrupts e d)
          (Keeps-trans k (Keeps-interrupted s' e))))
      λ fd bs e d.
        sys-Ensures tt
          (λ e d.
            close_with-Opened GpioHandle.fd_value fd s _
              record { fds = ap (◌∷◌ fd) k.fds; blocks = k.blocks; mutex = k.mutex } err_no_memory
              (λ q. ground arith))
          λ v bs e d. call-Ensures (k.mutex ∙ m) λ a d.
            if-Ensures (config.direction == 1)
              (λ q.
                >>=-Ensures (gpio_write (some (gpio_handle config fd)) (initial config))
                  (λ st. ret (ok, some (gpio_handle config fd))) _
                  (gpio_write-Keeps (gpio_handle config fd) (initial config) fd _ refl record {
                    fd_held = has-head fd s'.fds;
                    block_held = omega arith;
                    mutex_held = refl;
                  })
                  λ st s'' l. ret-Ensures (
                    opened (gpio_handle config fd) fd s'' refl (l.fds ∙ ap (◌∷◌ fd) k.fds)
                      (l.blocks ∙ ap (λ n. n + 1) k.blocks) l.mutex))
              (λ q. ret-Ensures (
                opened (gpio_handle config fd) fd _ refl (ap (◌∷◌ fd) k.fds)
                  (ap (λ n. n + 1) k.blocks) refl))

gpio_open_config-Opened :
    (config : GpioConfig) (s : Held)
    → s.mutex ≡ absent
    → Ensures (Opened GpioHandle.fd_value s) (gpio_open_config config) s
unfolding gpio_open_config
gpio_open_config-Opened config s m =
    if-Ensures (not (config.pull_mode == 0))
      (λ q. ret-Ensures (not_opened err_not_supported s (λ q. ground arith) (Keeps-refl s)))
      λ q.
        if-Ensures (not (config.direction == 0 || config.direction == 1))
          (λ q. ret-Ensures (not_opened err_invalid_param s (λ q. ground arith) (Keeps-refl s)))
          λ q. >>=-Ensures (gpio_export config.pin) _ s (gpio_export-Keeps config.pin s) λ st s₁ k.
            if-Ensures (not_ok st) (λ q. ret-Ensures (not_opened st s₁ (not_ok-true st q) k))
              λ q.
                >>=-Ensures (gpio_set_direction config.pin config.direction) _ s₁
                  (gpio_set_direction-Keeps config.pin config.direction s₁)
                  λ st' s₂ l.
                    if-Ensures (not_ok st')
                      (λ q. ret-Ensures (not_opened st' s₂ (not_ok-true st' q) (Keeps-trans k l)))
                      (λ q. gpio_open_value-Opened config s s₂ m (Keeps-trans k l))

gpio_open-Opened :
    (config : Option GpioConfig) (out_handle : Bool) (s : Held)
    → s.mutex ≡ absent
    → Ensures (Opened GpioHandle.fd_value s) (gpio_open config out_handle) s
unfolding gpio_open
gpio_open-Opened none out_handle s m =
    ret-Ensures (not_opened err_invalid_param s (λ q. ground arith) (Keeps-refl s))
gpio_open-Opened (some config) false s m =
    ret-Ensures (not_opened err_invalid_param s (λ q. ground arith) (Keeps-refl s))
gpio_open-Opened (some config) true s m = gpio_open_config-Opened config s m

-- hal_gpio_open and then hal_gpio_close of the handle it gave, NULL included, when the mutex is not made
-- before, whatever the system answers: the descriptors of the files are closed on every path and
-- none twice, and at the end the process holds what it did.
pub gpio_open-close-Keeps :
    (config : Option GpioConfig) (out_handle : Bool) (s : Held)
    → s.mutex ≡ absent
    → Ensures (λ st s'. Keeps s s') (gpio_open config out_handle >>= λ r. gpio_close r.1) s
unfolding gpio_close
gpio_open-close-Keeps config out_handle s m =
    open_close-Keeps GpioHandle.fd_value (gpio_open config out_handle) gpio_close s m refl
      (λ h fd e. ap close_handle e) (gpio_open-Opened config out_handle s m)
