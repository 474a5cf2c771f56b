-- ===== src/Hal/Text/Files.antt =====
-- What a write to a file of sysfs leaves: its descriptor is closed on every path.
use emberlite.Common.{ℕ, refl, List}
use emberlite.Hal.Sys.{Held, Ensures}
use emberlite.Hal.Sys.Rules.{ret-Ensures, call-Ensures, sys-Ensures, remove-head, has-head}
use emberlite.Hal.Handle.Spec.{Keeps, Keeps-interrupted}
use emberlite.Hal.Text.{write_text_file}

pub write_text_file-Keeps :
    (path text : List ℕ) (s : Held) → Ensures (λ r s'. Keeps s s') (write_text_file path text) s
unfolding write_text_file
write_text_file-Keeps path text s =
    sys-Ensures tt (λ e d. ret-Ensures (Keeps-interrupted s e))
      λ fd bs e d.
        sys-Ensures (has-head fd s.fds)
          (λ e d.
            call-Ensures (has-head fd s.fds) λ a d'.
              ret-Ensures record { fds = remove-head fd s.fds; blocks = refl; mutex = refl })
          λ v bs e d.
            call-Ensures (has-head fd s.fds)
              λ a d'. ret-Ensures record { fds = remove-head fd s.fds; blocks = refl; mutex = refl }
