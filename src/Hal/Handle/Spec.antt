-- ===== src/Hal/Handle/Spec.antt =====
-- What an operation on a handle ensures of what the process holds, and that closing a handle gives all
-- of it back.
use emberlite.Common.{
  ℕ, ◌+◌, ◌-◌, ◌≤◌, ◌<◌, ◌≡◌, ◌≢◌, refl, sym, ap, subst, ◌∙◌, arith, true, false, Option, none,
  some, List, [], ◌∷◌, ◌++◌, length, take, ℕ_discrete,
}
use emberlite.Hal.{
  HalStatus, ok, err_io, err_timeout, err_invalid_param, err_not_supported, err_no_memory, err_busy,
  err_permission, err_nodevice, Errno, eok, eintr, etimedout, eagain, einval, eopnotsupp, enomem,
  ebusy, eacces, eperm, enodev, enoent, eother, status_from_errno,
}
use emberlite.Hal.Sys.{
  interrupted, done, Io, ret, ◌>>=◌, Held, absent, unlocked, has, remove, Ensures, IsFailure,
}
use emberlite.Hal.Sys.Rules.{
  ret-Ensures, call-Ensures, sys-Ensures, >>=-Ensures, has-head, remove-head,
}
use emberlite.Hal.Handle.{not_ok, close_with, alloc_handle, locked_fd, close_handle, count_status}
use emberlite.Hal.Uart.Write.{status_from_errno-ne_ok}

-- The process holds the same.
pub record Keeps (s s' : Held) : Type 0 where
  pub fds : s'.fds ≡ s.fds
  pub blocks : s'.blocks ≡ s.blocks
  pub mutex : s'.mutex ≡ s.mutex

pub Keeps-refl : (s : Held) → Keeps s s
Keeps-refl s = record { fds = refl; blocks = refl; mutex = refl }

pub Keeps-trans : {s s' s'' : Held} → Keeps s s' → Keeps s' s'' → Keeps s s''
Keeps-trans k l = record {
  fds = l.fds ∙ k.fds;
  blocks = l.blocks ∙ k.blocks;
  mutex = l.mutex ∙ k.mutex;
}

-- Behind the lock and the unlock, and calls that only send, read or are interrupted.
pub Keeps-idle :
    (s : Held) {sent reads : List (ℕ × List ℕ)} {n : ℕ}
    → s.mutex ≡ unlocked
    → Keeps s (record {
      fds = s.fds;
      blocks = s.blocks;
      mutex = unlocked;
      sent = sent;
      reads = reads;
      interrupts = n;
    })
Keeps-idle s m = record { fds = refl; blocks = refl; mutex = sym m }

-- Behind a block that was asked for and given back, too.
pub Keeps-block :
    (s s' : Held) → s'.fds ≡ s.fds → s'.blocks ≡ s.blocks + 1 - 1 → s'.mutex ≡ s.mutex → Keeps s s'
Keeps-block s s' f b m = record { fds = f; blocks = b ∙ omega arith; mutex = m }

pub not_ok-true : (st : HalStatus) → not_ok st ≡ true → st ≢ ok
not_ok-true ok e = absurd (ground arith)
not_ok-true err_io e = λ q. ground arith
not_ok-true err_timeout e = λ q. ground arith
not_ok-true err_invalid_param e = λ q. ground arith
not_ok-true err_not_supported e = λ q. ground arith
not_ok-true err_no_memory e = λ q. ground arith
not_ok-true err_busy e = λ q. ground arith
not_ok-true err_permission e = λ q. ground arith
not_ok-true err_nodevice e = λ q. ground arith

pub not_ok-false : (st : HalStatus) → not_ok st ≡ false → st ≡ ok
not_ok-false ok e = refl
not_ok-false err_io e = absurd (ground arith)
not_ok-false err_timeout e = absurd (ground arith)
not_ok-false err_invalid_param e = absurd (ground arith)
not_ok-false err_not_supported e = absurd (ground arith)
not_ok-false err_no_memory e = absurd (ground arith)
not_ok-false err_busy e = absurd (ground arith)
not_ok-false err_permission e = absurd (ground arith)
not_ok-false err_nodevice e = absurd (ground arith)

-- The end of an open: a handle with HAL_OK, for which the process holds a descriptor, a block and a
-- mutex more; or no handle, an error, and it holds what it did.
pub data Opened {H : Type 0} (fd_of : H → Option ℕ) (s : Held)
    : HalStatus × Option H → Held → Type 0 where
  opened :
      (h : H) (fd : ℕ) (s' : Held)
      → fd_of h ≡ some fd
      → s'.fds ≡ fd ∷ s.fds
      → s'.blocks ≡ s.blocks + 1
      → s'.mutex ≡ unlocked
      → Opened fd_of s (ok, some h) s'
  not_opened : (st : HalStatus) (s' : Held) → st ≢ ok → Keeps s s' → Opened fd_of s (st, none) s'

pub Keeps-interrupted :
    (s : Held) (e : Errno) → Keeps s (record s { interrupts = interrupted e s.interrupts })
Keeps-interrupted s e = record { fds = refl; blocks = refl; mutex = refl }

-- The process holds a handle: its descriptor, if it has one, its block, and its mutex unlocked.
pub record Holds (fd : ℕ) (s : Held) : Type 0 where
  pub fd_held : has fd s.fds ≡ true
  pub block_held : 0 < s.blocks
  pub mutex_held : s.mutex ≡ unlocked

some_inj : {x y : ℕ} → some x ≡ some y → x ≡ y
some_inj e = ground arith

pub locked_fd-Ensures :
    {A : Type 0} {Post : A → Held → Type 0} {s : Held} (o : Option ℕ) (closed : A) (k : ℕ → Io A)
    (fd : ℕ)
    → o ≡ some fd
    → Holds fd s
    → Ensures Post (k fd) (record s { mutex = unlocked })
    → Ensures Post (locked_fd o closed k) s
unfolding locked_fd
locked_fd-Ensures none closed k fd e h p = absurd (ground arith)
locked_fd-Ensures {Post = Post} {s = s} (some x) closed k fd e h p =
    call-Ensures h.mutex_held λ a d.
      call-Ensures refl
        λ a d. subst (λ n. Ensures Post (k n) (record s { mutex = unlocked })) (sym (some_inj e)) p

-- `s'` has one descriptor more than `s`.
pub record HasNew (fd : ℕ) (s s' : Held) : Type 0 where
  pub fds : s'.fds ≡ fd ∷ s.fds
  pub blocks : s'.blocks ≡ s.blocks
  pub mutex : s'.mutex ≡ s.mutex

pub HasNew-Keeps : {fd : ℕ} {s s' s'' : Held} → HasNew fd s s' → Keeps s' s'' → HasNew fd s s''
HasNew-Keeps n k = record {
  fds = k.fds ∙ n.fds;
  blocks = k.blocks ∙ n.blocks;
  mutex = k.mutex ∙ n.mutex;
}

pub HasNew-has : {fd : ℕ} {s s' : Held} → HasNew fd s s' → has fd s'.fds ≡ true
HasNew-has {fd = fd} {s = s} n = ap (has fd) n.fds ∙ has-head fd s.fds

module _ {H : Type 0} (fd_of : H → Option ℕ) (fd : ℕ) (s s' : Held) (n : HasNew fd s s') where
  pub close_with-Opened :
      (st : HalStatus) → st ≢ ok → Ensures (Opened fd_of s) (close_with fd st) s'
  unfolding close_with
  close_with-Opened st ne = call-Ensures (HasNew-has n) λ a d. ret-Ensures (
      not_opened st _ ne record {
        fds = ap (remove fd) n.fds ∙ remove-head fd s.fds;
        blocks = n.blocks;
        mutex = n.mutex;
      })

module _ {H : Type 0} (fd_of : H → Option ℕ) (fd : ℕ) (s s' : Held) (n : HasNew fd s s') where
  pub alloc_handle-Opened :
      (h : H)
      → fd_of h ≡ some fd
      → s.mutex ≡ absent
      → Ensures (Opened fd_of s) (alloc_handle fd h) s'
  unfolding alloc_handle
  alloc_handle-Opened h e m =
      sys-Ensures tt
        (λ x d.
          close_with-Opened fd_of fd s _
            (HasNew-Keeps n record { fds = refl; blocks = refl; mutex = refl }) err_no_memory
            (λ q. ground arith))
        λ v bs x d.
          call-Ensures (n.mutex ∙ m)
            λ a d. ret-Ensures (opened h fd _ e n.fds (ap (λ k. k + 1) n.blocks) refl)

pub close_handle-Keeps :
    (fd : ℕ) (s s' : Held)
    → s.mutex ≡ absent
    → s'.fds ≡ fd ∷ s.fds
    → s'.blocks ≡ s.blocks + 1
    → s'.mutex ≡ unlocked
    → Ensures (λ st s''. Keeps s s'') (close_handle (some fd)) s'
unfolding close_handle
close_handle-Keeps fd s s' m f b u = call-Ensures u λ a d. call-Ensures refl λ a d.
    call-Ensures (ap (has fd) f ∙ has-head fd s.fds) λ a d. call-Ensures refl λ a d.
      call-Ensures (omega (arith, b)) λ a d. ret-Ensures record {
        fds = ap (remove fd) f ∙ remove-head fd s.fds;
        blocks = omega (arith, b);
        mutex = sym m;
      }

-- A driver's open, then its close of what it returned, NULL included.
pub open_close-Keeps :
    {H : Type 0} (fd_of : H → Option ℕ) (opens : Io (HalStatus × Option H))
    (closes : Option H → Io HalStatus) (s : Held)
    → s.mutex ≡ absent
    → (closes none ≡ ret err_invalid_param)
    → ((h : H) (fd : ℕ) → fd_of h ≡ some fd → closes (some h) ≡ close_handle (some fd))
    → Ensures (Opened fd_of s) opens s
    → Ensures (λ st s'. Keeps s s') (opens >>= λ r. closes r.1) s
open_close-Keeps {H = H} fd_of opens closes s m null_closes some_closes o =
    >>=-Ensures opens _ s o then
  where
    then :
        (r : HalStatus × Option H) (s' : Held)
        → Opened fd_of s r s'
        → Ensures (λ st s''. Keeps s s'') (closes r.1) s'
    then _ _ (not_opened st s' ne k) =
        subst (λ c. Ensures (λ st s''. Keeps s s'') c s') (sym null_closes) (ret-Ensures k)
    then _ _ (opened h fd s' e f b u) =
        subst (λ c. Ensures (λ st s''. Keeps s s'') c s') (sym (some_closes h fd e))
          (close_handle-Keeps fd s s' m f b u)

-- The end of a write of `bytes`: HAL_OK when write took them all, an error when it took fewer, or
-- failed. Nothing is written twice, and the process holds what it did.
pub data Sent (fd : ℕ) (bytes : List ℕ) (s : Held) : HalStatus → Held → Type 0 where
  all_sent :
      (s' : Held) → Keeps s s' → s'.sent ≡ s.sent ++ ((fd, bytes) ∷ []) → Sent fd bytes s ok s'
  part_sent :
      (st : HalStatus) (n : ℕ) (s' : Held)
      → st ≢ ok
      → Keeps s s'
      → n < length bytes
      → s'.sent ≡ s.sent ++ ((fd, take n bytes) ∷ [])
      → Sent fd bytes s st s'
  not_sent :
      (st : HalStatus) (s' : Held) → st ≢ ok → Keeps s s' → s'.sent ≡ s.sent → Sent fd bytes s st s'

pub take_all : (bytes : List ℕ) → take (length bytes) bytes ≡ bytes
take_all [] = refl
take_all (b ∷ bytes) = ap (◌∷◌ b) (take_all bytes)

-- A documented failure sets errno.
pub failed-ne_ok : (n : ℕ) (e : Errno) → IsFailure n e → status_from_errno e ≢ ok
failed-ne_ok n eok d = absurd (d refl)
failed-ne_ok n eintr d = status_from_errno-ne_ok eintr (λ q. ground arith)
failed-ne_ok n etimedout d = status_from_errno-ne_ok etimedout d
failed-ne_ok n eagain d = status_from_errno-ne_ok eagain d
failed-ne_ok n einval d = status_from_errno-ne_ok einval d
failed-ne_ok n eopnotsupp d = status_from_errno-ne_ok eopnotsupp d
failed-ne_ok n enomem d = status_from_errno-ne_ok enomem d
failed-ne_ok n ebusy d = status_from_errno-ne_ok ebusy d
failed-ne_ok n eacces d = status_from_errno-ne_ok eacces d
failed-ne_ok n eperm d = status_from_errno-ne_ok eperm d
failed-ne_ok n enodev d = status_from_errno-ne_ok enodev d
failed-ne_ok n enoent d = status_from_errno-ne_ok enoent d
failed-ne_ok n eother d = status_from_errno-ne_ok eother d

pub count_status-all :
    (v len : ℕ) (bs : List ℕ) (e : Errno) → v ≡ len → count_status len (done v bs e) ≡ ok
unfolding count_status
count_status-all v len bs e h = ground arith

pub count_status-part :
    (v len : ℕ) (bs : List ℕ) (e : Errno) → v ≢ len → count_status len (done v bs e) ≡ err_io
unfolding count_status
count_status-part v len bs e h = ground arith

-- What a driver knows behind the check of a write.
pub count_status-Sent :
    (fd len : ℕ) (bytes : List ℕ) (s s' : Held) (v : ℕ) (stored : List ℕ) (e : Errno)
    → length bytes ≡ len
    → Keeps s s'
    → v ≤ length bytes
    → s'.sent ≡ s.sent ++ ((fd, take v bytes) ∷ [])
    → Sent fd bytes s (count_status len (done v stored e)) s'
count_status-Sent fd len bytes s s' v stored e l k b q = elim (ℕ_discrete v len) [
  | yes h ↦
      subst (λ st. Sent fd bytes s st s') (sym (count_status-all v len stored e h))
        (all_sent s' k (
          q
          ∙ ap (λ bs. s.sent ++ ((fd, bs) ∷ []))
              (ap (λ n. take n bytes) (h ∙ sym l) ∙ take_all bytes)))
  | no h ↦
      subst (λ st. Sent fd bytes s st s') (sym (count_status-part v len stored e h))
        (part_sent err_io v s' (λ q. ground arith) k (omega (arith, h, l)) q)
]
