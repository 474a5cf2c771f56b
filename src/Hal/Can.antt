-- ===== src/Hal/Can.antt =====
-- platform/hal/src/hal_can.c: a raw CAN socket. `struct can_frame` of linux/can.h has 16 bytes: the
-- identifier, lowest byte first as on the boards the code runs on, the count, three that are not
-- used, and eight of data.
pub mod Frame
pub mod Open
mod Tests
use emberlite.Common.{
  ℕ, zero, suc, ◌+◌, ◌-◌, ◌*◌, ◌/◌, ◌%◌, ◌^◌, Bool, true, false, Option, none, some, List, [], ◌∷◌,
  ◌++◌, ltb, ◌==◌, leb, if◌then◌else◌, ℤ, pos, negsuc, ltb_ℤ, get_or, take, drop, replicate,
  bit_and, bit_or, first,
}
use emberlite.Hal.{
  HalStatus, ok, err_io, err_timeout, err_invalid_param, Errno, eintr, status_from_errno,
}
use emberlite.Hal.Sys.{
  interface_index, bind_can, can_raw_filter, can_socket, close, read, write, poll_in, ioctl, failed,
  done, Io, ret, sys, ◌>>=◌, ◌>>◌,
}
use emberlite.Hal.Handle.{
  not_ok, count_status, stored, locked_fd, close_with, alloc_handle, close_handle, handle_fd,
  wait_fd, poll_time,
}

-- `hal_can_config_t`
pub record CanConfig : Type 0 where
  pub ifname : Option (List ℕ)
  pub bitrate : ℕ
  pub filter_id : ℕ

-- `hal_can_frame_t`, whose data has eight bytes.
pub record CanFrame : Type 0 where
  pub id : ℕ
  pub dlc : ℕ
  pub frame_data : List ℕ
  pub is_rtr : ℕ

-- `struct hal_can_handle_impl`
pub record CanHandle : Type 0 where
  pub fd : Option ℕ

-- The 32 bits of a number as four bytes, and back.
pub bytes_of_u32 : ℕ → List ℕ
bytes_of_u32 n = n % 256 ∷ n / 256 % 256 ∷ n / 65536 % 256 ∷ n / 16777216 % 256 ∷ []

pub u32_of_bytes : List ℕ → ℕ
u32_of_bytes bs =
    get_or bs 0 0 + get_or bs 1 0 * 256 + get_or bs 2 0 * 65536 + get_or bs 3 0 * 16777216

-- CAN_SFF_MASK and CAN_RTR_FLAG.
abbrev pub can_sff_mask : ℕ
can_sff_mask = 2 ^ 11 - 1

abbrev pub can_rtr_flag : ℕ
can_rtr_flag = 2 ^ 30

pub can_id_of : CanFrame → ℕ
can_id_of frame =
    let id = bit_and frame.id can_sff_mask in
    if frame.is_rtr == 0 then id else bit_or id can_rtr_flag

-- The frame that hal_can_send writes, for a count of 8 at most.
unfoldable pub to_can_frame : CanFrame → List ℕ
unfolding bytes_of_u32 can_id_of
to_can_frame frame =
    bytes_of_u32 (can_id_of frame)
    ++ (frame.dlc ∷ 0 ∷ 0 ∷ 0 ∷ (take frame.dlc frame.frame_data ++ replicate (8 - frame.dlc) 0))

-- The frame that hal_can_receive makes of what it has read. A count above 8 stays in `dlc`.
unfoldable pub of_can_frame : List ℕ → CanFrame
unfolding u32_of_bytes
of_can_frame cf =
    let dlc = get_or cf 4 0 in
    let n = if leb dlc 8 then dlc else 8 in
    record {
      id = bit_and (u32_of_bytes cf) can_sff_mask;
      dlc = dlc;
      frame_data = take n (drop 8 cf) ++ replicate (8 - n) 0;
      is_rtr = if bit_and (u32_of_bytes cf) can_rtr_flag == 0 then 0 else 1;
    }

pub can_send : Option CanHandle → Option CanFrame → Io HalStatus
unfolding to_can_frame count_status locked_fd
can_send none frame = ret err_invalid_param
can_send (some h) none = ret err_invalid_param
can_send (some h) (some frame) =
    if ltb 8 frame.dlc
    then ret err_invalid_param
    else locked_fd h.fd err_io
        λ fd. do w ← sys (write fd (to_can_frame frame)); ret (count_status 16 w)

-- `hal_can_receive`: the result, and what it writes to `*frame`. The flag is that this pointer is not
-- NULL.
pub can_receive : ℕ → Option CanHandle → Bool → ℤ → Io (HalStatus × Option CanFrame)
unfolding of_can_frame count_status locked_fd wait_fd
can_receive fuel none frame timeout_ms = ret (err_invalid_param, none)
can_receive fuel (some h) false timeout_ms = ret (err_invalid_param, none)
can_receive fuel (some h) true timeout_ms =
    locked_fd h.fd (err_io, none)
      λ fd. do
        st ← wait_fd fuel (poll_in fd (poll_time timeout_ms))
        if not_ok st then ret (st, none) else do
          r ← sys (read fd 16)
          if not_ok (count_status 16 r)
              then ret (count_status 16 r, none)
              else ret (ok, some (of_can_frame (stored r)))

-- `hal_can_open` behind the socket: the index of the interface, the binding, and the filter.
pub can_filter : ℕ → CanConfig → Io (HalStatus × Option CanHandle)
unfolding close_with alloc_handle status_from_errno
can_filter fd config =
    if config.filter_id == 0 then alloc_handle fd (record { fd = some fd }) else do
      f ← sys (ioctl fd (can_raw_filter config.filter_id can_sff_mask))
      elim f [
        | failed e ↦ close_with fd (status_from_errno e)
        | done v bs e ↦ alloc_handle fd (record { fd = some fd })
      ]

pub can_open_name : CanConfig → List ℕ → Io (HalStatus × Option CanHandle)
unfolding can_filter close_with status_from_errno u32_of_bytes
can_open_name config ifname = do
  s ← sys can_socket
  elim s [
    | failed e ↦ ret (status_from_errno e, none)
    | done fd bs e ↦ do
      i ← sys (ioctl fd (interface_index (take 15 ifname)))
      elim i [
        | failed e ↦ close_with fd (status_from_errno e)
        | done v index e ↦ do
          b ← sys (ioctl fd (bind_can (u32_of_bytes index)))
          elim b [
            | failed e ↦ close_with fd (status_from_errno e)
            | done v bs e ↦ can_filter fd config
          ]
      ]
  ]

pub can_open : Option CanConfig → Bool → Io (HalStatus × Option CanHandle)
unfolding can_open_name
can_open none out_handle = ret (err_invalid_param, none)
can_open (some config) out_handle = elim config.ifname [
  | none ↦ ret (err_invalid_param, none)
  | some ifname ↦ if out_handle then can_open_name config ifname else ret (err_invalid_param, none)
]

pub can_close : Option CanHandle → Io HalStatus
unfolding close_handle
can_close none = ret err_invalid_param
can_close (some h) = close_handle h.fd

pub can_get_fd : Option CanHandle → Io ℤ
unfolding handle_fd
can_get_fd = handle_fd CanHandle.fd
