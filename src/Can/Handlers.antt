-- ===== src/Can/Handlers.antt =====
-- The state of the CAN device and its handlers. A frame is its data length code.
use open_device.Base.{
  ℕ, ◌+◌, Option, none, some, is_some, Bool, true, false, not, ◌||◌, List, [], ◌∷◌, ◌++◌, ◌==◌, ltb,
  if◌then◌else◌, ℤ, pos, ok, is_nonzero,
}

-- `struct demo_can_private_data`; `bus_off` is the state of the controller, `queue_runs` that of the
-- network queue, `echoed` the frames handed to the echo, in order.
pub record Can : Type 0 where
  pub tx_skb : Option ℕ
  pub tx_len : ℕ
  pub force_quit : Bool
  pub after_suspend : Bool
  pub restart_tx : Bool
  pub bus_off : Bool
  pub queue_runs : Bool
  pub work_queued : Bool
  pub echoed : List ℕ

abbrev pub can_frame_max_data_len : ℕ
can_frame_max_data_len = 8

-- `NETDEV_TX_BUSY`.
abbrev pub netdev_tx_busy : ℤ
netdev_tx_busy = pos 16

-- `demo_open`, with the result of `open_candev`.
unfoldable pub demo_open : ℤ → Can → ℤ × Can
demo_open ret s = if is_nonzero ret then (ret, s) else (
  ret,
  record s { force_quit = false; tx_skb = none; tx_len = 0; bus_off = false; queue_runs = true },
)

-- `demo_hard_start_xmit`, with the answer of `can_dropped_invalid_skb`.
unfoldable pub hard_start_xmit : Bool → ℕ → Can → ℤ × Can
hard_start_xmit dropped skb s =
    if is_some s.tx_skb || not (s.tx_len == 0)
    then (netdev_tx_busy, s)
    else if dropped
    then (ok, s)
    else (ok, record s { queue_runs = false; tx_skb = some skb; work_queued = true })

abbrev pub clamped_dlc : ℕ → ℕ
clamped_dlc dlc = if ltb can_frame_max_data_len dlc then can_frame_max_data_len else dlc

-- `demo_tx_work_handler`.
unfoldable pub tx_work_handler : Can → Can
tx_work_handler s = elim (s.tx_skb) [
  | none ↦ s
  | some dlc ↦ if s.bus_off then s else record s {
    tx_len = 1 + clamped_dlc dlc;
    echoed = s.echoed ++ clamped_dlc dlc ∷ [];
    tx_skb = none;
  }
]

-- `demo_restart_work_handler`.
unfoldable pub restart_work_handler : Can → Can
restart_work_handler s =
    let t : Can =
      if s.after_suspend then record s { after_suspend = false; force_quit = false } else s in
    if t.restart_tx then record t { restart_tx = false; queue_runs = true } else t

-- What can happen while the device is up.
pub data Step : Can → Can → Type 0 where
  transmit : (dropped : Bool) (skb : ℕ) (s : Can) → Step s (hard_start_xmit dropped skb s).1
  work : (s : Can) → Step s (tx_work_handler s)
  restart : (s : Can) → Step s (restart_work_handler s)

pub data Reach : Can → Can → Type 0 where
  here : (s : Can) → Reach s s
  next : (s t u : Can) → Reach s t → Step t u → Reach s u
