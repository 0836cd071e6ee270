-- ===== src/Arisc/Tests.antt =====
-- A message box that runs, and the requests of demo_hwmessagebox.c over it.
use open_device.Base.{
  ℕ, suc, ◌+◌, ◌-◌, ◌≡◌, refl, Bool, some, List, [], ◌∷◌, ◌++◌, arith, if◌then◌else◌, ok,
}
use open_device.Arisc.Box.{
  Message, MessageType, set_para, stale, message_loopback, set_led_bln, Box, reply, finish,
  with_frame, perform,
}
use open_device.Arisc.Requests.{
  Indeterminate, hmb_dvfs, hwmessagebox_init, init_requests, plain, set_paras, start_message,
}
use open_device.Arisc.Frames.{Pool, count_refused, init-frames}
use open_device.Arisc.Wire.{Log, init_wanted, frames, AllPrepared, init-sent}

abbrev old_frame : Message
old_frame = record {
  type = message_loopback;
  state = stale;
  handler = some 7;
  arg = some 9;
  priv = some 1;
  paras = λ i. 0xa0 + i;
  result = 3;
}

-- The frames handed out, and the messages received.
pub record Desk : Type 0 where
  out : ℕ
  received : List Message

-- A box that always has a frame; it refuses the LED request and answers the others.
abbrev is_led : MessageType → Bool
is_led set_led_bln = Bool.true
is_led _ = Bool.false

abbrev desk : Box
desk = record {
  World = Desk;
  allocate = λ a w. (some (w.out, old_frame), record w { out = suc w.out });
  send = λ p m w. (
    record m { result = if is_led m.type then 1 else 0 },
    record w { received = w.received ++ m ∷ [] },
  );
  free = λ p w. record w { out = w.out - 1 };
}

desk_pool : Pool desk
desk_pool = record {
  frames = λ w. w.out;
  allocate_some = λ a w q h. refl;
  allocate_none = λ a w h. cc;
  frames-send = λ p m w. refl;
  frames-free = λ p w n h. omega arith;
}

desk_log : Log desk
desk_log = record {
  sent = λ w. w.received;
  sent-allocate = λ a w. refl;
  sent-send = λ p m w. refl;
  sent-free = λ p w. refl;
}

abbrev empty_desk : Desk
empty_desk = record { out = 4; received = [] }

abbrev open_values : Indeterminate
open_values = record { chip_id = λ i. 0xee; freq = 0; pll = 0; mpidr = 0x8000 }

dvfs_answered : (perform desk hmb_dvfs empty_desk).0 ≡ reply ok []
unfolding perform with_frame finish hmb_dvfs plain set_paras start_message set_para
dvfs_answered = refl

init-frames_example :
    let (xs, w) = hwmessagebox_init desk open_values empty_desk in w.out ≡ 4 + count_refused xs
unfolding desk_pool
init-frames_example = init-frames desk desk_pool open_values empty_desk

init-sent_example :
    (ms : List Message) × ((hwmessagebox_init desk open_values empty_desk).1.received ≡ [] ++ ms)
    × AllPrepared (init_wanted open_values) (frames desk (init_requests open_values) empty_desk) ms
unfolding desk_log
init-sent_example = init-sent desk desk_log (λ a w h. cc) open_values empty_desk
