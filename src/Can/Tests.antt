-- ===== src/Can/Tests.antt =====
-- A frame with ten bytes named is sent with eight, and the next one is refused.
use open_device.Base.{◌≡◌, refl, none, true, false, [], ◌∷◌, ok}
use open_device.Can.Handlers.{
  Can, Reach, here, next, transmit, work, demo_open, hard_start_xmit, tx_work_handler,
  netdev_tx_busy,
}
use open_device.Can.Reached.{Refusing, Reach-Refusing}

abbrev down : Can
down = record {
  tx_skb = none;
  tx_len = 0;
  force_quit = true;
  after_suspend = false;
  restart_tx = false;
  bus_off = true;
  queue_runs = false;
  work_queued = false;
  echoed = [];
}

abbrev up : Can
up = (demo_open ok down).1

abbrev handed_over : Can
handed_over = (hard_start_xmit false 10 up).1

abbrev transmitted : Can
transmitted = tx_work_handler handed_over

way_to_transmitted : Reach up transmitted
way_to_transmitted =
    next up handed_over transmitted (next up up handed_over (here up) (transmit false 10 up))
      (work handed_over)

one_frame_example : Refusing transmitted
one_frame_example = Reach-Refusing down transmitted refl way_to_transmitted

eight_bytes : transmitted.echoed ≡ 8 ∷ []
unfolding demo_open hard_start_xmit tx_work_handler
eight_bytes = refl

second_is_refused : (hard_start_xmit false 2 transmitted).0 ≡ netdev_tx_busy
unfolding demo_open hard_start_xmit tx_work_handler
second_is_refused = refl
