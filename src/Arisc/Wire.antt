-- ===== src/Arisc/Wire.antt =====
-- What the message box is handed by the init call of demo_hwmessagebox.c.
use mathlib.Core.List.{append_assoc, append-nil}
use open_device.Base.{
  ℕ, zero, suc, ◌≡◌, refl, ◌≢◌, inl, inr, Option, none, some, List, [], ◌∷◌, ◌++◌, arith, ◌==◌,
  Bool-cases, sym, ◌∙◌, ap, if◌then◌else◌, Bool, true, false,
}
use open_device.Arisc.Box.{
  Message, MessageType, initialized, set_para, Box, Request, finish, with_frame, perform,
  cpux_dvfs_cfg_vf_req, audio_start, audio_stop, audio_set_buf_per_paras, audio_get_position,
  audio_set_tdm_paras, axp_disable_irq, axp_enable_irq, axp_get_chip_id, set_led_bln, axp_set_paras,
  set_pmu_volt, get_pmu_volt, set_debug_level, set_uart_baudrate, cpux_dvfs_req, message_loopback,
  cpuidle_enter_req, cpuidle_cfg_req, sstandby_enter_req,
}
use open_device.Arisc.Requests.{
  Indeterminate, start_message, set_paras, plain, hmb_dvfs, hmb_audio_start, hwb_audio_stop,
  hwb_audio_buffer_period, hwb_audio_read_time, hwb_audio_tdm, hwb_audio_add_period,
  hwb_disable_nmi, hwb_enable_nmi, hwb_axp_chip_id, hwb_led_bln, hwb_axp_pmu_ltf_htf,
  hwb_pmu_set_voltage, hwb_pmu_get_voltage, hwb_set_debug_level, hwb_set_uart_baudrate,
  hwb_set_cpufreq, hwb_message_loopback, hwb_enter_cpuidle, hwb_config_cpuidle, hwb_standby_super,
  init_requests, perform_all, hwmessagebox_init,
}

-- What the platform documents of a transfer: it hands over the frame as it is filled, and the pool
-- operations hand over nothing.
pub record Log (b : Box) : Type 0 where
  pub sent : b.World → List Message
  pub sent-allocate : (a : ℕ) (w : b.World) → sent (b.allocate a w).1 ≡ sent w
  pub sent-send : (p : ℕ) (m : Message) (w : b.World) → sent (b.send p m w).1 ≡ sent w ++ m ∷ []
  pub sent-free : (p : ℕ) (w : b.World) → sent (b.free p w) ≡ sent w

-- The requests filled into the frames `f 0`, `f 1` and so on.
abbrev pub fills : List Request → (ℕ → Message) → List Message
fills [] f = []
fills (r ∷ rs) f = r.fill (f 0) ∷ fills rs (λ i. f (suc i))

-- A frame for the calls that are not made.
abbrev pub blank : Message
blank = record {
  type = message_loopback;
  state = initialized;
  handler = none;
  arg = none;
  priv = none;
  paras = λ i. 0;
  result = 0;
}

-- A message as the protocol wants it: its code, whether it starts with its state set and no callback,
-- and its parameters from the first on.
abbrev pub Wanted : Type 0
Wanted = MessageType × Bool × List ℕ

-- The messages of the init call, in order.
abbrev pub init_wanted : Indeterminate → List Wanted
init_wanted u =
    (cpux_dvfs_cfg_vf_req, true, 0 ∷ 1800000000 ∷ 1080 ∷ 3 ∷ 0 ∷ [])
    ∷ (audio_start, true, 0 ∷ [])
    ∷ (audio_stop, true, 0 ∷ [])
    ∷ (audio_set_buf_per_paras, true, 0 ∷ 0x800000 ∷ 0x100 ∷ 0x20 ∷ [])
    ∷ (audio_get_position, true, 0 ∷ [])
    ∷ (audio_set_tdm_paras, true, 0 ∷ 14400 ∷ 0 ∷ [])
    ∷ (audio_set_tdm_paras, true, 0 ∷ 0x90000000 ∷ [])
    ∷ (axp_disable_irq, true, [])
    ∷ (axp_enable_irq, true, [])
    ∷ (axp_get_chip_id, true, 0 ∷ 0 ∷ 0 ∷ 0 ∷ [])
    ∷ (set_led_bln, false, 0 ∷ 0 ∷ 0 ∷ 0 ∷ [])
    ∷ (axp_set_paras, true, 3200 ∷ 237 ∷ 0 ∷ [])
    ∷ (set_pmu_volt, true, 0 ∷ 1 ∷ [])
    ∷ (get_pmu_volt, true, 0 ∷ [])
    ∷ (set_debug_level, true, 2 ∷ [])
    ∷ (set_uart_baudrate, true, 9600 ∷ [])
    ∷ (cpux_dvfs_req, true, u.freq ∷ u.pll ∷ [])
    ∷ (message_loopback, true, 11 ∷ [])
    ∷ (cpuidle_enter_req, true, u.mpidr ∷ [])
    ∷ (cpuidle_cfg_req, true, u.mpidr ∷ [])
    ∷ (sstandby_enter_req, true, [])
    ∷ []

-- The parameters from `i` on are `vs`, the others those of the frame `f`.
abbrev pub paras_from : ℕ → List ℕ → (ℕ → ℕ) → ℕ → ℕ
paras_from i [] f j = f j
paras_from i (v ∷ vs) f j = if j == i then v else paras_from (suc i) vs f j

-- The message `m` in the frame `f` is as wanted; what is not wanted is as the frame had it.
abbrev pub IsPrepared : Wanted → Message → Message → Type 0
IsPrepared (t, sets, vs) f m =
    (m.type ≡ t)
    × (m.state ≡ (if sets then initialized else f.state))
    × (m.handler ≡ (if sets then none else f.handler))
    × ((j : ℕ) → m.paras j ≡ paras_from 0 vs f.paras j)

-- One message for each one wanted, in the frames `f 0`, `f 1` and so on.
abbrev pub AllPrepared : List Wanted → (ℕ → Message) → List Message → Type 0
AllPrepared [] f [] = Unit
AllPrepared [] f (_ ∷ _) = ⊥
AllPrepared (_ ∷ _) f [] = ⊥
AllPrepared (q ∷ qs) f (m ∷ ms) = IsPrepared q (f 0) m × AllPrepared qs (λ i. f (suc i)) ms

fills-AllPrepared :
    (u : Indeterminate) (f : ℕ → Message)
    → AllPrepared (init_wanted u) f (fills (init_requests u) f)
unfolding init_requests plain start_message set_paras set_para hmb_dvfs hmb_audio_start
    hwb_audio_stop hwb_audio_buffer_period hwb_audio_read_time hwb_audio_tdm hwb_audio_add_period
    hwb_disable_nmi hwb_enable_nmi hwb_axp_chip_id hwb_led_bln hwb_axp_pmu_ltf_htf
    hwb_pmu_set_voltage hwb_pmu_get_voltage hwb_set_debug_level hwb_set_uart_baudrate
    hwb_set_cpufreq hwb_message_loopback hwb_enter_cpuidle hwb_config_cpuidle hwb_standby_super
fills-AllPrepared u f = ground arith

module _ (b : Box) where
  open b use {World, allocate}

  -- The frame that the pool gives.
  abbrev pub frame_of : Option (ℕ × Message) → Message
  frame_of none = blank
  frame_of (some (p, m)) = m

  -- The frames that the requests get, one after the other.
  abbrev pub frames : List Request → World → ℕ → Message
  frames [] w i = blank
  frames (r ∷ rs) w zero = frame_of (allocate r.attr w).0
  frames (r ∷ rs) w (suc i) = frames rs (perform b r w).1 i

module _ (b : Box) (l : Log b) (ready : (a : ℕ) (w : b.World) → (b.allocate a w).0 ≢ none) where
  open b use {World, allocate, send, free}
  open l use {sent, sent-allocate, sent-send, sent-free}

  finish-sent :
      (r : Request) (p : ℕ) (m : Message) (w : World) → sent (finish b r p (m, w)).1 ≡ sent w
  unfolding finish
  finish-sent r p m w = elim (Bool-cases (m.result == 0)) [
    | inl good ↦ rw good (sent-free p w)
    | inr bad ↦ rw bad
  ]

  with_frame-sent :
      (r : Request) (o : Option (ℕ × Message)) (w : World)
      → o ≢ none
      → sent (with_frame b r (o, w)).1 ≡ sent w ++ r.fill (frame_of b o) ∷ []
  unfolding with_frame
  with_frame-sent r none w h = absurd (h refl)
  with_frame-sent r (some (p, m)) w h =
      finish-sent r p (send p (r.fill m) w).0 (send p (r.fill m) w).1 ∙ sent-send p (r.fill m) w

  perform-sent :
      (r : Request) (w : World)
      → sent (perform b r w).1 ≡ sent w ++ r.fill (frame_of b (allocate r.attr w).0) ∷ []
  unfolding perform
  perform-sent r w =
      with_frame-sent r (allocate r.attr w).0 (allocate r.attr w).1 (ready r.attr w)
      ∙ ap (λ ms. ms ++ r.fill (frame_of b (allocate r.attr w).0) ∷ []) (sent-allocate r.attr w)

  perform_all-sent :
      (rs : List Request) (w : World)
      → sent (perform_all b rs w).1 ≡ sent w ++ fills rs (frames b rs w)
  unfolding perform_all
  perform_all-sent [] w = sym (append-nil (sent w))
  perform_all-sent (r ∷ rs) w =
      let e = perform-sent r w in
      let e' = perform_all-sent rs (perform b r w).1 in simp (e', e, append_assoc) refl

  -- With a pool that does not run dry, the init call hands the box twenty-one messages in the frames
  -- that the pool gave, in the order of `init_wanted`: each has its code, its parameters, its state
  -- set and no callback handler, but for the LED request, which leaves state and handler as its frame
  -- had them; the parameters that a request does not give are those of its frame.
  pub init-sent :
      (u : Indeterminate) (w : World)
      → (ms : List Message) × (sent (hwmessagebox_init b u w).1 ≡ sent w ++ ms)
        × AllPrepared (init_wanted u) (frames b (init_requests u) w) ms
  unfolding hwmessagebox_init
  init-sent u w =
      let f : ℕ → Message = frames b (init_requests u) w in
      (fills (init_requests u) f, perform_all-sent (init_requests u) w, fills-AllPrepared u f)
