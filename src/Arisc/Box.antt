-- ===== src/Arisc/Box.antt =====
-- The frame `struct arisc_message` as the requests use it, the message box (the functions
-- `arisc_message_allocate`, `arisc_hwmsgbox_send_message` and `arisc_message_free` of the platform,
-- which the repository does not hold), and the course of one request.
use open_device.Base.{ℕ, Option, none, some, List, [], ◌==◌, if◌then◌else◌, ℤ, ok, enomem, einval}

-- The `ARISC_*` request codes that the file names.
pub data MessageType : Type 0 where
  cpux_dvfs_cfg_vf_req audio_start audio_stop audio_set_buf_per_paras : MessageType
  audio_get_position audio_set_tdm_paras axp_disable_irq axp_enable_irq : MessageType
  axp_get_chip_id set_led_bln axp_set_paras set_pmu_volt get_pmu_volt : MessageType
  set_debug_level set_uart_baudrate cpux_dvfs_req message_loopback : MessageType
  cpuidle_enter_req cpuidle_cfg_req sstandby_enter_req : MessageType

-- `ARISC_MESSAGE_INITIALIZED`, or whatever a frame held before.
pub data MessageState : Type 0 where
  initialized stale : MessageState

-- A pointer is an address, `none` the null pointer.
pub record Message : Type 0 where
  pub type : MessageType
  pub state : MessageState
  pub handler : Option ℕ
  pub arg : Option ℕ
  pub priv : Option ℕ
  pub paras : ℕ → ℕ
  pub result : ℕ

-- `pmessage->paras[i] = v`.
unfoldable pub set_para : Message → ℕ → ℕ → Message
set_para m i v = record m { paras = λ j. if j == i then v else m.paras j }

-- The message box. A frame comes with the contents that its last user left; `send` gives the
-- contents after the coprocessor has answered.
pub record Box : Type 1 where
  pub World : Type 0
  pub allocate : ℕ → World → Option (ℕ × Message) × World
  pub send : ℕ → Message → World → Message × World
  pub free : ℕ → World → World

-- What a request returns, and the numbers of the answer that it prints.
pub record Reply : Type 0 where
  pub ret : ℤ
  pub shown : List ℕ

abbrev pub reply : ℤ → List ℕ → Reply
reply r xs = record { ret = r; shown = xs }

-- The parts in which the requests differ: the attribute of the frame, the assignments to it, and
-- what is read from the answer.
pub record Request : Type 0 where
  pub attr : ℕ
  pub fill : Message → Message
  pub report : Message → List ℕ

module _ (b : Box) (r : Request) where
  open b use {World, allocate, send, free}

  -- From the test of `pmessage->result` on: a refused frame is not freed.
  unfoldable pub finish : ℕ → Message × World → Reply × World
  finish p (m, w) =
      if m.result == 0 then (reply ok (r.report m), free p w) else (reply einval [], w)

  -- From the test of `pmessage == NULL` on.
  unfoldable pub with_frame : Option (ℕ × Message) × World → Reply × World
  with_frame (none, w) = (reply enomem [], w)
  with_frame (some (p, m), w) = finish p (send p (r.fill m) w)

  unfoldable pub perform : World → Reply × World
  perform w = with_frame (allocate r.attr w)
