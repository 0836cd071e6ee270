-- ===== src/Arisc/Requests.antt =====
-- The twenty-one requests of soc/sunxi/arisc/hardmsgbox/demo_hwmessagebox.c, in the file's order,
-- and the init call that makes them all.
use open_device.Base.{
  ℕ, zero, suc, ◌+◌, ◌*◌, ◌/◌, ◌%◌, ◌^◌, none, List, [], ◌∷◌, ◌==◌, if◌then◌else◌, bit_and, bit_or,
}
use open_device.Arisc.Box.{
  Message, MessageType, initialized, set_para, Box, Reply, Request, perform, cpux_dvfs_cfg_vf_req,
  audio_start, audio_stop, audio_set_buf_per_paras, audio_get_position, audio_set_tdm_paras,
  axp_disable_irq, axp_enable_irq, axp_get_chip_id, set_led_bln, axp_set_paras, set_pmu_volt,
  get_pmu_volt, set_debug_level, set_uart_baudrate, cpux_dvfs_req, message_loopback,
  cpuidle_enter_req, cpuidle_cfg_req, sstandby_enter_req,
}

-- `ARISC_MESSAGE_ATTR_HARDSYN`.
abbrev pub hardsyn : ℕ
hardsyn = 2

-- The first four assignments of most requests: type, state, and no callback.
unfoldable pub start_message : MessageType → Message → Message
start_message t m = record m { type = t; state = initialized; handler = none; arg = none }

-- `pmessage->paras[0] = …`, `pmessage->paras[1] = …` and so on.
unfoldable pub set_paras : ℕ → List ℕ → Message → Message
set_paras i [] m = m
set_paras i (v ∷ vs) m = set_paras (i + 1) vs (set_para m i v)

abbrev pub nothing : Message → List ℕ
nothing m = []

-- A request that sets the usual fields, then the parameters from the first on.
unfoldable pub plain : MessageType → List ℕ → Request
plain t vs = record {
  attr = hardsyn;
  fill = λ m. set_paras 0 vs (start_message t m);
  report = nothing;
}

unfoldable pub hmb_dvfs : Request
hmb_dvfs = plain cpux_dvfs_cfg_vf_req (0 ∷ 1800000000 ∷ 1080 ∷ 3 ∷ 0 ∷ [])

unfoldable pub hmb_audio_start : Request
hmb_audio_start = plain audio_start (0 ∷ [])

-- `cb.arg` is not assigned here.
unfoldable pub hwb_audio_stop : Request
hwb_audio_stop = record {
  attr = hardsyn;
  fill = λ m. set_para (record m { type = audio_stop; state = initialized; handler = none }) 0 0;
  report = nothing;
}

unfoldable pub hwb_audio_buffer_period : Request
hwb_audio_buffer_period = plain audio_set_buf_per_paras (0 ∷ 0x800000 ∷ 0x100 ∷ 0x20 ∷ [])

unfoldable pub hwb_audio_read_time : Request
hwb_audio_read_time = record {
  attr = hardsyn;
  fill = λ m. set_paras 0 (0 ∷ []) (start_message audio_get_position m);
  report = λ m. m.paras 1 ∷ [];
}

unfoldable pub hwb_audio_tdm : Request
hwb_audio_tdm = plain audio_set_tdm_paras (0 ∷ 14400 ∷ 0 ∷ [])

unfoldable pub hwb_audio_add_period : Request
hwb_audio_add_period = plain audio_set_tdm_paras (0 ∷ 0x90000000 ∷ [])

unfoldable pub hwb_disable_nmi : Request
hwb_disable_nmi = plain axp_disable_irq []

unfoldable pub hwb_enable_nmi : Request
hwb_enable_nmi = plain axp_enable_irq []

-- `chip_id[k] = v`.
abbrev pub put_byte : (ℕ → ℕ) → ℕ → ℕ → ℕ → ℕ
put_byte buf k v j = if j == k then v else buf j

-- `(x >> (i * 8)) & 0xff`.
abbrev pub byte_of : ℕ → ℕ → ℕ
byte_of x i = x / 2 ^ (i * 8) % 256

-- One round of the copy loop: byte `i` of each of the four words.
unfoldable pub copy_round : (ℕ → ℕ) → ℕ → (ℕ → ℕ) → ℕ → ℕ
copy_round paras i buf =
    put_byte
      (put_byte
        (put_byte (put_byte buf (0 + i) (byte_of (paras 0) i)) (4 + i) (byte_of (paras 1) i))
        (8 + i) (byte_of (paras 2) i))
      (12 + i) (byte_of (paras 3) i)

-- `for (i = 0; i < 4; i++)`, on the rounds left.
unfoldable pub copy_loop : (ℕ → ℕ) → ℕ → ℕ → (ℕ → ℕ) → ℕ → ℕ
copy_loop paras zero i buf = buf
copy_loop paras (suc left) i buf = copy_loop paras left (i + 1) (copy_round paras i buf)

-- The bytes at `i`, `i + 1` and so on, as the print loop reads them.
unfoldable pub bytes_from : (ℕ → ℕ) → ℕ → ℕ → List ℕ
bytes_from buf i zero = []
bytes_from buf i (suc left) = buf i ∷ bytes_from buf (i + 1) left

-- `buf` is what the local array holds before it is written.
unfoldable pub chip_id_bytes : (ℕ → ℕ) → Message → List ℕ
unfolding bytes_from copy_loop copy_round
chip_id_bytes buf m = bytes_from (copy_loop m.paras 4 0 buf) 0 16

unfoldable pub hwb_axp_chip_id : (ℕ → ℕ) → Request
hwb_axp_chip_id buf = record {
  attr = hardsyn;
  fill = λ m. set_paras 0 (0 ∷ 0 ∷ 0 ∷ 0 ∷ []) (start_message axp_get_chip_id m);
  report = chip_id_bytes buf;
}

-- The state and the callback are not assigned here.
unfoldable pub hwb_led_bln : Request
hwb_led_bln = record {
  attr = hardsyn;
  fill = λ m. set_paras 0 (0 ∷ 0 ∷ 0 ∷ 0 ∷ []) (record m { type = set_led_bln; priv = none });
  report = nothing;
}

unfoldable pub hwb_axp_pmu_ltf_htf : Request
hwb_axp_pmu_ltf_htf = record {
  attr = hardsyn;
  fill = λ m.
      set_paras 0 (3200 ∷ 237 ∷ 0 ∷ []) (record (start_message axp_set_paras m) { priv = none });
  report = nothing;
}

unfoldable pub hwb_pmu_set_voltage : Request
hwb_pmu_set_voltage = plain set_pmu_volt (0 ∷ 1 ∷ [])

unfoldable pub hwb_pmu_get_voltage : Request
hwb_pmu_get_voltage = record {
  attr = hardsyn;
  fill = λ m. set_paras 0 (0 ∷ []) (start_message get_pmu_volt m);
  report = λ m. m.paras 1 ∷ [];
}

unfoldable pub hwb_set_debug_level : Request
hwb_set_debug_level = plain set_debug_level (2 ∷ [])

unfoldable pub hwb_set_uart_baudrate : Request
hwb_set_uart_baudrate = plain set_uart_baudrate (9600 ∷ [])

-- `mode` is 0, and `freq` and `pll` are locals that nothing initialises.
unfoldable pub hwb_set_cpufreq : ℕ → ℕ → Request
hwb_set_cpufreq freq pll = record {
  attr = (if bit_and 0 1 == 0 then 0 else bit_or 0 hardsyn);
  fill = λ m. set_paras 0 (freq ∷ pll ∷ []) (start_message cpux_dvfs_req m);
  report = nothing;
}

unfoldable pub hwb_message_loopback : Request
hwb_message_loopback = plain message_loopback (11 ∷ [])

-- `mpidr` is the address of a function. Both values go to `paras[0]`.
unfoldable pub hwb_enter_cpuidle : ℕ → Request
hwb_enter_cpuidle mpidr = record {
  attr = hardsyn;
  fill = λ m. set_para (set_para (start_message cpuidle_enter_req m) 0 0x01) 0 mpidr;
  report = nothing;
}

unfoldable pub hwb_config_cpuidle : ℕ → Request
hwb_config_cpuidle mpidr = record {
  attr = 0;
  fill = λ m. set_para (set_para (start_message cpuidle_cfg_req m) 0 0x01) 0 mpidr;
  report = nothing;
}

unfoldable pub hwb_standby_super : Request
hwb_standby_super = record { attr = 0; fill = start_message sstandby_enter_req; report = nothing }

-- The values that the source leaves open: an uninitialised array, two uninitialised locals, and
-- the address of a function.
pub record Indeterminate : Type 0 where
  pub chip_id : ℕ → ℕ
  pub freq : ℕ
  pub pll : ℕ
  pub mpidr : ℕ

-- The calls of the init function, in its order.
unfoldable pub init_requests : Indeterminate → List Request
init_requests u =
    hmb_dvfs
    ∷ hmb_audio_start
    ∷ hwb_audio_stop
    ∷ hwb_audio_buffer_period
    ∷ hwb_audio_read_time
    ∷ hwb_audio_tdm
    ∷ hwb_audio_add_period
    ∷ hwb_disable_nmi
    ∷ hwb_enable_nmi
    ∷ hwb_axp_chip_id u.chip_id
    ∷ hwb_led_bln
    ∷ hwb_axp_pmu_ltf_htf
    ∷ hwb_pmu_set_voltage
    ∷ hwb_pmu_get_voltage
    ∷ hwb_set_debug_level
    ∷ hwb_set_uart_baudrate
    ∷ hwb_set_cpufreq u.freq u.pll
    ∷ hwb_message_loopback
    ∷ hwb_enter_cpuidle u.mpidr
    ∷ hwb_config_cpuidle u.mpidr
    ∷ hwb_standby_super
    ∷ []

module _ (b : Box) where
  open b use {World}

  -- One call after the other; what a call returns is ignored, and kept here for the statements.
  unfoldable pub perform_all : List Request → World → List Reply × World
  perform_all [] w = ([], w)
  perform_all (r ∷ rs) w =
      let (x, w') = perform b r w in let (xs, w'') = perform_all rs w' in (x ∷ xs, w'')

  unfoldable pub hwmessagebox_init : Indeterminate → World → List Reply × World
  hwmessagebox_init u w = perform_all (init_requests u) w
