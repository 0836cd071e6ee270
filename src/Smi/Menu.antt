-- ===== src/Smi/Menu.antt =====
-- The menu that `setup` of mdio.c runs for ever, one round at a time. Prompts and the echo of what was
-- entered are left out of what is shown.
use open_device.Base.{
  ℕ, zero, suc, ◌+◌, ◌-◌, ◌%◌, ◌^◌, ◌==◌, ltb, List, [], ◌∷◌, ◌++◌, if◌then◌else◌,
}
use open_device.Smi.Pins.{Arduino, smi_init}
use open_device.Smi.Serdes.{SmiBus, by_hand, serdes_read, serdes_write}

-- What `Serial.parseInt` has to come, as patterns of 32 bits, and the values shown so far.
pub record Session (b : SmiBus) : Type 0 where
  pub input : List ℕ
  pub shown : List ℕ
  pub world : b.World

-- `Serial.parseInt`, which returns 0 when nothing comes in time.
abbrev pub parse_int : List ℕ → ℕ × List ℕ
parse_int [] = (0, [])
parse_int (n ∷ ns) = (n, ns)

module _ (b : SmiBus) where
  open b use {World, read_smi, write_smi}

  -- An entry that is kept in a `uint8_t`.
  unfoldable pub ask : (ℕ → Session b → Session b) → Session b → Session b
  ask k s = let (n, rest) = parse_int s.input in k (n % 2 ^ 8) (record s { input = rest })

  unfoldable pub show : ℕ × World → Session b → Session b
  show o s = record s { shown = s.shown ++ o.0 ∷ []; world = o.1 }

  -- `phy` and `reg`, each with its guard; a value above 31 ends the round.
  unfoldable pub ask_address : (ℕ → ℕ → Session b → Session b) → Session b → Session b
  ask_address k =
      ask
        (λ phy s. if ltb 31 phy then s else ask (λ reg t. if ltb 31 reg then t else k phy reg t) s)

  -- The inner loop of a dump, with `n` registers to go.
  unfoldable pub dump_port : (ℕ → ℕ → World → ℕ × World) → ℕ → ℕ → ℕ → Session b → Session b
  dump_port read zero phy reg s = s
  dump_port read (suc n) phy reg s = dump_port read n phy (reg + 1) (show (read phy reg s.world) s)

  -- `for (; phy < i; phy++)`, with `n` ports to go.
  unfoldable pub dump_ports : (ℕ → ℕ → World → ℕ × World) → ℕ → ℕ → Session b → Session b
  dump_ports read zero phy s = s
  dump_ports read (suc n) phy s = dump_ports read n (phy + 1) (dump_port read 32 phy 0 s)

  unfoldable pub dump : (ℕ → ℕ → World → ℕ × World) → Session b → Session b
  dump read = ask (λ phy. ask (λ i. dump_ports read (i - phy) phy))

  -- Options 2 and 5: `reg_val` is a `uint16_t`.
  unfoldable pub ask_value : (ℕ → World → World) → Session b → Session b
  ask_value write s =
      let (n, rest) = parse_int s.input in
      show (n % 2 ^ 16, write (n % 2 ^ 16) s.world) (record s { input = rest })

  unfoldable pub option : ℕ → Session b → Session b
  option sel =
      if sel == 1
      then ask_address (λ phy reg s. show (read_smi phy reg s.world) s)
      else if sel == 2
      then ask_address (λ phy reg. ask_value (write_smi phy reg))
      else if sel == 3
      then dump read_smi
      else if sel == 4
      then ask_address (λ phy reg s. show (serdes_read b phy reg s.world) s)
      else if sel == 5
      then ask_address (λ phy reg. ask_value (serdes_write b phy reg))
      else if sel == 6
      then dump (serdes_read b)
      else λ s. s

  unfoldable pub rounds : ℕ → Session b → Session b
  rounds zero s = s
  rounds (suc n) s = rounds n (ask option s)

-- `setup`, for the first `n` rounds of its loop.
unfoldable pub setup : (a : Arduino) → ℕ → List ℕ → a.World → Session (by_hand a)
setup a n input w =
    rounds (by_hand a) n (record { input = input; shown = []; world = smi_init a w })
