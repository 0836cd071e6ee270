-- ===== src/Smi/Sketch.antt =====
-- What sketch_mar28b.ino has beside the functions of mdio.c: the modes of the ports of a switch, and a
-- menu of its own.
use open_device.Base.{ℕ, ◌%◌, ◌^◌, ◌==◌, true, ltb, if◌then◌else◌, bit_and, bit_or}
use open_device.Smi.Serdes.{SmiBus, sketch_read, sketch_write}
use open_device.Smi.Menu.{Session, parse_int, show, dump}
use open_device.Smi.Aup.{Run, returned, looping, while_loop, entry}

module _ (b : SmiBus) where
  open b use {World, read_smi, write_smi}

  -- `value = read_smi(port, 0)` and what becomes of it: the mode of the port is set if it is another.
  unfoldable pub set_c_mode : ℕ → ℕ → World → World
  set_c_mode port mode w =
      let (value, w1) = read_smi port 0 w in
      if bit_and value 0xF == mode
      then w1
      else write_smi port 0 (bit_or (bit_and value 0xFFF0) mode) w1

  -- `Switch_6390init`. A wrong identifier is only printed.
  unfoldable pub switch_6390init : World → World
  switch_6390init w = set_c_mode 10 9 (read_smi 10 3 w).1

  -- A round of the loop of `setupm`, with the identifier that is kept from round to round.
  unfoldable pub setupm_round : ℕ × World → ℕ × World
  setupm_round (idreg, w) =
      let (found, w1) = read_smi 10 3 w in
      if bit_and idreg 0xfff0 == 0xA10
      then (idreg, set_c_mode 9 0xD (set_c_mode 10 9 w))
      else if bit_and found 0xFFF0 == 0xA10
      then (found, set_c_mode 9 0xD (set_c_mode 10 9 w1))
      else (found, w1)

  -- `SW_Reset_88E6185`, which returns 0.
  unfoldable pub sw_reset_88e6185 : World → World
  sw_reset_88e6185 w = write_smi 0x1B 0x04 0x8000 w

  -- `phy` and `reg` of an option, each with its guard.
  unfoldable pub guarded : (ℕ → ℕ → Session b → Run b) → Session b → Run b
  guarded k s =
      let (phy, s1) = entry b s in
      if ltb 31 phy
      then returned s1
      else let (reg, s2) = entry b s1 in if ltb 31 reg then returned s2 else k phy reg s2

  -- Option 2 writes the register, goes through `while (1);`, and prints.
  unfoldable pub write_and_hang : ℕ → ℕ → ℕ → Session b → Run b
  unfolding while_loop
  write_and_hang rounds phy reg s =
      let (n, rest) = parse_int s.input in
      let t : Session b = record s {
        input = rest;
        world = write_smi phy reg (n % 2 ^ 16) s.world;
      } in
      let (ended, _) = while_loop (λ _. true) (λ (u : Session b). u) rounds t in
      if ended then returned (show b (n % 2 ^ 16, t.world) t) else looping t

  unfoldable pub write_far : ℕ → ℕ → Session b → Run b
  write_far dev reg s =
      let (n, rest) = parse_int s.input in
      returned (
        show b (n % 2 ^ 16, sketch_write b dev reg (n % 2 ^ 16) s.world)
          (record s { input = rest }))

  unfoldable pub sketch_option : ℕ → ℕ → Session b → Run b
  sketch_option rounds sel =
      if sel == 1
      then guarded (λ phy reg s. returned (show b (read_smi phy reg s.world) s))
      else if sel == 2
      then guarded (write_and_hang rounds)
      else if sel == 3
      then (λ s. returned (dump b read_smi s))
      else if sel == 4
      then guarded (λ phy reg s. returned (show b (sketch_read b phy reg s.world) s))
      else if sel == 5
      then guarded write_far
      else if sel == 6
      then (λ s. returned (dump b (sketch_read b) s))
      else if sel == 7
      then (λ s. returned (record s { world = sw_reset_88e6185 s.world }))
      else if sel == 8
      then (λ s. returned (record s { world = switch_6390init s.world }))
      else returned
