-- ===== src/Smi/Aup.antt =====
-- aup_tools.ino: the same frames on a board without the buffer, and what the tool does with one entry.
use open_device.Base.{ℕ, zero, suc, ◌%◌, ◌^◌, Bool, true, false, ltb, [], ◌∷◌, ◌++◌, if◌then◌else◌}
use open_device.Smi.Pins.{mdc, mdio, Arduino, pulse_mdc, send_field, send_two, send_head, receive}
use open_device.Smi.Serdes.{SmiBus, serdes_read, serdes_write}
use open_device.Smi.Menu.{Session, parse_int}

module _ (a : Arduino) where
  open a use {World, pin_mode}

  unfoldable pub smi_bus_init : World → World
  smi_bus_init w = pin_mode mdio true (pin_mode mdc true w)

  unfoldable pub smi_22c_write_register : ℕ → ℕ → ℕ → World → World
  smi_22c_write_register phy reg value w =
      let w1 = pin_mode mdio true w in
      let w2 = send_two a true false (send_head a false true phy reg w1) in
      pin_mode mdio false (pulse_mdc a (send_field a 17 0x8000 value w2))

  unfoldable pub smi_22c_read_register : ℕ → ℕ → World → ℕ × World
  smi_22c_read_register phy reg w =
      let w1 = send_head a true false phy reg (pin_mode mdio true w) in
      let w2 = pin_mode mdc true (pin_mode mdio false w1) in
      let (value, w3) = receive a 17 0x8000 0 (pulse_mdc a (pulse_mdc a w2)) in
      (value, pin_mode mdio false (pulse_mdc a w3))

abbrev pub aup_bus : Arduino → SmiBus
aup_bus a = record {
  World = a.World;
  read_smi = smi_22c_read_register a;
  write_smi = smi_22c_write_register a;
}

-- How a function of the tool ends: it returns, or it is still in its loop after the rounds that were
-- asked for.
pub data Run (b : SmiBus) : Type 0 where
  returned : Session b → Run b
  looping : Session b → Run b

-- `while (test) body`, for so many rounds: whether it ended, and the state.
unfoldable pub while_loop : {S : Type 0} → (S → Bool) → (S → S) → ℕ → S → Bool × S
while_loop test body zero s = (false, s)
while_loop test body (suc n) s =
    let rest = while_loop test body n (body s) in if test s then rest else (true, s)

abbrev pub and_then : {b : SmiBus} → Run b → (Session b → Run b) → Run b
and_then (returned s) k = k s
and_then (looping s) k = looping s

module _ (b : SmiBus) where
  open b use {World, read_smi, write_smi}

  -- `SMI_SERDES_Read_Register` and `SMI_SERDES_Write_Register`, which repeat those of mdio.c.
  abbrev pub smi_serdes_read_register : ℕ → ℕ → World → ℕ × World
  smi_serdes_read_register dev reg w = serdes_read b dev reg w

  abbrev pub smi_serdes_write_register : ℕ → ℕ → ℕ → World → World
  smi_serdes_write_register dev reg value w = serdes_write b dev reg value w

  -- An entry that is kept in a `uint8_t`.
  unfoldable pub entry : Session b → ℕ × Session b
  entry s = let (n, rest) = parse_int s.input in (n % 2 ^ 8, record s { input = rest })

  -- The two numbers with their guards.
  unfoldable pub with_address : (ℕ → ℕ → Session b → Run b) → Session b → Run b
  with_address k s =
      let (phy, s1) = entry s in
      if ltb 32 phy
      then returned s1
      else let (reg, s2) = entry s1 in if ltb 32 reg then returned s2 else k phy reg s2

  -- `while (1) Val = SMI_22C_Read_Register(PHY, Reg);`, and the value shown behind it. `Val` is a
  -- `uint8_t` that nothing initialises.
  unfoldable pub smi_22c_read : ℕ → Session b → Run b
  unfolding while_loop
  smi_22c_read n = with_address (λ phy reg s.
      let turn : ℕ × World → ℕ × World = λ o. let r = read_smi phy reg o.1 in (r.0 % 2 ^ 8, r.1) in
      let (ended, (value, w)) = while_loop (λ _. true) turn n (0, s.world) in
      if ended
      then returned (record s { shown = s.shown ++ value ∷ []; world = w })
      else looping (record s { world = w }))

  -- `Val` is a `uint8_t` here and in the next two, too.
  unfoldable pub smi_22c_write : Session b → Run b
  smi_22c_write = with_address (λ phy reg s.
      let (value, s1) = entry s in
      returned (record s1 { world = write_smi phy reg value s1.world }))

  unfoldable pub smi_serdes_read : Session b → Run b
  smi_serdes_read = with_address (λ dev reg s.
      let (value, w) = smi_serdes_read_register dev reg s.world in
      returned (record s { shown = s.shown ++ (value % 2 ^ 8) ∷ []; world = w }))

  unfoldable pub smi_serdes_write : Session b → Run b
  smi_serdes_write = with_address (λ dev reg s.
      let (value, s1) = entry s in
      returned (record s1 { world = smi_serdes_write_register dev reg value s1.world }))
