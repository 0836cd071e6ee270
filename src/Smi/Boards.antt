-- ===== src/Smi/Boards.antt =====
-- The initialisations of aup_tools.ino, each a list of writes of registers, and its menus.
use open_device.Base.{ℕ, zero, suc, ◌==◌, List, [], ◌∷◌, ◌++◌, if◌then◌else◌}
use open_device.Smi.Pins.{Arduino}
use open_device.Smi.Serdes.{SmiBus}
use open_device.Smi.Menu.{Session}
use open_device.Smi.Aup.{
  smi_bus_init, aup_bus, Run, returned, looping, and_then, smi_serdes_write_register, entry,
  smi_22c_read, smi_22c_write, smi_serdes_read, smi_serdes_write,
}

-- A call of `SMI_22C_Write_Register` or of `SMI_SERDES_Write_Register`.
pub data Put : Type 0 where
  smi_22c : ℕ → ℕ → ℕ → Put
  serdes : ℕ → ℕ → ℕ → Put

abbrev reset_switch : Put
reset_switch = smi_22c 0x1B 0x4 0xC001

-- Select page 0, power up, reset, of a copper port.
abbrev copper : ℕ → List Put
copper dev = serdes dev 0x16 0 ∷ serdes dev 0x10 0x3070 ∷ serdes dev 0x0 0x1140 ∷ []

-- Select page 1, reset, port mode, select page 0, of a fibre port.
abbrev fibre : ℕ → List Put
fibre dev =
    serdes dev 0x16 1 ∷ serdes dev 0x0 0x8000 ∷ serdes dev 0x10 0x400D ∷ serdes dev 0x16 0 ∷ []

abbrev forward : ℕ → Put
forward phy = smi_22c phy 0x4 0x7F

abbrev pub two_copper : List Put
two_copper =
    reset_switch
    ∷ serdes 0x3 0x16 0
    ∷ serdes 0x4 0x16 0
    ∷ serdes 0x3 0x10 0x3070
    ∷ serdes 0x4 0x10 0x3070
    ∷ serdes 0x3 0x0 0x1140
    ∷ serdes 0x4 0x0 0x1140
    ∷ forward 0x13
    ∷ forward 0x14
    ∷ []

abbrev pub copper_0_fibre_0 : List Put
copper_0_fibre_0 =
    reset_switch ∷ (copper 0x3 ++ (forward 0x13 ∷ (fibre 0x12 ++ (forward 0x10 ∷ []))))

abbrev pub copper_1_fibre_1 : List Put
copper_1_fibre_1 =
    reset_switch ∷ (copper 0x4 ++ (forward 0x14 ∷ (fibre 0x13 ++ (forward 0x11 ∷ []))))

abbrev pub vpu2600 : List Put
vpu2600 =
    reset_switch
    ∷ (copper 0x3
        ++ (forward 0x13
            ∷ smi_22c 0x15 0x1 0xC003
            ∷ forward 0x15
            ∷ (fibre 0x12 ++ (forward 0x10 ∷ (fibre 0x13 ++ (forward 0x11 ∷ []))))))

module _ (b : SmiBus) where
  unfoldable pub put_one : Put → b.World → b.World
  put_one (smi_22c phy reg v) w = b.write_smi phy reg v w
  put_one (serdes dev reg v) w = smi_serdes_write_register b dev reg v w

  unfoldable pub put_all : List Put → b.World → b.World
  put_all [] w = w
  put_all (p ∷ ps) w = put_all ps (put_one p w)

  unfoldable pub on_world : (b.World → b.World) → Session b → Session b
  on_world f s = record s { world = f s.world }

  -- `SMI_88E6321_TestBoard_init`, for the first rounds of its loop.
  unfoldable pub testboard_init : ℕ → Session b → Run b
  testboard_init zero s = looping s
  testboard_init (suc n) s =
      let (sel, s1) = entry b s in
      let ps =
        if sel == 0
        then two_copper
        else if sel == 1
        then copper_0_fibre_0
        else if sel == 2
        then copper_1_fibre_1
        else [] in
      let rest = testboard_init n (on_world (put_all ps) s1) in
      if sel == 9 then returned s1 else rest

  -- `SMI_Marvell`.
  unfoldable pub smi_marvell : ℕ → Session b → Run b
  smi_marvell zero s = looping s
  smi_marvell (suc n) s =
      let (sel, s1) = entry b s in
      let again = smi_marvell n in
      let board = and_then (testboard_init n s1) again in
      let init = again (on_world (put_all vpu2600) s1) in
      let wrong = again s1 in
      if sel == 0 then init else if sel == 2 then board else if sel == 9 then returned s1 else wrong

  -- `SMI_Bus`. Option 9 falls through to option 10.
  unfoldable pub smi_bus : ℕ → Session b → Run b
  smi_bus zero s = looping s
  smi_bus (suc n) s =
      let (sel, s1) = entry b s in
      let again = smi_bus n in
      let read = and_then (smi_22c_read b n s1) again in
      let write = and_then (smi_22c_write b s1) again in
      let far_read = and_then (smi_serdes_read b s1) again in
      let far_write = and_then (smi_serdes_write b s1) again in
      let wrong = again s1 in
      if sel == 0
      then read
      else if sel == 1
      then write
      else if sel == 4
      then far_read
      else if sel == 5
      then far_write
      else if sel == 9
      then smi_marvell n s1
      else if sel == 10
      then returned s1
      else wrong

  -- `loop`, which the board calls again when it returns.
  unfoldable pub loop : ℕ → Session b → Run b
  loop n s = let (sel, s1) = entry b s in if sel == 0 then smi_bus n s1 else returned s1

-- `setup` and the first call of `loop`.
unfoldable pub tool : (a : Arduino) → ℕ → List ℕ → a.World → Run (aup_bus a)
tool a n input w =
    loop (aup_bus a) n (record { input = input; shown = []; world = smi_bus_init a w })
