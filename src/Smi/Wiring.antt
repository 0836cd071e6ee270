-- ===== src/Smi/Wiring.antt =====
-- The wires between the pins and a slave, as a specification: which level the board puts on the line,
-- and where the clock rises.
use open_device.Base.{◌≡◌, Option, none, some, Bool, false, not, ◌&&◌, List, [], ◌∷◌, if◌then◌else◌}
use open_device.Smi.Pins.{Pin, dir, mdc, mdio, Arduino}

-- A device on the bus. `rise` is a rising edge of the clock with the level that the board drives, none
-- if it drives none; `shows` is the level that the device puts on the line.
pub record Slave : Type 1 where
  pub State : Type 0
  pub rise : Option Bool → State → State
  pub shows : State → Bool

-- The modes and levels of the pins, and the slave.
pub record Pins (s : Slave) : Type 0 where
  pub dir_mode : Bool
  pub dir_level : Bool
  pub mdc_mode : Bool
  pub mdc_level : Bool
  pub mdio_mode : Bool
  pub mdio_level : Bool
  pub slave : s.State

module _ (s : Slave) where
  -- The edges of a list of levels, in order.
  abbrev pub rises : List (Option Bool) → s.State → s.State
  rises [] x = x
  rises (v ∷ vs) x = rises vs (s.rise v x)

  -- Does the board drive the line?
  abbrev pub drives : Pins s → Bool
  drives p = p.dir_mode && (p.dir_level && p.mdio_mode)

  abbrev pub moded : Pin → Bool → Pins s → Pins s
  moded dir v p = record p { dir_mode = v }
  moded mdc v p = record p { mdc_mode = v }
  moded mdio v p = record p { mdio_mode = v }

  abbrev pub wrote : Pin → Bool → Pins s → Pins s
  wrote dir v p = record p { dir_level = v }
  wrote mdc v p = record p {
    mdc_level = v;
    slave =
        if v && (not p.mdc_level && p.mdc_mode)
        then s.rise (if drives p then some p.mdio_level else none) p.slave
        else p.slave;
  }
  wrote mdio v p = record p { mdio_level = v }

-- What is documented of the calls: `view` sees the pins in a world.
pub record PinLaws (a : Arduino) (s : Slave) (view : a.World → Pins s) : Type 0 where
  pub mode_lem : (p : Pin) (v : Bool) (w : a.World) → view (a.pin_mode p v w) ≡ moded s p v (view w)
  pub write_lem :
      (p : Pin) (v : Bool) (w : a.World) → view (a.digital_write p v w) ≡ wrote s p v (view w)
  pub read_lem :
      (w : a.World) → drives s (view w) ≡ false → a.digital_read mdio w ≡ s.shows (view w).slave
