-- ===== src/Smi/Clause.antt =====
-- A slave that keeps clause 22, and what a board with it does: its registers are written and read.
use open_device.Base.{
  ℕ, ◌%◌, ◌^◌, ◌≤◌, ◌<◌, ◌≡◌, ◌∙◌, sym, ap, subst, Bool, true, false, ◌&&◌, ◌==◌, [], ◌∷◌, ◌++◌,
  if◌then◌else◌, arith,
}
use open_device.Smi.Frames.{bits, write_frame}
use open_device.Smi.Pins.{Arduino, write_smi, read_smi}
use open_device.Smi.Wiring.{Slave, Pins, rises, PinLaws}
use open_device.Smi.Sent.{driven}
use open_device.Smi.Wire.{count_ones, SetUp, Left, Shows, write_smi-Left}
use open_device.Smi.Heard.{asked, answered, read_smi-Left}

-- The registers of the PHYs on the line, and whether the slave waits for a frame.
pub record Clause22 (s : Slave) : Type 1 where
  pub holds : ℕ → ℕ → s.State → ℕ
  pub Waits : s.State → Type 0

-- What the clause says of a slave: it takes a write from a frame after 32 ones or more; it shows the
-- register that a header asks for; and the edge behind a frame begins none.
pub record ClauseLaws (s : Slave) (c : Clause22 s) : Type 0 where
  pub bounded : (phy reg : ℕ) (x : s.State) → c.holds phy reg x < 2 ^ 16
  pub write-Waits :
      (n phy reg value : ℕ) (b : Bool) (x : s.State)
      → 32 ≤ n
      → c.Waits x
      → c.Waits (rises s (driven (write_frame n phy reg value ++ b ∷ [])) x)
  pub write-holds :
      (n phy reg value : ℕ) (b : Bool) (x : s.State)
      → 32 ≤ n
      → c.Waits x
      → (phy' reg' : ℕ)
      → c.holds phy' reg' (rises s (driven (write_frame n phy reg value ++ b ∷ [])) x)
        ≡ (if (phy' == phy % 32) && (reg' == reg % 32) then value % 2 ^ 16 else c.holds phy' reg' x)
  pub read-Shows :
      (n phy reg : ℕ) (x : s.State)
      → 32 ≤ n
      → c.Waits x
      → Shows s (bits 16 (c.holds (phy % 32) (reg % 32) x)) (asked s n phy reg x)
  pub read-Waits :
      (n phy reg : ℕ) (x : s.State) → 32 ≤ n → c.Waits x → c.Waits (answered s n phy reg x)
  pub read-holds :
      (n phy reg : ℕ) (x : s.State)
      → 32 ≤ n
      → c.Waits x
      → (phy' reg' : ℕ) → c.holds phy' reg' (answered s n phy reg x) ≡ c.holds phy' reg' x

count_ones-le : (c : Bool) → 32 ≤ count_ones c
count_ones-le true = omega arith
count_ones-le false = omega arith

-- The board is set up and the slave waits.
pub record Ready (s : Slave) (c : Clause22 s) (p : Pins s) : Type 0 where
  pub set_up : SetUp s p
  pub waits : c.Waits p.slave

module _ (a : Arduino) (s : Slave) (view : a.World → Pins s) (laws : PinLaws a s view)
    (c : Clause22 s) (clause : ClauseLaws s c) where
  Left-Ready : (x : s.State) (w : a.World) → Left s x (view w) → c.Waits x → Ready s c (view w)
  Left-Ready x w l h = record { set_up = l.set_up; waits = subst c.Waits (sym l.slave) h }

  -- A write leaves the board ready, with that register of that PHY changed and no other.
  pub record Written (phy reg value : ℕ) (w w' : a.World) : Type 0 where
    pub ready : Ready s c (view w')
    pub holds :
        (phy' reg' : ℕ)
        → c.holds phy' reg' (view w').slave ≡ (
            if (phy' == phy % 32) && (reg' == reg % 32)
            then value % 2 ^ 16
            else c.holds phy' reg' (view w).slave)

  -- A read returns what the register holds, and changes none.
  pub record Read (phy reg : ℕ) (w : a.World) (o : ℕ × a.World) : Type 0 where
    pub value : o.0 ≡ c.holds (phy % 32) (reg % 32) (view w).slave
    pub ready : Ready s c (view o.1)
    pub holds :
        (phy' reg' : ℕ) → c.holds phy' reg' (view o.1).slave ≡ c.holds phy' reg' (view w).slave

  pub write_smi-Written :
      (phy reg value : ℕ) (w : a.World)
      → Ready s c (view w)
      → Written phy reg value w (write_smi a phy reg value w)
  write_smi-Written phy reg value w r =
      let l = write_smi-Left a s view laws phy reg value w r.set_up in
      let n : ℕ = count_ones (view w).mdc_level in
      let e = count_ones-le (view w).mdc_level in
      record {
        ready =
            Left-Ready _ (write_smi a phy reg value w) l
              (clause.write-Waits n phy reg value (value % 2 == 1) (view w).slave e r.waits);
        holds = λ phy' reg'.
            ap (c.holds phy' reg') l.slave
            ∙ clause.write-holds n phy reg value (value % 2 == 1) (view w).slave e r.waits phy'
                reg';
      }

  pub read_smi-Read :
      (phy reg : ℕ) (w : a.World) → Ready s c (view w) → Read phy reg w (read_smi a phy reg w)
  read_smi-Read phy reg w r =
      let n : ℕ = count_ones (view w).mdc_level in
      let x : s.State = (view w).slave in
      let e = count_ones-le (view w).mdc_level in
      let l =
        read_smi-Left a s view laws phy reg (c.holds (phy % 32) (reg % 32) x) w
          (clause.bounded (phy % 32) (reg % 32) x) r.set_up
          (clause.read-Shows n phy reg x e r.waits) in
      record {
        value = l.0;
        ready = Left-Ready _ (read_smi a phy reg w).1 l.1 (clause.read-Waits n phy reg x e r.waits);
        holds = λ phy' reg'.
            ap (c.holds phy' reg') l.1.slave ∙ clause.read-holds n phy reg x e r.waits phy' reg';
      }

  -- On a board that is set up, with a slave that keeps clause 22 and waits: a read behind a write
  -- of the same register returns the sixteen digits of the value that was written, a read of any
  -- other register what it held before; and the board is ready for the next frame.
  pub write_smi-read_smi :
      (phy reg value phy' reg' : ℕ) (w : a.World)
      → Ready s c (view w)
      → let o : ℕ × a.World = read_smi a phy' reg' (write_smi a phy reg value w) in
        (o.0 ≡ (
          if (phy' % 32 == phy % 32) && (reg' % 32 == reg % 32)
          then value % 2 ^ 16
          else c.holds (phy' % 32) (reg' % 32) (view w).slave))
        × Ready s c (view o.1)
  write_smi-read_smi phy reg value phy' reg' w r =
      let t = write_smi-Written phy reg value w r in
      let g = read_smi-Read phy' reg' (write_smi a phy reg value w) t.ready in
      (g.value ∙ t.holds (phy' % 32) (reg' % 32), g.ready)
