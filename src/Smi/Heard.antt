-- ===== src/Smi/Heard.antt =====
-- What `read_smi` makes of the bits that a slave shows.
use native.Mathlib.Nat.{mod-eq_of_lt}
use open_device.Base.{
  ℕ, zero, suc, ◌+◌, ◌*◌, ◌/◌, ◌%◌, ◌^◌, ◌<◌, ◌≡◌, ◌∙◌, refl, ap, none, Bool, true, false, ◌&&◌,
  ◌==◌, List, if◌then◌else◌, arith,
}
use open_device.Smi.Frames.{bits, read_header}
use open_device.Smi.Pins.{dir, mdc, mdio, Arduino, pulse_mdc, send_head, receive, read_smi}
use open_device.Smi.Wiring.{Slave, Pins, rises, wrote, moded, drives, PinLaws}
use open_device.Smi.Levels.{half_pow, pow-ne-zero, take_digit, number, number-bits}
use open_device.Smi.Sent.{
  driven, last, driving, released, pulse_mdc-released, head_bits, after_preamble,
  after_preamble-Sends,
}
use open_device.Smi.Wire.{
  count_ones, SetUp, Left, Shows, undriven, sent_after_preamble, drop_line, Left-released,
}

and_false : (d : Bool) → (d && false) ≡ false
and_false true = refl
and_false false = refl

-- The slave after the part of a read that the station sends, and after both bits of the turnaround.
abbrev pub asked : (s : Slave) → ℕ → ℕ → ℕ → s.State → s.State
asked s n phy reg x = rises s (undriven s 2) (rises s (driven (read_header n phy reg)) x)

-- And after the sixteen bits and the one edge more.
abbrev pub answered : (s : Slave) → ℕ → ℕ → ℕ → s.State → s.State
answered s n phy reg x = s.rise none (rises s (undriven s 16) (asked s n phy reg x))

module _ (a : Arduino) (s : Slave) (view : a.World → Pins s) (laws : PinLaws a s view) where
  -- The mask has `k` digits to go, and `c` is what the word has of the number.
  receive-number :
      (k fuel c v : ℕ) (d u : Bool) (x : s.State) (w : a.World)
      → k < fuel
      → view w ≡ released s d u x
      → Shows s (bits k v) x
      → ((receive a fuel (2 ^ k / 2) (c * 2 ^ k) w).0 ≡ number c (bits k v))
        × (view (receive a fuel (2 ^ k / 2) (c * 2 ^ k) w).1
            ≡ released s d u (rises s (undriven s k) x))
  unfolding receive
  receive-number k zero c v d u x w f h g = absurd (omega arith)
  receive-number zero (suc fuel) c v d u x w f h g = (omega arith, h)
  receive-number (suc k) (suc fuel) c v d u x w f h g =
      let b : Bool = v / 2 ^ k % 2 == 1 in
      let heard : a.digital_read mdio w ≡ b =
        laws.read_lem w (ap (drives s) h ∙ and_false d)
        ∙ ap (λ (p : Pins s). s.shows p.slave) h
        ∙ g.0 in
      let step =
        receive-number k fuel (c * 2 + (if b then 1 else 0)) v d u (s.rise none x) (pulse_mdc a w)
          (omega arith) (pulse_mdc-released a s view laws d u x w h) g.1 in
      rw (half_pow k, pow-ne-zero k, heard, take_digit k c b) step

  -- On a board that is set up, a read asks with exactly the header of clause 22 for the same PHY and
  -- register, lets go of the line for the turnaround, and returns the number whose sixteen digits
  -- the slave then shows, highest first; nothing else reaches the slave but the edges of the clock.
  pub read_smi-Left :
      (phy reg v : ℕ) (w : a.World)
      → v < 2 ^ 16
      → SetUp s (view w)
      → Shows s (bits 16 v) (asked s (count_ones (view w).mdc_level) phy reg (view w).slave)
      → ((read_smi a phy reg w).0 ≡ v)
        × Left s
            (answered s (count_ones (view w).mdc_level) phy reg (view w).slave)
            (view (read_smi a phy reg w).1)
  unfolding read_smi send_head after_preamble
  read_smi-Left phy reg v w small h g =
      let n : ℕ = count_ones (view w).mdc_level in
      let bs : List Bool = head_bits a s view laws true false phy reg in
      let x : s.State = (view w).slave in
      let u : Bool = last true bs in
      let sent : view _ ≡ driving s u true (rises s (driven (read_header n phy reg)) x) =
        sent_after_preamble a s view laws bs (after_preamble a s view laws true false phy reg) w h
          (after_preamble-Sends a s view laws true false phy reg) in
      let free : view _ ≡ released s false u (rises s (driven (read_header n phy reg)) x) =
        laws.mode_lem mdc true _ ∙ ap (moded s mdc true) (drop_line a s view laws u _ _ sent) in
      let turned : view _ ≡ released s false u (asked s n phy reg x) =
        pulse_mdc-released a s view laws false u _ _
          (pulse_mdc-released a s view laws false u _ _ free) in
      let got = receive-number 16 17 0 v false u (asked s n phy reg x) _ (omega arith) turned g in
      (
        got.0 ∙ number-bits 16 0 v ∙ omega (arith, mod-eq_of_lt small),
        Left-released a s view laws false u _ (read_smi a phy reg w).1 (
            laws.mode_lem mdio false _
            ∙ ap (moded s mdio false) (
                laws.write_lem dir false _
                ∙ ap (wrote s dir false) (pulse_mdc-released a s view laws false u _ _ got.1))),
      )
