-- ===== src/Smi/Sent.antt =====
-- What a slave gets of the frames: the edges of the clock, with the level at each.
use open_device.Base.{
  ℕ, zero, suc, ◌/◌, ◌%◌, ◌^◌, ◌<◌, ◌≡◌, ◌∙◌, refl, sym, ap, ap₂, Option, none, some, Bool, true,
  false, ◌==◌, List, [], ◌∷◌, ◌++◌, arith,
}
use open_device.Smi.Frames.{bits, ones, address}
use open_device.Smi.Pins.{mdc, mdio, Arduino, pulse_mdc, pulses, send_bit, send_field, send_two}
use open_device.Smi.Wiring.{Slave, Pins, rises, wrote, PinLaws}
use open_device.Smi.Levels.{mask_bit, half_pow, pow-ne-zero}

abbrev pub driven : List Bool → List (Option Bool)
driven [] = []
driven (b ∷ bs) = some b ∷ driven bs

abbrev pub last : Bool → List Bool → Bool
last u [] = u
last u (b ∷ bs) = last b bs

pub driven-append : (xs ys : List Bool) → driven (xs ++ ys) ≡ driven xs ++ driven ys
driven-append [] ys = refl
driven-append (x ∷ xs) ys = simp (driven-append xs ys)

last-append : (u : Bool) (xs ys : List Bool) → last u (xs ++ ys) ≡ last (last u xs) ys
last-append u [] ys = refl
last-append u (x ∷ xs) ys = last-append x xs ys

module _ (s : Slave) where
  pub rises-append :
      (xs ys : List (Option Bool)) (x : s.State) → rises s (xs ++ ys) x ≡ rises s ys (rises s xs x)
  rises-append [] ys x = refl
  rises-append (v ∷ xs) ys x = rises-append xs ys (s.rise v x)

  -- The board drives the line with the level `v`; the clock stands at `c`.
  abbrev pub driving : Bool → Bool → s.State → Pins s
  driving v c x = record {
    dir_mode = true;
    dir_level = true;
    mdc_mode = true;
    mdc_level = c;
    mdio_mode = true;
    mdio_level = v;
    slave = x;
  }

  -- The board has let go of the line; the clock is high.
  abbrev pub released : Bool → Bool → s.State → Pins s
  released d v x = record {
    dir_mode = true;
    dir_level = d;
    mdc_mode = true;
    mdc_level = true;
    mdio_mode = false;
    mdio_level = v;
    slave = x;
  }

module _ (a : Arduino) (s : Slave) (view : a.World → Pins s) (laws : PinLaws a s view) where
  pub pulse_mdc-driving :
      (v c : Bool) (x : s.State) (w : a.World)
      → view w ≡ driving s v c x
      → view (pulse_mdc a w) ≡ driving s v true (s.rise (some v) x)
  unfolding pulse_mdc
  pulse_mdc-driving v c x w h =
      laws.write_lem mdc true _
      ∙ ap (wrote s mdc true) (laws.write_lem mdc false w ∙ ap (wrote s mdc false) h)

  pub pulse_mdc-released :
      (d v : Bool) (x : s.State) (w : a.World)
      → view w ≡ released s d v x
      → view (pulse_mdc a w) ≡ released s d v (s.rise none x)
  unfolding pulse_mdc
  pulse_mdc-released true v x w h =
      laws.write_lem mdc true _
      ∙ ap (wrote s mdc true) (laws.write_lem mdc false w ∙ ap (wrote s mdc false) h)
  pulse_mdc-released false v x w h =
      laws.write_lem mdc true _
      ∙ ap (wrote s mdc true) (laws.write_lem mdc false w ∙ ap (wrote s mdc false) h)

  -- A step sends `bs`: it begins and ends with the line driven and the clock high.
  abbrev pub Sends : List Bool → (a.World → a.World) → Type 0
  Sends bs f =
      (u : Bool) (x : s.State) (w : a.World)
      → view w ≡ driving s u true x
      → view (f w) ≡ driving s (last u bs) true (rises s (driven bs) x)

  pub Sends-append :
      (bs cs : List Bool) (f g : a.World → a.World)
      → Sends bs f
      → Sends cs g
      → Sends (bs ++ cs) (λ w. g (f w))
  Sends-append bs cs f g p q u x w h =
      q (last u bs) (rises s (driven bs) x) (f w) (p u x w h)
      ∙ ap₂ (λ l y. driving s l true y) (sym (last-append u bs cs))
          (sym (rises-append s (driven bs) (driven cs) x)
            ∙ ap (λ l. rises s l x) (sym (driven-append bs cs)))

  send_bit-Sends : (v : Bool) → Sends (v ∷ []) (send_bit a v)
  unfolding send_bit
  send_bit-Sends v u x w h =
      pulse_mdc-driving v true x _ (laws.write_lem mdio v w ∙ ap (wrote s mdio v) h)

  pub send_two-Sends : (v v' : Bool) → Sends (v ∷ v' ∷ []) (send_two a v v')
  unfolding send_two
  send_two-Sends v v' =
      Sends-append (v ∷ []) (v' ∷ []) (send_bit a v) (send_bit a v') (send_bit-Sends v)
        (send_bit-Sends v')

  pub pulses-ones :
      (n : ℕ) (c : Bool) (x : s.State) (w : a.World)
      → view w ≡ driving s true c x
      → view (pulses a (suc n) w) ≡ driving s true true (rises s (driven (ones (suc n))) x)
  unfolding pulses
  pulses-ones zero c x w h = pulse_mdc-driving true c x w h
  pulses-ones (suc n) c x w h =
      pulses-ones n true (s.rise (some true) x) (pulse_mdc a w) (pulse_mdc-driving true c x w h)

  send_field_step :
      (k fuel value : ℕ) (w : a.World)
      → send_field a (suc fuel) (2 ^ suc k / 2) value w
        ≡ send_field a fuel (2 ^ k / 2) value (send_bit a (value / 2 ^ k % 2 == 1) w)
  unfolding send_field
  send_field_step k fuel value w = rw (half_pow k, pow-ne-zero k, mask_bit k value)

  pub send_field-Sends :
      (k fuel value : ℕ) → k < fuel → Sends (bits k value) (send_field a fuel (2 ^ k / 2) value)
  unfolding send_field
  send_field-Sends k zero value h = absurd (omega arith)
  send_field-Sends zero (suc fuel) value h = λ u x w e. e
  send_field-Sends (suc k) (suc fuel) value h = λ u x w e.
      ap view (send_field_step k fuel value w)
      ∙ Sends-append ((value / 2 ^ k % 2 == 1) ∷ []) (bits k value)
          (send_bit a (value / 2 ^ k % 2 == 1)) (send_field a fuel (2 ^ k / 2) value)
          (send_bit-Sends (value / 2 ^ k % 2 == 1)) (send_field-Sends k fuel value (omega arith)) u
          x w e

  -- The start, the code `v v'` and the two addresses.
  abbrev pub head_bits : Bool → Bool → ℕ → ℕ → List Bool
  head_bits v v' phy reg = false ∷ true ∷ v ∷ v' ∷ address phy reg

  unfoldable pub after_preamble : Bool → Bool → ℕ → ℕ → a.World → a.World
  after_preamble v v' phy reg w =
      send_field a 6 0x10 reg (send_field a 6 0x10 phy (send_two a v v' (send_two a false true w)))

  pub after_preamble-Sends :
      (v v' : Bool) (phy reg : ℕ) → Sends (head_bits v v' phy reg) (after_preamble v v' phy reg)
  unfolding after_preamble
  after_preamble-Sends v v' phy reg =
      Sends-append (false ∷ true ∷ []) (v ∷ v' ∷ address phy reg) (send_two a false true)
        (λ w. send_field a 6 0x10 reg (send_field a 6 0x10 phy (send_two a v v' w)))
        (send_two-Sends false true)
        (Sends-append (v ∷ v' ∷ []) (address phy reg) (send_two a v v')
          (λ w. send_field a 6 0x10 reg (send_field a 6 0x10 phy w)) (send_two-Sends v v')
          (Sends-append (bits 5 phy) (bits 5 reg) (send_field a 6 0x10 phy)
            (send_field a 6 0x10 reg) (send_field-Sends 5 6 phy (omega arith))
            (send_field-Sends 5 6 reg (omega arith))))
