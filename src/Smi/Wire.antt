-- ===== src/Smi/Wire.antt =====
-- What `write_smi` and `read_smi` put on the line, and what they leave of the pins.
use open_device.Base.{
  ℕ, zero, suc, ◌/◌, ◌%◌, ◌^◌, ◌≡◌, ◌∙◌, sym, ap, ap₂, subst, Option, none, some, Bool, true, false,
  ◌==◌, List, [], ◌∷◌, ◌++◌, if◌then◌else◌, arith,
}
use open_device.Smi.Frames.{bits, ones, write_frame}
use open_device.Smi.Pins.{
  dir, mdc, mdio, Arduino, send_field, send_two, preamble, send_head, write_smi,
}
use open_device.Smi.Wiring.{Slave, Pins, rises, wrote, moded, PinLaws}
use open_device.Smi.Sent.{
  driven, last, driven-append, rises-append, driving, released, pulse_mdc-driving, Sends,
  Sends-append, head_bits, after_preamble, after_preamble-Sends, send_two-Sends, send_field-Sends,
  pulses-ones,
}

-- The ones of a preamble: one more, if the clock was low when the frame began.
abbrev pub count_ones : Bool → ℕ
count_ones clock = if clock then 32 else 33

module _ (s : Slave) where
  -- `smi_init` has set the modes of the buffer and of the clock.
  pub record SetUp (p : Pins s) : Type 0 where
    pub dir_mode : p.dir_mode ≡ true
    pub mdc_mode : p.mdc_mode ≡ true

  -- A frame left the board listening, its clock high, and took the slave to `x`.
  pub record Left (x : s.State) (p : Pins s) : Type 0 where
    pub set_up : SetUp p
    pub clock : p.mdc_level ≡ true
    pub listens : p.mdio_mode ≡ false
    pub slave : p.slave ≡ x

  -- The next bits that the slave shows, one for each edge of the clock.
  abbrev pub Shows : List Bool → s.State → Type 0
  Shows [] x = Unit {0}
  Shows (b ∷ bs) x = (s.shows x ≡ b) × Shows bs (s.rise none x)

  abbrev pub undriven : ℕ → List (Option Bool)
  undriven zero = []
  undriven (suc n) = none ∷ undriven n

  driven-driven :
      (xs ys : List Bool) (x : s.State)
      → rises s (driven ys) (rises s (driven xs) x) ≡ rises s (driven (xs ++ ys)) x
  driven-driven xs ys x =
      sym (rises-append s (driven xs) (driven ys) x)
      ∙ ap (λ l. rises s l x) (sym (driven-append xs ys))

module _ (a : Arduino) (s : Slave) (view : a.World → Pins s) (laws : PinLaws a s view) where
  preamble-ones :
      (v c : Bool) (x : s.State) (w : a.World)
      → view w ≡ driving s v c x
      → view (preamble a w) ≡ driving s true true (rises s (driven (ones (count_ones c))) x)
  unfolding preamble
  preamble-ones v true x w h = pulses-ones a s view laws 31 true x _ (
      laws.write_lem mdc true _
      ∙ ap (wrote s mdc true) (laws.write_lem mdio true w ∙ ap (wrote s mdio true) h))
  preamble-ones v false x w h = pulses-ones a s view laws 31 true (s.rise (some true) x) _ (
      laws.write_lem mdc true _
      ∙ ap (wrote s mdc true) (laws.write_lem mdio true w ∙ ap (wrote s mdio true) h))

  -- The line is taken by the board.
  take_line :
      (w : a.World)
      → SetUp s (view w)
      → view (a.pin_mode mdio true (a.digital_write dir true w))
        ≡ driving s (view w).mdio_level (view w).mdc_level (view w).slave
  take_line w h =
      laws.mode_lem mdio true _
      ∙ ap (moded s mdio true) (laws.write_lem dir true w)
      ∙ ap₂
          (λ d c. record {
            dir_mode = d;
            dir_level = true;
            mdc_mode = c;
            mdc_level = (view w).mdc_level;
            mdio_mode = true;
            mdio_level = (view w).mdio_level;
            slave = (view w).slave;
          })
          h.dir_mode h.mdc_mode

  -- The line is let go.
  pub drop_line :
      (u : Bool) (x : s.State) (w : a.World)
      → view w ≡ driving s u true x
      → view (a.pin_mode mdio false (a.digital_write dir false w)) ≡ released s false u x
  drop_line u x w h =
      laws.mode_lem mdio false _
      ∙ ap (moded s mdio false) (laws.write_lem dir false w ∙ ap (wrote s dir false) h)

  -- After the preamble and a step that sends `bs`, the line is let go.
  pub sent_after_preamble :
      (bs : List Bool) (f : a.World → a.World) (w : a.World)
      → SetUp s (view w)
      → Sends a s view laws bs f
      → view (f (preamble a (a.pin_mode mdio true (a.digital_write dir true w))))
        ≡ driving s
            (last true bs)
            true
            (rises s (driven (ones (count_ones (view w).mdc_level) ++ bs)) (view w).slave)
  sent_after_preamble bs f w h p =
      let x : s.State = (view w).slave in
      let n : ℕ = count_ones (view w).mdc_level in
      p true (rises s (driven (ones n)) x) _
        (preamble-ones (view w).mdio_level (view w).mdc_level x _ (take_line w h))
      ∙ ap (driving s (last true bs) true) (driven-driven s (ones n) bs x)

  pub Left-released :
      (d u : Bool) (x : s.State) (w : a.World) → view w ≡ released s d u x → Left s x (view w)
  Left-released d u x w h = record {
    set_up = record {
      dir_mode = ap (λ (p : Pins s). p.dir_mode) h;
      mdc_mode = ap (λ (p : Pins s). p.mdc_mode) h;
    };
    clock = ap (λ (p : Pins s). p.mdc_level) h;
    listens = ap (λ (p : Pins s). p.mdio_mode) h;
    slave = ap (λ (p : Pins s). p.slave) h;
  }

  -- On a board that is set up, a write gives the slave exactly the frame of clause 22 for the same
  -- PHY, register and value, and one more edge with the last bit, which the comment of the source
  -- calls needed for some reason; then the board has let go of the line. Before the frame there is
  -- one more bit of the preamble, if the clock was low.
  pub write_smi-Left :
      (phy reg value : ℕ) (w : a.World)
      → SetUp s (view w)
      → Left s
          (rises s
            (driven
              (write_frame (count_ones (view w).mdc_level) phy reg value ++ (value % 2 == 1) ∷ []))
            (view w).slave)
          (view (write_smi a phy reg value w))
  unfolding write_smi send_head after_preamble
  write_smi-Left phy reg value w h =
      let rest : List Bool = true ∷ false ∷ bits 16 value in
      let bs : List Bool = head_bits a s view laws false true phy reg ++ rest in
      let frame : List Bool = ones (count_ones (view w).mdc_level) ++ bs in
      let t : Bool = value / 2 ^ 0 % 2 == 1 in
      let x : s.State = rises s (driven frame) (view w).slave in
      let low : t ≡ (value % 2 == 1) =
        let q : value / 2 ^ 0 ≡ value = omega arith in ap (λ v. v % 2 == 1) q in
      let data_sent : Sends a s view laws rest
          (λ v. send_field a 17 0x8000 value (send_two a true false v)) =
        Sends-append a s view laws (true ∷ false ∷ []) (bits 16 value) (send_two a true false)
          (send_field a 17 0x8000 value) (send_two-Sends a s view laws true false)
          (send_field-Sends a s view laws 16 17 value (omega arith)) in
      let e : view _ ≡ driving s t true x =
        sent_after_preamble bs
          (λ v.
            send_field a 17 0x8000 value
              (send_two a true false (after_preamble a s view laws false true phy reg v)))
          w h
          (Sends-append a s view laws (head_bits a s view laws false true phy reg) rest
            (after_preamble a s view laws false true phy reg)
            (λ v. send_field a 17 0x8000 value (send_two a true false v))
            (after_preamble-Sends a s view laws false true phy reg) data_sent) in
      subst (λ y. Left s y (view (write_smi a phy reg value w)))
        (driven-driven s frame (t ∷ []) (view w).slave
          ∙ ap (λ b. rises s (driven (frame ++ b ∷ [])) (view w).slave) low)
        (Left-released false t (s.rise (some t) x) (write_smi a phy reg value w)
          (drop_line t (s.rise (some t) x) _ (pulse_mdc-driving a s view laws t true x _ e)))
