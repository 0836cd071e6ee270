-- ===== src/Smi/Pins.antt =====
-- The frames that mdio.c sends and reads over the pins of an Arduino board.
use open_device.Base.{
  ℕ, zero, suc, ◌/◌, ◌==◌, Bool, true, false, not, if◌then◌else◌, bit_and, bit_or,
}

-- DIR turns the buffer in the line, MDC is the clock, MDIO the data.
pub data Pin : Type 0 where
  dir : Pin
  mdc : Pin
  mdio : Pin

-- The calls of the Arduino core. A mode is `true` for OUTPUT, a level `true` for 1.
pub record Arduino : Type 1 where
  pub World : Type 0
  pub pin_mode : Pin → Bool → World → World
  pub digital_write : Pin → Bool → World → World
  pub digital_read : Pin → World → Bool

module _ (a : Arduino) where
  open a use {World, pin_mode, digital_write, digital_read}

  -- `smi_init`, which returns 0.
  unfoldable pub smi_init : World → World
  smi_init w = pin_mode mdio true (pin_mode mdc true (digital_write dir true (pin_mode dir true w)))

  -- `pulse_mdc`, less its delays.
  unfoldable pub pulse_mdc : World → World
  pulse_mdc w = digital_write mdc true (digital_write mdc false w)

  -- `for (byte = 0; byte < n; byte++) pulse_mdc();`
  unfoldable pub pulses : ℕ → World → World
  pulses zero w = w
  pulses (suc n) w = pulses n (pulse_mdc w)

  unfoldable pub send_bit : Bool → World → World
  send_bit v w = pulse_mdc (digital_write mdio v w)

  -- `for (byte = mask; byte != 0; byte = byte >> 1)`, on fuel: a bit of `value` for each mask.
  unfoldable pub send_field : ℕ → ℕ → ℕ → World → World
  send_field zero mask value w = w
  send_field (suc fuel) mask value w =
      let rest = send_field fuel (mask / 2) value (send_bit (not (bit_and mask value == 0)) w) in
      if mask == 0 then w else rest

  -- Two bits, as the start, the code and the turnaround have.
  unfoldable pub send_two : Bool → Bool → World → World
  send_two u v w = send_bit v (send_bit u w)

  -- The idle levels and the preamble.
  unfoldable pub preamble : World → World
  preamble w = pulses 32 (digital_write mdc true (digital_write mdio true w))

  -- The start, the code and the addresses; the masks have five digits.
  unfoldable pub send_head : Bool → Bool → ℕ → ℕ → World → World
  send_head u v phy reg w =
      send_field 6 0x10 reg
        (send_field 6 0x10 phy (send_two u v (send_two false true (preamble w))))

  unfoldable pub write_smi : ℕ → ℕ → ℕ → World → World
  write_smi phy reg value w =
      let w1 = pin_mode mdio true (digital_write dir true w) in
      let w2 = send_two true false (send_head false true phy reg w1) in
      let w3 = pulse_mdc (send_field 17 0x8000 value w2) in
      pin_mode mdio false (digital_write dir false w3)

  -- `for (word = 0x8000; word != 0; )`, on fuel: `data |= word` where the line shows 1.
  unfoldable pub receive : ℕ → ℕ → ℕ → World → ℕ × World
  receive zero word value w = (value, w)
  receive (suc fuel) word value w =
      let rest =
        receive fuel (word / 2) (if digital_read mdio w then bit_or value word else value)
          (pulse_mdc w) in
      if word == 0 then (value, w) else rest

  unfoldable pub read_smi : ℕ → ℕ → World → ℕ × World
  read_smi phy reg w =
      let w1 = pin_mode mdio true (digital_write dir true w) in
      let w2 = send_head true false phy reg w1 in
      let w3 = pin_mode mdc true (pin_mode mdio false (digital_write dir false w2)) in
      let (value, w4) = receive 17 0x8000 0 (pulse_mdc (pulse_mdc w3)) in
      (value, pin_mode mdio false (digital_write dir false (pulse_mdc w4)))
