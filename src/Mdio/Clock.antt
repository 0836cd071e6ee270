-- ===== src/Mdio/Clock.antt =====
-- The words that `legacy_power_on` and `legacy_clk_enable` write to the clock register.
use open_device.Base.{
  ℕ, ◌+◌, ◌*◌, ◌/◌, ◌%◌, ◌^◌, ◌<◌, ◌≡◌, ◌∙◌, ap, ap₂, arith, bit_and, bit_or, ◌-◌,
}
use open_device.Mdio.Command.{shl}
use open_device.Base.Bits.{bit_and_mask, bit_and_hole, bit_or_field, bit_or_bit}

-- `(1 << 16) | (value & ~(1 << 15))`.
unfoldable pub legacy_power_on : ℕ → ℕ
legacy_power_on value = bit_or (bit_and value 0xffff7fff) 0x10000

unfoldable pub legacy_clk_enable : ℕ → ℕ → ℕ → ℕ
legacy_clk_enable tx_delay rx_delay clkval =
    let mode : ℕ = bit_or (bit_and (bit_or clkval 0x4) 0xfffffffc) 0x2 in
    let tx : ℕ = bit_or (bit_and mode 0xffffe3ff) (shl (bit_and tx_delay 0x7) 10) in
    bit_or (bit_and tx 0xfffffc1f) (shl (bit_and rx_delay 0x1f) 5)

-- `(value & ~(mask << k)) | (x << k)` for a mask of `w` ones: field `w` at `k` becomes `x`.
set_field :
    (k w n q f r x : ℕ)
    → r < 2 ^ k
    → f < 2 ^ w
    → q < 2 ^ n
    → x < 2 ^ w
    → bit_or
        (bit_and ((q * 2 ^ w + f) * 2 ^ k + r) ((2 ^ n - 1) * 2 ^ w * 2 ^ k + (2 ^ k - 1)))
        (x * 2 ^ k)
      ≡ (q * 2 ^ w + x) * 2 ^ k + r
set_field k w n q f r x h g l m =
    ap (λ v. bit_or v (x * 2 ^ k)) (bit_and_hole k w n q f r h g l) ∙ bit_or_field k w q r x h m

power_lem :
    (value : ℕ)
    → value < 2 ^ 32
    → legacy_power_on value ≡ value / 2 ^ 17 * 2 ^ 17 + 2 ^ 16 + value % 2 ^ 15
unfolding legacy_power_on
power_lem value h =
    let q : ℕ = value / 2 ^ 16 in
    let f : ℕ = value / 2 ^ 15 % 2 in
    let r : ℕ = value % 2 ^ 15 in
    let whole : value ≡ (q * 2 ^ 1 + f) * 2 ^ 15 + r = omega arith in
    let cleared : bit_and value 0xffff7fff ≡ q * 2 ^ 1 * 2 ^ 15 + r =
      ap (λ v. bit_and v 0xffff7fff) whole
      ∙ bit_and_hole 15 1 16 q f r (omega arith) (omega arith) (omega arith) in
    let split : q * 2 ^ 1 * 2 ^ 15 + r ≡ q * 2 ^ 16 + r = omega arith in
    ap (λ v. bit_or v 0x10000) (cleared ∙ split) ∙ bit_or_bit 16 q r (omega arith) ∙ omega arith

-- The mode of the interface: digits 2, 1 and 0 become 1, 1 and 0.
mode_lem :
    (clkval : ℕ)
    → clkval < 2 ^ 32
    → bit_or (bit_and (bit_or clkval 0x4) 0xfffffffc) 0x2 ≡ clkval / 8 * 8 + 6
mode_lem clkval h =
    let r : ℕ = clkval % 2 ^ 2 in
    let q : ℕ = clkval / 2 ^ 2 in
    let whole : clkval ≡ q * 2 ^ 2 + r = omega arith in
    let four : bit_or clkval 0x4 ≡ ((q / 2 * 2 + 1) * 2 ^ 2 + r) * 2 ^ 0 + 0 =
      ap (λ v. bit_or v 0x4) whole ∙ bit_or_bit 2 q r (omega arith) ∙ omega arith in
    ap (λ v. bit_or (bit_and v 0xfffffffc) 0x2) four
    ∙ set_field 0 2 30 (q / 2 * 2 + 1) r 0 2 (omega arith) (omega arith) (omega arith) (omega arith)
    ∙ omega arith

clk_lem :
    (tx_delay rx_delay clkval : ℕ)
    → clkval < 2 ^ 32
    → legacy_clk_enable tx_delay rx_delay clkval
      ≡ clkval / 2 ^ 13 * 2 ^ 13
        + tx_delay % 8 * 2 ^ 10
        + rx_delay % 32 * 2 ^ 5
        + clkval / 8 % 4 * 8
        + 6
unfolding legacy_clk_enable
clk_lem tx_delay rx_delay clkval h =
    let m : ℕ = clkval / 8 * 8 + 6 in
    let tx : ℕ = tx_delay % 8 in
    let rx : ℕ = rx_delay % 32 in
    let t : ℕ = (m / 2 ^ 13 * 2 ^ 3 + tx) * 2 ^ 10 + m % 2 ^ 10 in
    let is_tx : shl (bit_and tx_delay 0x7) 10 ≡ tx * 2 ^ 10 =
      omega (arith, bit_and_mask 3 tx_delay) in
    let is_rx : shl (bit_and rx_delay 0x1f) 5 ≡ rx * 2 ^ 5 =
      omega (arith, bit_and_mask 5 rx_delay) in
    let whole : m ≡ (m / 2 ^ 13 * 2 ^ 3 + m / 2 ^ 10 % 8) * 2 ^ 10 + m % 2 ^ 10 = omega arith in
    let sent : bit_or (bit_and m 0xffffe3ff) (tx * 2 ^ 10) ≡ t =
      ap (λ v. bit_or (bit_and v 0xffffe3ff) (tx * 2 ^ 10)) whole
      ∙ set_field 10 3 19 (m / 2 ^ 13) (m / 2 ^ 10 % 8) (m % 2 ^ 10) tx (omega arith) (omega arith)
          (omega arith) (omega arith) in
    let whole_t : t ≡ (t / 2 ^ 10 * 2 ^ 5 + t / 2 ^ 5 % 32) * 2 ^ 5 + t % 2 ^ 5 = omega arith in
    let received : bit_or (bit_and t 0xfffffc1f) (rx * 2 ^ 5)
        ≡ (t / 2 ^ 10 * 2 ^ 5 + rx) * 2 ^ 5 + t % 2 ^ 5 =
      ap (λ v. bit_or (bit_and v 0xfffffc1f) (rx * 2 ^ 5)) whole_t
      ∙ set_field 5 5 22 (t / 2 ^ 10) (t / 2 ^ 5 % 32) (t % 2 ^ 5) rx (omega arith) (omega arith)
          (omega arith) (omega arith) in
    ap₂
      (λ v x.
        bit_or (bit_and (bit_or (bit_and v 0xffffe3ff) x) 0xfffffc1f)
          (shl (bit_and rx_delay 0x1f) 5))
      (mode_lem clkval h) is_tx
    ∙ ap₂ (λ v x. bit_or (bit_and v 0xfffffc1f) x) sent is_rx
    ∙ received
    ∙ omega arith

-- Over any word of 32 digits. After `legacy_power_on`, digit 15 is clear, digit 16 is set and the others
-- are what they were. After `legacy_clk_enable`, the three lowest digits are 6, digits 3 and 4 are what
-- they were, the receive delay stands in the five digits from 5 on and the transmit delay in the three
-- from 10 on, each cut to its width, and the digits from 13 on are what they were.
pub clock_words :
    (value tx_delay rx_delay : ℕ)
    → value < 2 ^ 32
    → (legacy_power_on value ≡ value / 2 ^ 17 * 2 ^ 17 + 2 ^ 16 + value % 2 ^ 15)
      × (legacy_clk_enable tx_delay rx_delay value
          ≡ value / 2 ^ 13 * 2 ^ 13
            + tx_delay % 8 * 2 ^ 10
            + rx_delay % 32 * 2 ^ 5
            + value / 8 % 4 * 8
            + 6)
clock_words value tx_delay rx_delay h = (power_lem value h, clk_lem tx_delay rx_delay value h)
