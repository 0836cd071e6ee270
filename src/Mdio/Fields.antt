-- ===== src/Mdio/Fields.antt =====
-- The fields of the command words, and what the controller reads in them.
use open_device.Base.{
  ℕ, ◌+◌, ◌*◌, ◌/◌, ◌%◌, ◌^◌, ◌<◌, ◌≡◌, ◌∙◌, sym, ap, ap₂, arith, bit_and, bit_or,
}
use open_device.Base.Bits.{
  bit_and_mask, bit_and_comm, bit_and_high, bit_and_shifted, bit_or_shifted, bit_or_disjoint,
}
use open_device.Mdio.Command.{shl, address_fields, read_command, write_command}

-- `(x << k) & (mask << k)` for a mask of ones.
phy_field : (x : ℕ) → bit_and (shl x 12) 0x1f000 ≡ x % 32 * 4096
phy_field x =
    let e : shl x 12 ≡ x % 2 ^ 20 * 2 ^ 12 = omega arith in
    omega (
      arith,
      ap (λ y. bit_and y 0x1f000) e,
      bit_and_shifted 12 (x % 2 ^ 20) 31,
      bit_and_mask 5 (x % 2 ^ 20),
    )

reg_field : (x : ℕ) → bit_and (shl x 4) 0x7f0 ≡ x % 128 * 16
reg_field x =
    let e : shl x 4 ≡ x % 2 ^ 28 * 2 ^ 4 = omega arith in
    omega (
      arith,
      ap (λ y. bit_and y 0x7f0) e,
      bit_and_shifted 4 (x % 2 ^ 28) 127,
      bit_and_mask 7 (x % 2 ^ 28),
    )

pub address_fields_lem :
    (phyaddr phyreg : ℕ) → address_fields phyaddr phyreg ≡ phyaddr % 32 * 4096 + phyreg % 128 * 16
unfolding address_fields
address_fields_lem phyaddr phyreg =
    ap₂ bit_or (phy_field phyaddr) (reg_field phyreg)
    ∙ bit_or_disjoint 12 (phyaddr % 32) (phyreg % 128 * 16) (omega arith)

-- `| MII_BUSY` and `| MII_WRITE | MII_BUSY`: the four lowest digits of the fields are free.
low_flags :
    (phyaddr phyreg f : ℕ)
    → f < 16
    → bit_or (address_fields phyaddr phyreg) f ≡ phyaddr % 32 * 4096 + phyreg % 128 * 16 + f
low_flags phyaddr phyreg f h =
    let a : ℕ = phyaddr % 32 * 256 + phyreg % 128 in
    let e : address_fields phyaddr phyreg ≡ a * 2 ^ 4 =
      omega (arith, address_fields_lem phyaddr phyreg) in
    omega (arith, ap (λ y. bit_or y f) e, bit_or_disjoint 4 a f h)

pub read_command_lem :
    (div phyaddr phyreg : ℕ)
    → read_command div phyaddr phyreg
      ≡ div % 8 * 2 ^ 20 + phyaddr % 32 * 4096 + phyreg % 128 * 16 + 1
unfolding read_command
read_command_lem div phyaddr phyreg =
    let f : ℕ = phyaddr % 32 * 4096 + phyreg % 128 * 16 + 1 in
    let d : bit_or 0 (shl (bit_and div 7) 20) ≡ div % 8 * 2 ^ 20 =
      omega
        (arith, bit_or_disjoint 32 0 (shl (bit_and div 7) 20) (omega arith), bit_and_mask 3 div) in
    ap₂ bit_or d (low_flags phyaddr phyreg 1 (omega arith))
    ∙ omega (arith, bit_or_disjoint 20 (div % 8) f (omega arith))

-- The divider field of a write: what the register held and the divider together.
pub divider_field : ℕ → ℕ → ℕ
divider_field old div = bit_or (old / 2 ^ 20 % 8) div

write_flags :
    (phyaddr phyreg : ℕ)
    → bit_or (bit_or (address_fields phyaddr phyreg) 2) 1
      ≡ phyaddr % 32 * 4096 + phyreg % 128 * 16 + 3
write_flags phyaddr phyreg =
    let q : ℕ = phyaddr % 32 * 2048 + phyreg % 128 * 8 + 1 in
    let e : bit_or (address_fields phyaddr phyreg) 2 ≡ q * 2 ^ 1 =
      omega (arith, low_flags phyaddr phyreg 2 (omega arith)) in
    omega (arith, ap (λ y. bit_or y 1) e, bit_or_disjoint 1 q 1 (omega arith))

pub write_command_lem :
    (old div phyaddr phyreg : ℕ)
    → div < 8
    → write_command old div phyaddr phyreg
      ≡ divider_field old div * 2 ^ 20 + phyaddr % 32 * 4096 + phyreg % 128 * 16 + 3
unfolding write_command divider_field
write_command_lem old div phyaddr phyreg h =
    let f : ℕ = phyaddr % 32 * 4096 + phyreg % 128 * 16 + 3 in
    let o : ℕ = old / 2 ^ 20 % 8 in
    let whole : old / 2 ^ 20 * 2 ^ 20 + old % 2 ^ 20 ≡ old = omega arith in
    let k : bit_and 0x700000 old ≡ o * 2 ^ 20 =
      bit_and_comm 0x700000 old
      ∙ ap (λ x. bit_and x 0x700000) (sym whole)
      ∙ bit_and_high 20 (old / 2 ^ 20) (old % 2 ^ 20) 7 (omega arith)
      ∙ ap (λ x. x * 2 ^ 20) (bit_and_mask 3 (old / 2 ^ 20)) in
    let d : shl div 20 ≡ div * 2 ^ 20 = omega arith in
    let hi : bit_or (bit_and 0x700000 old) (shl div 20) ≡ bit_or o div * 2 ^ 20 =
      ap₂ bit_or k d ∙ bit_or_shifted 20 o div in
    ap₂ bit_or hi (write_flags phyaddr phyreg)
    ∙ omega (arith, bit_or_disjoint 20 (bit_or o div) f (omega arith))
