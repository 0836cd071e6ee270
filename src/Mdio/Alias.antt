-- ===== src/Mdio/Alias.antt =====
-- What a transfer sees of the addresses it is given. The file operations let PHY 32 pass.
use open_device.Base.{ℕ, ◌%◌, ◌≡◌, ◌∙◌, sym, ap, bit_or, bit_and, Option, none, some, arith}
use open_device.Mdio.Command.{
  geth_mdio_addr, geth_mdio_data, mii_busy, mii_write, shl, address_fields, read_command,
  write_command,
}
use open_device.Mdio.Fields.{address_fields_lem}
use open_device.Mdio.Bus.{Registers, wait_idle, legacy_mdio_read, legacy_mdio_write}

fields_seen :
    (phyaddr phyreg : ℕ)
    → address_fields phyaddr phyreg ≡ address_fields (phyaddr % 32) (phyreg % 128)
fields_seen phyaddr phyreg =
    address_fields_lem phyaddr phyreg
    ∙ omega arith
    ∙ sym (address_fields_lem (phyaddr % 32) (phyreg % 128))

read_command_seen :
    (div phyaddr phyreg : ℕ)
    → read_command div phyaddr phyreg ≡ read_command div (phyaddr % 32) (phyreg % 128)
unfolding read_command
read_command_seen div phyaddr phyreg =
    ap (λ f. bit_or (bit_or 0 (shl (bit_and div 7) 20)) (bit_or f mii_busy))
      (fields_seen phyaddr phyreg)

write_command_seen :
    (old div phyaddr phyreg : ℕ)
    → write_command old div phyaddr phyreg ≡ write_command old div (phyaddr % 32) (phyreg % 128)
unfolding write_command
write_command_seen old div phyaddr phyreg =
    ap
      (λ f.
        bit_or (bit_or (bit_and (shl 7 20) old) (shl div 20))
          (bit_or (bit_or f mii_write) mii_busy))
      (fields_seen phyaddr phyreg)

-- Over any registers, and with any fuel: transfers with addresses that agree in the five lowest digits of
-- the PHY and the seven lowest of the register are the same transfers, a read as well as a write. So
-- PHY 32 is PHY 0, and a negative address is that of its lowest digits.
pub legacy_mdio_seen :
    (r : Registers) (fuel div phyaddr phyreg value : ℕ) (w : r.World)
    → (legacy_mdio_read r fuel div phyaddr phyreg w
        ≡ legacy_mdio_read r fuel div (phyaddr % 32) (phyreg % 128) w)
      × (legacy_mdio_write r fuel div phyaddr phyreg value w
          ≡ legacy_mdio_write r fuel div (phyaddr % 32) (phyreg % 128) value w)
unfolding legacy_mdio_read legacy_mdio_write
legacy_mdio_seen r fuel div phyaddr phyreg value w = (
  ap
      (λ v. elim (wait_idle r fuel w) as (λ _. Option (ℕ × r.World)) [
        | none ↦ none
        | some w1 ↦
            elim (wait_idle r fuel (r.writel geth_mdio_addr v w1)) as (λ _. Option (ℕ × r.World)) [
              | none ↦ none
              | some w2 ↦ some (r.readl geth_mdio_data w2)
            ]
      ])
      (read_command_seen div phyaddr phyreg),
  ap
      (λ v. elim (wait_idle r fuel (r.readl geth_mdio_addr w).1) as (λ _. Option r.World) [
        | none ↦ none
        | some w1 ↦ wait_idle r fuel (r.writel geth_mdio_addr v (r.writel geth_mdio_data value w1))
      ])
      (write_command_seen (r.readl geth_mdio_addr w).0 div phyaddr phyreg),
)
