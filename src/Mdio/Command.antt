-- ===== src/Mdio/Command.antt =====
-- The words that `legacy_mdio_read` and `legacy_mdio_write` write to the address register. Words have
-- 32 bits; an address of a PHY or a register that is negative has wrapped to such a word.
use open_device.Base.{ℕ, ◌*◌, ◌%◌, ◌^◌, bit_and, bit_or}

abbrev pub geth_mdio_addr : ℕ
geth_mdio_addr = 0x48

abbrev pub geth_mdio_data : ℕ
geth_mdio_data = 0x4c

abbrev pub mii_busy : ℕ
mii_busy = 1

abbrev pub mii_write : ℕ
mii_write = 2

-- `x << k` of 32 bits.
abbrev pub shl : ℕ → ℕ → ℕ
shl x k = x * 2 ^ k % 2 ^ 32

-- `((phyaddr << 12) & 0x0001F000) | ((phyreg << 4) & 0x000007F0)`.
unfoldable pub address_fields : ℕ → ℕ → ℕ
address_fields phyaddr phyreg =
    bit_or (bit_and (shl phyaddr 12) 0x1f000) (bit_and (shl phyreg 4) 0x7f0)

-- `value` of `legacy_mdio_read`; `div` is `hwdev.mdc_div`.
unfoldable pub read_command : ℕ → ℕ → ℕ → ℕ
unfolding address_fields
read_command div phyaddr phyreg =
    bit_or (bit_or 0 (shl (bit_and div 7) 20)) (bit_or (address_fields phyaddr phyreg) mii_busy)

-- `value` of `legacy_mdio_write`; `old` is what the address register held.
unfoldable pub write_command : ℕ → ℕ → ℕ → ℕ → ℕ
unfolding address_fields
write_command old div phyaddr phyreg =
    bit_or (bit_or (bit_and (shl 7 20) old) (shl div 20))
      (bit_or (bit_or (address_fields phyaddr phyreg) mii_write) mii_busy)
