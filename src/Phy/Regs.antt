-- ===== src/Phy/Regs.antt =====
-- `demo_phy_update_regs`: the registers of a PHY from its status. Registers have 16 bits, an `int` is its
-- word of 32 bits.
use open_device.Base.{
  ℕ, ◌/◌, ◌%◌, ◌^◌, Bool, not, ◌==◌, if◌then◌else◌, Option, none, some, ℤ, ok, einval, bit_or,
}

-- `struct demo_phy_status`.
pub record Status : Type 0 where
  pub link : ℕ
  pub speed : ℕ
  pub duplex : ℕ
  pub pause : ℕ
  pub asym_pause : ℕ

abbrev pub is_set : ℕ → Bool
is_set n = not (n == 0)

-- Register numbers.
abbrev pub mii_bmcr : ℕ
mii_bmcr = 0

abbrev pub mii_bmsr : ℕ
mii_bmsr = 1

abbrev pub mii_physid1 : ℕ
mii_physid1 = 2

abbrev pub mii_physid2 : ℕ
mii_physid2 = 3

abbrev pub mii_lpa : ℕ
mii_lpa = 5

abbrev pub mii_stat1000 : ℕ
mii_stat1000 = 10

-- `bmsr`, `bmcr`, `lpagb` and `lpa`.
pub record Words : Type 0 where
  pub bmsr : ℕ
  pub bmcr : ℕ
  pub lpagb : ℕ
  pub lpa : ℕ

-- The values before the tests: `BMSR_ANEGCAPABLE`, and 0.
abbrev pub first_words : Words
first_words = record { bmsr = 0x0008; bmcr = 0; lpagb = 0; lpa = 0 }

-- The `switch` for a full duplex link, `BMCR_FULLDPLX` being set.
unfoldable pub full_duplex : ℕ → Words → Option Words
full_duplex speed w =
    if speed == 1000
    then some (record w {
      bmsr = bit_or w.bmsr 0x0100;
      bmcr = bit_or w.bmcr 0x0040;
      lpagb = bit_or w.lpagb 0x0800;
    })
    else if speed == 100
    then some (record w {
      bmsr = bit_or w.bmsr 0x4000;
      bmcr = bit_or w.bmcr 0x2000;
      lpa = bit_or w.lpa 0x0100;
    })
    else if speed == 10
    then some (record w { bmsr = bit_or w.bmsr 0x1000; lpa = bit_or w.lpa 0x0040 })
    else none

-- The `switch` for a half duplex link.
unfoldable pub half_duplex : ℕ → Words → Option Words
half_duplex speed w =
    if speed == 1000
    then some (record w {
      bmsr = bit_or w.bmsr 0x0100;
      bmcr = bit_or w.bmcr 0x0040;
      lpagb = bit_or w.lpagb 0x0400;
    })
    else if speed == 100
    then some (record w {
      bmsr = bit_or w.bmsr 0x2000;
      bmcr = bit_or w.bmcr 0x2000;
      lpa = bit_or w.lpa 0x0080;
    })
    else if speed == 10
    then some (record w { bmsr = bit_or w.bmsr 0x0800; lpa = bit_or w.lpa 0x0020 })
    else none

-- The tests of `link`, `pause` and `asym_pause`.
abbrev pub add_link : Status → Words → Words
add_link s w = if is_set s.link then record w { bmsr = bit_or w.bmsr 0x0024 } else w

abbrev pub add_pause : Status → Words → Words
add_pause s w = if is_set s.pause then record w { lpa = bit_or w.lpa 0x0400 } else w

abbrev pub add_asym : Status → Words → Words
add_asym s w = if is_set s.asym_pause then record w { lpa = bit_or w.lpa 0x0800 } else w

-- `none` is an unknown speed.
unfoldable pub status_words : Status → Option Words
unfolding full_duplex half_duplex
status_words s =
    let chosen =
      if is_set s.duplex
      then full_duplex s.speed (record first_words { bmcr = bit_or 0 0x0100 })
      else half_duplex s.speed first_words in
    elim chosen [ none ↦ none | some w ↦ some (add_asym s (add_pause s (add_link s w))) ]

-- One register of the array gets a value.
abbrev pub put : ℕ → ℕ → (ℕ → ℕ) → ℕ → ℕ
put n v regs m = if m == n then v else regs m

abbrev pub put_words : ℕ → Words → (ℕ → ℕ) → ℕ → ℕ
put_words id w regs = put mii_stat1000 w.lpagb (
    put mii_lpa w.lpa (
      put mii_bmcr w.bmcr (
        put mii_bmsr w.bmsr
          (put mii_physid2 (id % 2 ^ 16) (put mii_physid1 (id / 2 ^ 16 % 2 ^ 16) regs)))))

-- `demo_phy_update_regs`: its result, and the registers.
unfoldable pub update_regs : ℕ → Status → (ℕ → ℕ) → ℤ × (ℕ → ℕ)
unfolding status_words
update_regs id s regs = elim (status_words s) [
  | none ↦ (einval, regs)
  | some w ↦ (ok, put_words id w regs)
]
