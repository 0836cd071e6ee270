-- ===== src/Phy/Decode.antt =====
-- What the registers of a software PHY say, read the way the standard (IEEE 802.3, clause 22) defines them.
use open_device.Base.{
  ℕ, ◌+◌, ◌*◌, ◌/◌, ◌%◌, ◌^◌, ◌≡◌, ◌<◌, Bool, true, not, ◌||◌, ◌==◌, if◌then◌else◌, arith,
}
use open_device.Phy.Regs.{
  Status, is_set, mii_bmcr, mii_bmsr, mii_physid1, mii_physid2, mii_lpa, mii_stat1000, full_duplex,
  half_duplex, status_words, update_regs,
}

-- Digit `n` of a register.
abbrev pub digit : ℕ → ℕ → Bool
digit n v = not (v / 2 ^ n % 2 == 0)

-- The speed selected: digits 6 and 13 of the control register.
abbrev pub speed_of : (ℕ → ℕ) → ℕ
speed_of regs =
    if digit 6 (regs mii_bmcr) then 1000 else if digit 13 (regs mii_bmcr) then 100 else 10

-- The speed of the partner: what it can do, the fastest first.
abbrev pub partner_speed : (ℕ → ℕ) → ℕ
partner_speed regs =
    if digit 11 (regs mii_stat1000) || digit 10 (regs mii_stat1000)
    then 1000
    else if digit 8 (regs mii_lpa) || digit 7 (regs mii_lpa)
    then 100
    else 10

abbrev pub partner_full : (ℕ → ℕ) → Bool
partner_full regs =
    digit 11 (regs mii_stat1000) || (digit 8 (regs mii_lpa) || digit 6 (regs mii_lpa))

abbrev pub known_speed : ℕ → Bool
known_speed speed = (speed == 1000) || ((speed == 100) || (speed == 10))

pub record Shown (id : ℕ) (s : Status) (regs : ℕ → ℕ) : Type 0 where
  pub speed : speed_of regs ≡ s.speed
  pub partner : partner_speed regs ≡ s.speed
  pub duplex : digit 8 (regs mii_bmcr) ≡ is_set s.duplex
  pub partner_duplex : partner_full regs ≡ is_set s.duplex
  pub link : digit 2 (regs mii_bmsr) ≡ is_set s.link
  pub negotiated : digit 5 (regs mii_bmsr) ≡ is_set s.link
  pub pause : digit 10 (regs mii_lpa) ≡ is_set s.pause
  pub asym_pause : digit 11 (regs mii_lpa) ≡ is_set s.asym_pause
  pub identifier : regs mii_physid1 * 2 ^ 16 + regs mii_physid2 ≡ id

-- For a status with a speed of 10, 100 or 1000 and an identifier of 32 digits, over any registers: the
-- control register gives the speed and the duplex, and so do the abilities of the partner; the status
-- register gives the link, and that the negotiation is complete, and the partner's register the pauses;
-- the identifier registers give the identifier.
pub update_regs-Shown :
    (id : ℕ) (s : Status) (regs : ℕ → ℕ)
    → known_speed s.speed ≡ true
    → id < 2 ^ 32
    → Shown id s (update_regs id s regs).1
unfolding update_regs status_words full_duplex half_duplex
update_regs-Shown id s regs h g = record {
  speed = ground arith;
  partner = ground arith;
  duplex = ground arith;
  partner_duplex = ground arith;
  link = ground arith;
  negotiated = ground arith;
  pause = ground arith;
  asym_pause = ground arith;
  identifier = ground arith;
}
