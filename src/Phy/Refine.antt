-- ===== src/Phy/Refine.antt =====
-- The functions of phy_basic.c, guards included, against the same functions of the table.
use open_device.Base.{
  ℕ, ◌≡◌, ◌∙◌, refl, sym, ap, Bool, not, ltb, if◌then◌else◌, Option, none, some, List, ℤ, ok,
  einval, enomem, Bool-cases, inl, inr, arith,
}
use open_device.Phy.Regs.{Status, update_regs, status_words, full_duplex, half_duplex}
use open_device.Phy.Decode.{known_speed}
use open_device.Phy.Bus.{
  Phydev, LinkUpdate, Phy, set_walk, new_phy, phy_max_addr, mii_regs_num, demo_mdio_read,
  phy_set_link_update, demo_phy_add, Added, added, beyond,
}
use open_device.Phy.Table.{
  Table, table, table_read, table_set, table_add, seen, set_seen, read_walk-look, set_walk-table,
  appended_table,
}

abbrev pub table_set_link_update : Option Phydev → Option LinkUpdate → Table → ℤ × Table
table_set_link_update _ none t = (einval, t)
table_set_link_update none (some f) t = (einval, t)
table_set_link_update (some d) (some f) t = if not d.bus then (einval, t) else table_set f d t

-- A PHY that shows its status.
abbrev pub shown_phy : ℕ → Status → Phy
shown_phy id s = record (new_phy id s) { regs = (update_regs id s (λ n. 0xffff)).1 }

-- `none` is a write behind `irqs`.
abbrev pub table_phy_add : Bool → ℕ → Status → Table → Option (ℤ × Table)
table_phy_add fits id s t =
    if not fits
    then some (enomem, t)
    else if not (ltb id phy_max_addr)
    then none
    else if known_speed s.speed
    then some (ok, table_add (shown_phy id s) t)
    else some (einval, t)

abbrev pub add_seen : Added → Option (ℤ × Table)
add_seen (added v b) = some (v, table b.phys)
add_seen beyond = none

pub record Implements (ps : List Phy) : Type 0 where
  pub read :
      (phy_id reg_num : ℕ)
      → seen (demo_mdio_read phy_id reg_num ps) ≡ table_read phy_id reg_num (table ps)
  pub set :
      (d : Option Phydev) (f : Option LinkUpdate)
      → set_seen (phy_set_link_update d f ps) ≡ table_set_link_update d f (table ps)
  pub add :
      (fits : Bool) (irq id : ℕ) (s : Status) (irqs : ℕ → ℕ)
      → add_seen (demo_phy_add fits irq id s (record { irqs = irqs; phys = ps }))
        ≡ table_phy_add fits id s (table ps)

update_regs_result :
    (id : ℕ) (s : Status) (regs : ℕ → ℕ)
    → (update_regs id s regs).0 ≡ (if known_speed s.speed then ok else einval)
unfolding update_regs status_words full_duplex half_duplex
update_regs_result id s regs = ground arith

read_seen :
    (phy_id reg_num : ℕ) (ps : List Phy)
    → seen (demo_mdio_read phy_id reg_num ps) ≡ table_read phy_id reg_num (table ps)
unfolding demo_mdio_read
read_seen phy_id reg_num ps =
    let e = read_walk-look phy_id reg_num ps in
    elim (Bool-cases (ltb reg_num mii_regs_num)) [ inl h ↦ ground arith | inr h ↦ ground arith ]

set_link_seen :
    (d : Option Phydev) (f : Option LinkUpdate) (ps : List Phy)
    → set_seen (phy_set_link_update d f ps) ≡ table_set_link_update d f (table ps)
unfolding phy_set_link_update
set_link_seen none none ps = refl
set_link_seen (some d) none ps = refl
set_link_seen none (some f) ps = refl
set_link_seen (some d) (some f) ps = elim (Bool-cases d.bus) [
  | inl h ↦
      ap (λ b. set_seen (if not b then (einval, ps) else set_walk f d ps)) h
      ∙ set_walk-table f d ps
      ∙ sym (ap (λ b. if not b then (einval, table ps) else table_set f d (table ps)) h)
  | inr h ↦
      ap (λ b. set_seen (if not b then (einval, ps) else set_walk f d ps)) h
      ∙ sym (ap (λ b. if not b then (einval, table ps) else table_set f d (table ps)) h)
]

phy_add_seen :
    (fits : Bool) (irq id : ℕ) (s : Status) (irqs : ℕ → ℕ) (ps : List Phy)
    → add_seen (demo_phy_add fits irq id s (record { irqs = irqs; phys = ps }))
      ≡ table_phy_add fits id s (table ps)
unfolding demo_phy_add
phy_add_seen fits irq id s irqs ps =
    let e = update_regs_result id s (λ n. 0xffff) in
    let f = appended_table (shown_phy id s) ps in
    elim (Bool-cases (known_speed s.speed)) [ inl h ↦ ground arith | inr h ↦ ground arith ]

-- For any list of PHYs, seen as a table: reading a register, setting an update function and adding a PHY
-- give the same result, and a list that is seen as the same table, as the operations on the table do,
-- whatever the guards decide. The table answers with the PHY of an identifier, with 0xffff where there is
-- none, and an addition is seen only where the identifier is new.
pub phy_basic-Implements : (ps : List Phy) → Implements ps
phy_basic-Implements ps = record {
  read = λ phy_id reg_num. read_seen phy_id reg_num ps;
  set = λ d f. set_link_seen d f ps;
  add = λ fits irq id s irqs. phy_add_seen fits irq id s irqs ps;
}
