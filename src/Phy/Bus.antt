-- ===== src/Phy/Bus.antt =====
-- The list of software PHYs and the functions on it: `demo_mdio_read`, `demo_mdio_write`,
-- `demo_phy_set_link_update`, `demo_phy_add` and the exit. A register number is not negative.
use open_device.Base.{
  ℕ, Bool, not, ◌==◌, ltb, if◌then◌else◌, Option, none, some, List, [], ◌∷◌, ◌++◌, ℤ, pos, negsuc,
  ok, is_nonzero, einval, enoent, enomem,
}
use open_device.Phy.Regs.{Status, put, update_regs}

-- `struct phy_device`, as far as it is read; `bus` is whether that pointer is set.
pub record Phydev : Type 0 where
  pub attached_dev : ℕ
  pub phy_id : ℕ
  pub bus : Bool

-- A `link_update` function: it gets the network device and may change the status.
abbrev pub LinkUpdate : Type 0
LinkUpdate = ℕ → Status → ℤ × Status

-- `struct demo_phy_priv`.
pub record Phy : Type 0 where
  pub id : ℕ
  pub regs : ℕ → ℕ
  pub phydev : Option Phydev
  pub status : Status
  pub link_update : Option LinkUpdate

-- `struct demo_mdio_priv`.
pub record Bus : Type 0 where
  pub irqs : ℕ → ℕ
  pub phys : List Phy

abbrev pub mii_regs_num : ℕ
mii_regs_num = 29

abbrev pub phy_max_addr : ℕ
phy_max_addr = 32

-- The update that a read asks for; `none` is a `phydev` that is `NULL` and followed.
unfoldable pub refresh : Phy → Option Phy
refresh p = elim p.link_update [
  | none ↦ some p
  | some f ↦ elim p.phydev [
    | none ↦ none
    | some d ↦
        let s : Status = (f d.attached_dev p.status).1 in
        some (record p { status = s; regs = (update_regs p.id s p.regs).1 })
  ]
]

-- The walk of `demo_mdio_read` over the list.
unfoldable pub read_walk : ℕ → ℕ → List Phy → Option (ℤ × List Phy)
read_walk phy_id reg_num [] = some (pos 0xffff, [])
read_walk phy_id reg_num (p ∷ ps) =
    let rest = read_walk phy_id reg_num ps in
    if p.id == phy_id
    then elim (refresh p) [ none ↦ none | some q ↦ some (pos (q.regs reg_num), q ∷ ps) ]
    else elim rest [ none ↦ none | some (v, qs) ↦ some (v, p ∷ qs) ]

unfoldable pub demo_mdio_read : ℕ → ℕ → List Phy → Option (ℤ × List Phy)
demo_mdio_read phy_id reg_num ps =
    if not (ltb reg_num mii_regs_num) then some (negsuc 0, ps) else read_walk phy_id reg_num ps

unfoldable pub demo_mdio_write : ℕ → ℕ → ℕ → List Phy → ℤ × List Phy
demo_mdio_write phy_id reg_num val ps = (ok, ps)

-- The walk of `demo_phy_set_link_update`.
unfoldable pub set_walk : LinkUpdate → Phydev → List Phy → ℤ × List Phy
set_walk f d [] = (enoent, [])
set_walk f d (p ∷ ps) =
    let (v, qs) = set_walk f d ps in
    if p.id == d.phy_id
    then (ok, record p { link_update = some f; phydev = some d } ∷ ps)
    else (v, p ∷ qs)

unfoldable pub phy_set_link_update : Option Phydev → Option LinkUpdate → List Phy → ℤ × List Phy
phy_set_link_update phydev link_update ps = elim link_update [
  | none ↦ (einval, ps)
  | some f ↦ elim phydev [
    | none ↦ (einval, ps)
    | some d ↦ if not d.bus then (einval, ps) else set_walk f d ps
  ]
]

-- The PHY that `demo_phy_add` allocates, its registers filled with ones.
abbrev pub new_phy : ℕ → Status → Phy
new_phy id s = record { id = id; regs = λ n. 0xffff; phydev = none; status = s; link_update = none }

-- The end of an addition, or a write behind the end of `irqs`.
pub data Added : Type 0 where
  added : ℤ → Bus → Added
  beyond : Added

-- `fits` is the answer of the allocation.
unfoldable pub demo_phy_add : Bool → ℕ → ℕ → Status → Bus → Added
demo_phy_add fits irq phy_id s b =
    let p : Phy = new_phy phy_id s in
    let (ret, regs) = update_regs phy_id s p.regs in
    let n : Bus = record b { irqs = put phy_id irq b.irqs } in
    if not fits
    then added enomem b
    else if not (ltb phy_id phy_max_addr)
    then beyond
    else if is_nonzero ret
    then added ret n
    else added ok (record n { phys = b.phys ++ record p { regs = regs } ∷ [] })
