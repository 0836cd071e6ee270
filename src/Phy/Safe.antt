-- ===== src/Phy/Safe.antt =====
-- The lists of PHYs that the functions of phy_basic.c can make, from the empty one on.
use open_device.Base.{
  ℕ, ◌≡◌, ◌≢◌, ◌∙◌, refl, sym, ap, Bool, true, false, ◌&&◌, ◌==◌, ltb, Option, none, some, List, [],
  ◌∷◌, ◌++◌, ℤ, pos, negsuc, Bool-cases, Option-cases, inl, inr, arith,
}
use open_device.Phy.Regs.{Status, update_regs}
use open_device.Phy.Bus.{
  Phydev, LinkUpdate, Phy, Bus, set_walk, read_walk, refresh, demo_mdio_read, demo_mdio_write,
  phy_set_link_update, demo_phy_add, Added, added, beyond, new_phy,
}

-- One call.
pub data Step : List Phy → List Phy → Type 0 where
  reads :
      (phy_id reg_num : ℕ) {v : ℤ} {ps qs : List Phy}
      → demo_mdio_read phy_id reg_num ps ≡ some (v, qs)
      → Step ps qs
  writes :
      (phy_id reg_num val : ℕ) {ps : List Phy} → Step ps (demo_mdio_write phy_id reg_num val ps).1
  sets :
      (d : Option Phydev) (f : Option LinkUpdate) {ps : List Phy}
      → Step ps (phy_set_link_update d f ps).1
  adds :
      (fits : Bool) (irq id : ℕ) (s : Status) (b : Bus) {v : ℤ} {n : Bus}
      → demo_phy_add fits irq id s b ≡ added v n
      → Step b.phys n.phys

pub data Reachable : List Phy → Type 0 where
  start : Reachable []
  next : {ps qs : List Phy} → Reachable ps → Step ps qs → Reachable qs

-- A PHY with an update function has a device, and so on for the list.
abbrev pub linked : Phy → Bool
linked p = elim p.link_update [
  | none ↦ true
  | some f ↦ elim p.phydev [ none ↦ false | some d ↦ true ]
]

abbrev pub all_linked : List Phy → Bool
all_linked [] = true
all_linked (p ∷ ps) = linked p && all_linked ps

refresh-linked :
    (p : Phy) → linked p ≡ true → (q : Phy) × ((refresh p ≡ some q) × (linked q ≡ true))
unfolding refresh
refresh-linked p h = elim (Option-cases p.link_update) [
  | inl e ↦ (p, (ground arith, h))
  | inr (f, e) ↦ elim (Option-cases p.phydev) [
    | inl g ↦ absurd (ground arith)
    | inr (d, g) ↦
        let s : Status = (f d.attached_dev p.status).1 in
        (record p { status = s; regs = (update_regs p.id s p.regs).1 }, (ground arith, h))
  ]
]

-- A read of such a list ends, with such a list.
abbrev pub Ended : Option (ℤ × List Phy) → Type 0
Ended o = (v : ℤ) × ((qs : List Phy) × ((o ≡ some (v, qs)) × (all_linked qs ≡ true)))

read_walk-Ended :
    (phy_id reg_num : ℕ) (ps : List Phy)
    → all_linked ps ≡ true
    → Ended (read_walk phy_id reg_num ps)
unfolding read_walk
read_walk-Ended phy_id reg_num [] h = (pos 0xffff, ([], (refl, refl)))
read_walk-Ended phy_id reg_num (p ∷ ps) h = elim (Bool-cases (p.id == phy_id)) [
  | inl e ↦
      let (q, (f, g)) = refresh-linked p (ground arith) in
      (pos (q.regs reg_num), (q ∷ ps, (ground arith, ground arith)))
  | inr e ↦
      let (v, (qs, (f, g))) = read_walk-Ended phy_id reg_num ps (ground arith) in
      (v, (p ∷ qs, (ground arith, ground arith)))
]

demo_mdio_read-Ended :
    (phy_id reg_num : ℕ) (ps : List Phy)
    → all_linked ps ≡ true
    → Ended (demo_mdio_read phy_id reg_num ps)
unfolding demo_mdio_read
demo_mdio_read-Ended phy_id reg_num ps h = elim (Bool-cases (ltb reg_num 29)) [
  | inl e ↦
      let (v, (qs, (f, g))) = read_walk-Ended phy_id reg_num ps h in (v, (qs, (ground arith, g)))
  | inr e ↦ (negsuc 0, (ps, (ground arith, h)))
]

set_walk_linked :
    (f : LinkUpdate) (d : Phydev) (ps : List Phy)
    → all_linked ps ≡ true
    → all_linked (set_walk f d ps).1 ≡ true
unfolding set_walk
set_walk_linked f d [] h = refl
set_walk_linked f d (p ∷ ps) h = let rest = set_walk_linked f d ps (ground arith) in ground arith

set_linked :
    (d : Option Phydev) (f : Option LinkUpdate) (ps : List Phy)
    → all_linked ps ≡ true
    → all_linked (phy_set_link_update d f ps).1 ≡ true
unfolding phy_set_link_update
set_linked none none ps h = h
set_linked (some d) none ps h = h
set_linked none (some f) ps h = h
set_linked (some d) (some f) ps h = let walked = set_walk_linked f d ps h in ground arith

append_linked :
    (p : Phy) (ps : List Phy)
    → all_linked ps ≡ true
    → linked p ≡ true
    → all_linked (ps ++ p ∷ []) ≡ true
append_linked p [] h g = ground arith
append_linked p (q ∷ ps) h g = let rest = append_linked p ps (ground arith) g in ground arith

abbrev added_linked : Added → Bool
added_linked (added v n) = all_linked n.phys
added_linked beyond = true

add_linked :
    (fits : Bool) (irq id : ℕ) (s : Status) (b : Bus)
    → all_linked b.phys ≡ true
    → added_linked (demo_phy_add fits irq id s b) ≡ true
unfolding demo_phy_add
add_linked fits irq id s b h =
    let p : Phy = record (new_phy id s) { regs = (update_regs id s (λ n. 0xffff)).1 } in
    let more = append_linked p b.phys h refl in ground arith

step_linked : (ps qs : List Phy) → Step ps qs → all_linked ps ≡ true → all_linked qs ≡ true
unfolding demo_mdio_write
step_linked ps qs (reads phy_id reg_num e) h =
    let (v, (rs, (f, g))) = demo_mdio_read-Ended phy_id reg_num ps h in ground arith
step_linked ps qs (writes phy_id reg_num val) h = h
step_linked ps qs (sets d f) h = set_linked d f ps h
step_linked ps qs (adds fits irq id s b e) h =
    sym (ap added_linked e) ∙ add_linked fits irq id s b h

reachable_linked : (ps : List Phy) → Reachable ps → all_linked ps ≡ true
reachable_linked ps start = refl
reachable_linked qs (next r s) = step_linked _ qs s (reachable_linked _ r)

-- Of a list that calls of the functions made from the empty one, whatever their arguments: a read of any
-- register of any PHY returns, so it follows no `phydev` that is `NULL`.
pub Reachable-demo_mdio_read :
    (ps : List Phy) → Reachable ps → (phy_id reg_num : ℕ) → demo_mdio_read phy_id reg_num ps ≢ none
Reachable-demo_mdio_read ps r phy_id reg_num e =
    let (v, (qs, (f, g))) = demo_mdio_read-Ended phy_id reg_num ps (reachable_linked ps r) in
    ground arith
