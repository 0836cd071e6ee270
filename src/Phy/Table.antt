-- ===== src/Phy/Table.antt =====
-- The list of software PHYs seen as a table: which PHY answers to an identifier. The list may hold an
-- identifier twice; the table forgets what is behind the first one, and the order.
use open_device.Base.{
  ℕ, ◌≡◌, ◌∙◌, refl, sym, ◌⊎◌, Option-cases, ap, fun_ext, true, false, not, ◌==◌, ltb,
  if◌then◌else◌, Option, none, some, List, [], ◌∷◌, ◌++◌, ℤ, pos, negsuc, ok, enoent, Bool-cases,
  inl, inr, arith,
}
use open_device.Phy.Regs.{Status, update_regs}
use open_device.Phy.Bus.{Phydev, LinkUpdate, Phy, refresh, read_walk, mii_regs_num, set_walk}

abbrev pub Table : Type 0
Table = ℕ → Option Phy

-- A table with one more PHY in front.
abbrev pub before : Phy → Table → Table
before p t i = if p.id == i then some p else t i

unfoldable pub table : List Phy → Table
table [] i = none
table (p ∷ ps) i = before p (table ps) i

abbrev pub replace : ℕ → Phy → Table → Table
replace id q t i = if i == id then some q else t i

-- A read of the table: the PHY that was found, refreshed.
abbrev pub answer : ℕ → ℕ → Table → Option Phy → Option (ℤ × Table)
answer phy_id reg_num t none = none
answer phy_id reg_num t (some q) = some (pos (q.regs reg_num), replace phy_id q t)

abbrev pub look : ℕ → ℕ → Table → Option Phy → Option (ℤ × Table)
look phy_id reg_num t none = some (pos 0xffff, t)
look phy_id reg_num t (some p) = answer phy_id reg_num t (refresh p)

abbrev pub table_read : ℕ → ℕ → Table → Option (ℤ × Table)
table_read phy_id reg_num t =
    if not (ltb reg_num mii_regs_num) then some (negsuc 0, t) else look phy_id reg_num t (t phy_id)

abbrev pub choose : LinkUpdate → Phydev → Table → Option Phy → ℤ × Table
choose f d t none = (enoent, t)
choose f d t (some p) =
    (ok, replace d.phy_id (record p { link_update = some f; phydev = some d }) t)

abbrev pub table_set : LinkUpdate → Phydev → Table → ℤ × Table
table_set f d t = choose f d t (t d.phy_id)

-- An addition to the table is seen only if the identifier is new.
abbrev pub table_add : Phy → Table → Table
table_add p t i = elim (t i) [ none ↦ if p.id == i then some p else none | some q ↦ some q ]

-- A result over the list, seen as one over the table.
abbrev pub seen : Option (ℤ × List Phy) → Option (ℤ × Table)
seen none = none
seen (some (v, ps)) = some (v, table ps)

abbrev pub shown : Phy → Option (ℤ × Table) → Option (ℤ × Table)
shown p none = none
shown p (some (v, t)) = some (v, before p t)

-- A refreshed PHY keeps its identifier.
refresh_cases :
    (p : Phy) → (refresh p ≡ none) ⊎ ((q : Phy) × ((refresh p ≡ some q) × (q.id ≡ p.id)))
unfolding refresh
refresh_cases p = elim (Option-cases p.link_update) [
  | inl e ↦ inr (p, (ground arith, refl))
  | inr (f, e) ↦ elim (Option-cases p.phydev) [
    | inl g ↦ inl (ground arith)
    | inr (d, g) ↦
        let s : Status = (f d.attached_dev p.status).1 in
        inr (record p { status = s; regs = (update_regs p.id s p.regs).1 }, (ground arith, refl))
  ]
]

-- Replacing the first PHY, in the list and in the table.
replace_front :
    (id : ℕ) (p q : Phy) (t : Table)
    → p.id ≡ id
    → q.id ≡ id
    → before q t ≡ replace id q (before p t)
replace_front id p q t e f = fun_ext (λ i. ground arith)

-- Replacing behind the first PHY.
replace_behind :
    (id : ℕ) (p q : Phy) (t : Table)
    → (p.id == id) ≡ false
    → before p (replace id q t) ≡ replace id q (before p t)
replace_behind id p q t e = fun_ext (λ i. ground arith)

-- What is in front of the PHY that is read does not matter.
answer-before :
    (phy_id reg_num : ℕ) (p : Phy) (t : Table) (o : Option Phy)
    → (p.id == phy_id) ≡ false
    → shown p (answer phy_id reg_num t o) ≡ answer phy_id reg_num (before p t) o
answer-before phy_id reg_num p t none e = refl
answer-before phy_id reg_num p t (some q) e =
    ap (λ u. some (pos (q.regs reg_num), u)) (replace_behind phy_id p q t e)

look-before :
    (phy_id reg_num : ℕ) (p : Phy) (t : Table) (o : Option Phy)
    → (p.id == phy_id) ≡ false
    → shown p (look phy_id reg_num t o) ≡ look phy_id reg_num (before p t) o
look-before phy_id reg_num p t none e = refl
look-before phy_id reg_num p t (some q) e = answer-before phy_id reg_num p t (refresh q) e

read_walk-first :
    (phy_id reg_num : ℕ) (p : Phy) (ps : List Phy)
    → (p.id == phy_id) ≡ true
    → seen (read_walk phy_id reg_num (p ∷ ps)) ≡ look phy_id reg_num (table (p ∷ ps)) (some p)
unfolding read_walk table
read_walk-first phy_id reg_num p ps e = elim (refresh_cases p) [
  | inl f ↦ ground arith
  | inr (q, (f, g)) ↦
      let same : table (q ∷ ps) ≡ replace phy_id q (table (p ∷ ps)) =
        replace_front phy_id p q (table ps) (ground arith) (ground arith) in
      let walked : seen (read_walk phy_id reg_num (p ∷ ps))
          ≡ some (pos (q.regs reg_num), table (q ∷ ps)) =
        ground arith in
      walked
      ∙ ap (λ t. some (pos (q.regs reg_num), t)) same
      ∙ ap (answer phy_id reg_num (table (p ∷ ps))) (sym f)
]

-- A walk over the list of which the rest is a walk.
read_walk-behind :
    (phy_id reg_num : ℕ) (p : Phy) (ps : List Phy)
    → (p.id == phy_id) ≡ false
    → seen (read_walk phy_id reg_num (p ∷ ps)) ≡ shown p (seen (read_walk phy_id reg_num ps))
unfolding read_walk table
read_walk-behind phy_id reg_num p ps e = elim (Option-cases (read_walk phy_id reg_num ps)) [
  | inl f ↦ ground arith
  | inr (o, f) ↦ ground arith
]

pub read_walk-look :
    (phy_id reg_num : ℕ) (ps : List Phy)
    → seen (read_walk phy_id reg_num ps) ≡ look phy_id reg_num (table ps) (table ps phy_id)
unfolding read_walk table
read_walk-look phy_id reg_num [] = refl
read_walk-look phy_id reg_num (p ∷ ps) = elim (Bool-cases (p.id == phy_id)) [
  | inl e ↦
      let there : some p ≡ table (p ∷ ps) phy_id = ground arith in
      read_walk-first phy_id reg_num p ps e ∙ ap (look phy_id reg_num (table (p ∷ ps))) there
  | inr e ↦
      let there : table ps phy_id ≡ table (p ∷ ps) phy_id = ground arith in
      read_walk-behind phy_id reg_num p ps e
      ∙ ap (shown p) (read_walk-look phy_id reg_num ps)
      ∙ look-before phy_id reg_num p (table ps) (table ps phy_id) e
      ∙ ap (look phy_id reg_num (table (p ∷ ps))) there
]

abbrev pub set_seen : ℤ × List Phy → ℤ × Table
set_seen (v, ps) = (v, table ps)

abbrev pub set_shown : Phy → ℤ × Table → ℤ × Table
set_shown p (v, t) = (v, before p t)

choose-before :
    (f : LinkUpdate) (d : Phydev) (p : Phy) (t : Table) (o : Option Phy)
    → (p.id == d.phy_id) ≡ false
    → set_shown p (choose f d t o) ≡ choose f d (before p t) o
choose-before f d p t none e = refl
choose-before f d p t (some q) e =
    ap (λ u. (ok, u))
      (replace_behind d.phy_id p (record q { link_update = some f; phydev = some d }) t e)

pub set_walk-table :
    (f : LinkUpdate) (d : Phydev) (ps : List Phy)
    → set_seen (set_walk f d ps) ≡ table_set f d (table ps)
unfolding set_walk table
set_walk-table f d [] = refl
set_walk-table f d (p ∷ ps) =
    let q : Phy = record p { link_update = some f; phydev = some d } in
    elim (Bool-cases (p.id == d.phy_id)) [
      | inl e ↦
          let there : some p ≡ table (p ∷ ps) d.phy_id = ground arith in
          let walked : set_seen (set_walk f d (p ∷ ps)) ≡ (ok, table (q ∷ ps)) = ground arith in
          walked
          ∙ ap (λ t. (ok, t)) (replace_front d.phy_id p q (table ps) (ground arith) (ground arith))
          ∙ ap (choose f d (table (p ∷ ps))) there
      | inr e ↦
          let there : table ps d.phy_id ≡ table (p ∷ ps) d.phy_id = ground arith in
          let walked : set_seen (set_walk f d (p ∷ ps)) ≡ set_shown p (set_seen (set_walk f d ps)) =
            ground arith in
          walked
          ∙ ap (set_shown p) (set_walk-table f d ps)
          ∙ choose-before f d p (table ps) (table ps d.phy_id) e
          ∙ ap (choose f d (table (p ∷ ps))) there
    ]

pub appended_table : (p : Phy) (ps : List Phy) → table (ps ++ p ∷ []) ≡ table_add p (table ps)
unfolding table
appended_table p [] = fun_ext (λ i. refl)
appended_table p (q ∷ ps) =
    fun_ext (λ i. ap (λ (t : Table). before q t i) (appended_table p ps) ∙ ground arith)
