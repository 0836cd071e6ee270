-- ===== src/DemoBus/Match.antt =====
-- Matching a device with a driver, and looking a resource up, with what they find.
use open_device.Base.{
  ℕ, zero, suc, ◌-◌, ◌≡◌, refl, Option, none, some, is_some, Bool, true, false, List, [], ◌∷◌, ◌==◌,
  if◌then◌else◌, has, get_elem?, arith, ap,
}
use open_device.DemoBus.State.{DemoDevice, Resource, get_resource}

-- `demo_match_id`: the position of the entry; the table ends at an empty name.
unfoldable pub match_id : List ℕ → ℕ → Option ℕ
match_id [] name = none
match_id (id ∷ ids) name =
    let rest = match_id ids name in
    if id == 0
    then none
    else if name == id
    then some 0
    else elim rest [ none ↦ none | some i ↦ some (suc i) ]

-- `demo_match`, with the device as it leaves it. `drv_name` is the driver's name.
unfoldable pub demo_match : Option (List ℕ) → ℕ → DemoDevice → Bool × DemoDevice
demo_match none drv_name d = (d.name == drv_name, d)
demo_match (some table) drv_name d =
    let found = match_id table d.name in
    elim found [ none ↦ (false, d) | some i ↦ (true, record d { id_entry = some i }) ]

-- The names of a table up to the empty one.
abbrev pub listed_names : List ℕ → List ℕ
listed_names [] = []
listed_names (id ∷ ids) = if id == 0 then [] else id ∷ listed_names ids

-- The resources of a type.
abbrev pub of_kind : ℕ → List Resource → List Resource
of_kind type [] = []
of_kind type (r ∷ rs) = if type == r.kind then r ∷ of_kind type rs else of_kind type rs

match_id-has : (ids : List ℕ) (name : ℕ) → is_some (match_id ids name) ≡ has name (listed_names ids)
unfolding match_id
match_id-has [] name = refl
match_id-has (id ∷ ids) name = ground (arith, match_id-has ids name)

-- The position that `match_id` finds is that of the name in the table.
match_id-entry :
    (ids : List ℕ) (name i : ℕ) → match_id ids name ≡ some i → get_elem? ids i ≡ some name
unfolding match_id
match_id-entry [] name i h = ground arith
match_id-entry (id ∷ ids) name i h = grind (arith, match_id-entry ids name)

-- A driver with a table of names matches a device just when the table, up to its empty name, has the
-- device's name; a driver without one, just when it has the same name.
pub demo_match-has :
    (table : Option (List ℕ)) (drv_name : ℕ) (d : DemoDevice)
    → (demo_match table drv_name d).0
      ≡ (elim table [ none ↦ d.name == drv_name | some ids ↦ has d.name (listed_names ids) ])
unfolding demo_match
demo_match-has none drv_name d = refl
demo_match-has (some ids) drv_name d = ground (arith, match_id-has ids d.name)

-- Looking a resource up by its number among those of its type is indexing the list of the resources
-- of that type.
pub get_resource-of_kind :
    (rs : List Resource) (type num : ℕ) → get_resource rs type num ≡ get_elem? (of_kind type rs) num
unfolding get_resource
get_resource-of_kind [] type num = refl
get_resource-of_kind (r ∷ rs) type zero = ground (arith, get_resource-of_kind rs type 0)
get_resource-of_kind (r ∷ rs) type (suc num) =
    let e : suc num - 1 ≡ num = omega arith in
    ground (
      arith,
      ap (get_resource rs type) e,
      get_resource-of_kind rs type num,
      get_resource-of_kind rs type (suc num),
    )
