-- ===== src/Device/Uevent.antt =====
-- The path of a device's node and the variables of its uevents, `demo_device_get_devnode` and
-- `demo_uevent` of device.c. A text is the list of its characters.
use open_device.Base.{
  ℕ, zero, suc, ◌+◌, Option, none, some, is_some, Bool, not, List, [], ◌∷◌, ◌++◌, ◌==◌,
  if◌then◌else◌, has, length, ℤ, ok, bit_and,
}

-- A text that a callback made, and the mode that it left.
abbrev pub NodeCall : Type 0
NodeCall = ℕ → Option (List ℕ) × ℕ

pub data Variable : Type 0 where
  major minor : Variable
  devname : List ℕ → Variable
  devmode : ℕ → Variable
  devtype : List ℕ → Variable
  driver_name : List ℕ → Variable
  other : ℕ → Variable

-- `uevent` of a bus or a type: it may add variables.
abbrev pub UeventCall : Type 0
UeventCall = List Variable → ℤ × List Variable

-- What the two functions read of a device, its type, class, bus and driver; whether `kstrdup` finds
-- memory.
pub record Described : Type 0 where
  pub dev_name : List ℕ
  pub has_major : Bool
  pub type_devnode : Option NodeCall
  pub class_devnode : Option NodeCall
  pub type_name : Option (List ℕ)
  pub driver : Option (List ℕ)
  pub bus_uevent : Option UeventCall
  pub type_uevent : Option UeventCall
  pub copy_fits : Bool

-- `s = strchr(*tmp, '!')` with `s[0] = '/'`; `none` is no such character.
unfoldable pub replace_first : List ℕ → Option (List ℕ)
replace_first [] = none
replace_first (c ∷ cs) =
    let rest = replace_first cs in
    if c == 33 then some (47 ∷ cs) else elim rest [ none ↦ none | some ds ↦ some (c ∷ ds) ]

-- The `while` loop, on fuel.
unfoldable pub replace_loop : ℕ → List ℕ → Option (List ℕ)
replace_loop zero s = none
replace_loop (suc fuel) s = elim (replace_first s) [ none ↦ some s | some t ↦ replace_loop fuel t ]

-- A result of the function: the name, what `tmp` points to, the mode.
pub record Devnode : Type 0 where
  pub name : Option (List ℕ)
  pub tmp : Option (List ℕ)
  pub mode : ℕ

abbrev pub from_call : Option NodeCall → ℕ → Option (List ℕ) × ℕ
from_call none mode = (none, mode)
from_call (some f) mode = f mode

-- From the search for a '!' on.
unfoldable pub own_name : Described → ℕ → Devnode
own_name d mode =
    if not (has 33 d.dev_name)
    then record { name = some d.dev_name; tmp = none; mode = mode }
    else if not d.copy_fits
    then record { name = none; tmp = none; mode = mode }
    else (let t = replace_loop (length d.dev_name + 1) d.dev_name in
        record { name = t; tmp = t; mode = mode })

unfoldable pub device_get_devnode : Described → ℕ → Devnode
unfolding own_name
device_get_devnode d mode =
    let (t, mode1) = from_call d.type_devnode mode in
    let (c, mode2) = from_call d.class_devnode mode1 in
    if is_some t
    then record { name = t; tmp = t; mode = mode1 }
    else if is_some c
    then record { name = c; tmp = c; mode = mode2 }
    else own_name d mode2

-- The variables of the node.
unfoldable pub node_variables : Described → List Variable
unfolding device_get_devnode
node_variables d =
    let node = device_get_devnode d 0 in
    if d.has_major
    then major ∷ minor ∷ elim (node.name) [
      | none ↦ []
      | some n ↦ devname n ∷ (if node.mode == 0 then [] else devmode (bit_and node.mode 511) ∷ [])
    ]
    else []

abbrev pub from_uevent : Option UeventCall → ℤ × List Variable → ℤ × List Variable
from_uevent none o = o
from_uevent (some f) o = f o.1

-- `demo_uevent`, on the variables that are there before.
unfoldable pub uevent : Described → List Variable → ℤ × List Variable
unfolding node_variables
uevent d env =
    let added : List Variable =
      env
      ++ node_variables d
      ++ elim (d.type_name) [ none ↦ [] | some n ↦ devtype n ∷ [] ]
      ++ elim (d.driver) [ none ↦ [] | some n ↦ driver_name n ∷ [] ] in
    from_uevent d.type_uevent (from_uevent d.bus_uevent (ok, added))
