-- ===== src/DemoBus/State.antt =====
-- Devices of the bus and their resources: demo_device.h. A text is a number, two texts are the same
-- number just when strcmp gives 0, and 0 is the empty text.
use open_device.Base.{
  ℕ, ◌+◌, ◌-◌, Option, none, some, Bool, false, ◌||◌, ◌&&◌, List, [], ◌∷◌, ◌==◌, ℤ, if◌then◌else◌,
}

-- The type bits of a resource's flags.
abbrev pub ioresource_io : ℕ
ioresource_io = 256

abbrev pub ioresource_mem : ℕ
ioresource_mem = 512

-- `struct resource` as the bus reads it; `addr` is its address, which the tree of resources knows.
pub record Resource : Type 0 where
  pub addr : ℕ
  pub name : Option ℕ
  pub start : ℕ
  pub stop : ℕ
  pub kind : ℕ

-- `struct demo_device`; `dev_name`, `parent`, `on_bus` are fields of the device inside it.
pub record DemoDevice : Type 0 where
  pub name : ℕ
  pub id : ℤ
  pub id_entry : Option ℕ
  pub resources : List Resource
  pub dev_name : ℕ
  pub parent : Option ℕ
  pub on_bus : Bool

-- The test under which a failed call releases a resource.
abbrev pub is_released : Resource → Bool
is_released r = (r.kind == ioresource_mem) || (r.kind == ioresource_io)

-- `resource_size`.
abbrev pub resource_size : Resource → ℕ
resource_size r = r.stop - r.start + 1

-- `demo_get_resource_byname`.
unfoldable pub get_resource_byname : List Resource → ℕ → ℕ → Option Resource
get_resource_byname [] type name = none
get_resource_byname (r ∷ rs) type name =
    if elim (r.name) [ none ↦ false | some n ↦ (type == r.kind) && (n == name) ]
    then some r
    else get_resource_byname rs type name

-- `demo_get_resource`; `num` is decremented at a resource of the type.
unfoldable pub get_resource : List Resource → ℕ → ℕ → Option Resource
get_resource [] type num = none
get_resource (r ∷ rs) type num =
    let rest = get_resource rs type (if type == r.kind then num - 1 else num) in
    if (type == r.kind) && (num == 0) then some r else rest
