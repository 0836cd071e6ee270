-- ===== src/Device/Startup.antt =====
-- The start of the core, `demo_core_init` of core.c with `demo_device_init`, `demo_buses_init` and
-- `demo_classes_init`, the directories of core.c and class.c, and the module that registers one device.
use open_device.Base.{
  ℕ, ◌≡◌, Bool, true, false, not, ◌&&◌, ◌||◌, if◌then◌else◌, ℤ, ok, enomem, is_negative, arith,
  Option, none, some,
}

-- Which ksets can be made, and which there are.
pub record Ksets : Type 0 where
  pub devices : Bool
  pub buses : Bool
  pub system : Bool
  pub classes : Bool

-- A return, or the use of a member of a kset that is `NULL` as a parent.
pub data Start : Type 0 where
  returned : ℤ → Ksets → Start
  wild_parent : Ksets → Start

unfoldable pub device_init : Ksets → Ksets → ℤ × Ksets
device_init fits k = if fits.devices then (ok, record k { devices = true }) else (enomem, k)

unfoldable pub buses_init : Ksets → Ksets → Start
buses_init fits k =
    let with_bus : Ksets = record k { buses = true } in
    if not fits.buses
    then returned enomem k
    else if not k.devices
    then wild_parent with_bus
    else if not fits.system
    then returned enomem with_bus
    else returned ok (record with_bus { system = true })

unfoldable pub classes_init : Ksets → Ksets → ℤ × Ksets
classes_init fits k = if fits.classes then (ok, record k { classes = true }) else (enomem, k)

-- `demo_core_init`.
unfoldable pub core_init : Ksets → Ksets → Start
unfolding device_init buses_init classes_init
core_init fits k = elim (buses_init fits (device_init fits k).1) [
  | wild_parent t ↦ wild_parent t
  | returned _ t ↦ returned ok (classes_init fits t).1
]

-- `demo_virtual_device_parent`: the directory that is made once; `made` is what there is of it.
unfoldable pub virtual_device_parent : Bool → Bool → Bool
virtual_device_parent fits made = made || fits

-- `demo_class_dir_create_and_add`: the directory, or `NULL`, and how many structures it leaves allocated.
unfoldable pub class_dir_create_and_add : Bool → ℤ → Bool × ℕ
class_dir_create_and_add fits add =
    if not fits then (false, 0) else if is_negative add then (false, 0) else (true, 1)

-- What `demo_a_device_init` leaves: the structure, its name, whether it is in the hierarchy.
pub record OneDevice : Type 0 where
  pub dev : Bool
  pub init_name : Bool
  pub in_hierarchy : Bool

-- The labels.
abbrev pub err_alloc2 : OneDevice → OneDevice
err_alloc2 o = record o { dev = false }

abbrev pub err_register : OneDevice → OneDevice
err_register o = err_alloc2 (record o { init_name = false })

-- With the two allocations and the result of the registration; a success is unregistered at once.
unfoldable pub a_device_init : Bool → Bool → ℤ → OneDevice → ℤ × OneDevice
a_device_init dev_fits name_fits register o =
    let with_dev : OneDevice = record o { dev = true } in
    let named : OneDevice = record with_dev { init_name = true } in
    if not dev_fits
    then (enomem, o)
    else if not name_fits
    then (enomem, err_alloc2 with_dev)
    else if is_negative register
    then (register, err_register named)
    else (register, record named { in_hierarchy = false })

abbrev pub no_ksets : Ksets
no_ksets = record { devices = false; buses = false; system = false; classes = false }

abbrev pub ksets_of : Start → Ksets
ksets_of (returned ret k) = k
ksets_of (wild_parent k) = k

abbrev pub result_of : Start → Option ℤ
result_of (returned ret k) = some ret
result_of (wild_parent k) = none

-- The start of the core with no ksets: it returns 0 whatever cannot be made, unless the kset of the devices
-- is missing when that of the buses is made; the kset of the system directory is made behind those two.
pub record Started (fits : Ksets) (s : Start) : Type 0 where
  pub result : result_of s ≡ (if fits.buses && not fits.devices then none else some ok)
  pub devices : (ksets_of s).devices ≡ fits.devices
  pub buses : (ksets_of s).buses ≡ fits.buses
  pub system : (ksets_of s).system ≡ (fits.devices && (fits.buses && fits.system))

pub core_init-Started : (fits : Ksets) → Started fits (core_init fits no_ksets)
unfolding core_init buses_init device_init classes_init
core_init-Started fits = record {
  result = ground arith;
  devices = ground arith;
  buses = ground arith;
  system = ground arith;
}
