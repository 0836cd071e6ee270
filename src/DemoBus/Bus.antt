-- ===== src/DemoBus/Bus.antt =====
-- The start and the end of the demonstration bus, its drivers, and the module of resource.c.
use open_device.Base.{
  ◌≡◌, refl, Option, none, some, Bool, true, false, if◌then◌else◌, ℤ, ok, is_nonzero, arith,
}

-- What is registered of the bus: the root device and the bus type.
pub record BusParts : Type 0 where
  pub root : Bool
  pub bus_type : Bool

abbrev pub no_bus : BusParts
no_bus = record { root = false; bus_type = false }

-- `demo_bus_init`, with what `device_register` and `bus_register` return.
unfoldable pub demo_bus_init : ℤ → ℤ → ℤ × BusParts
demo_bus_init device bus =
    if is_nonzero device
    then (device, no_bus)
    else if is_nonzero bus
    then (bus, record no_bus { root = false })
    else (ok, record no_bus { root = true; bus_type = true })

unfoldable pub demo_bus_exit : BusParts → BusParts
demo_bus_exit b = record b { root = false; bus_type = false }

-- `struct demo_driver`: the functions of the driver, and those of the driver core's structure inside it.
pub record DemoDriver : Type 0 where
  pub probe : Option ℤ
  pub remove : Option ℤ
  pub on_demo_bus : Bool
  pub core_probe : Bool
  pub core_remove : Bool

-- `demo_driver_register` before its call of `driver_register`: the common functions are set for those
-- that the driver has.
unfoldable pub demo_driver_register : DemoDriver → DemoDriver
demo_driver_register d = record d {
  on_demo_bus = true;
  core_probe = elim (d.probe) [ none ↦ d.core_probe | some _ ↦ true ];
  core_remove = elim (d.remove) [ none ↦ d.core_remove | some _ ↦ true ];
}

-- `demo_drv_probe` and `demo_drv_remove`, by what the driver's function returns; none is a call of a
-- null pointer.
unfoldable pub demo_drv_probe : DemoDriver → Option ℤ
demo_drv_probe d = d.probe

unfoldable pub demo_drv_remove : DemoDriver → Option ℤ
demo_drv_remove d = d.remove

-- The bus is registered whole, with the result 0, or not at all, and its end takes all of it back.
pub demo_bus_init-all_or_nothing :
    (device bus : ℤ)
    → let o : ℤ × BusParts = demo_bus_init device bus in
      ((is_nonzero o.0 ≡ false → (o.1.root ≡ true) × (o.1.bus_type ≡ true))
        × (is_nonzero o.0 ≡ true → o.1 ≡ no_bus))
      × (demo_bus_exit o.1 ≡ no_bus)
unfolding demo_bus_init demo_bus_exit
demo_bus_init-all_or_nothing device bus =
    (((λ h. (ground arith, ground arith)), (λ h. ground arith)), refl)

calls :
    (f : Option ℤ) (was : Bool)
    → was ≡ false
    → (let now : Bool = elim f [ none ↦ was | some _ ↦ true ] in now) ≡ true
    → (n : ℤ) × (f ≡ some n)
calls none was h e = absurd (ground arith)
calls (some n) was h e = (n, refl)

-- Where the core calls a common function of a registered driver, the driver has the function: the call
-- through it follows no null pointer.
pub demo_driver_register-calls :
    (d : DemoDriver)
    → d.core_probe ≡ false
    → d.core_remove ≡ false
    → let e : DemoDriver = demo_driver_register d in
      (e.core_probe ≡ true → (n : ℤ) × (demo_drv_probe e ≡ some n))
      × (e.core_remove ≡ true → (n : ℤ) × (demo_drv_remove e ≡ some n))
unfolding demo_driver_register demo_drv_probe demo_drv_remove
demo_driver_register-calls d p r = (calls d.probe d.core_probe p, calls d.remove d.core_remove r)
