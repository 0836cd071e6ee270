-- ===== src/Mdio/Probe.antt =====
-- `demo_probe` and `demo_remove` of MDIO_MISC.c: what they take, and what their labels give back.
use open_device.Base.{
  Bool, true, false, not, if◌then◌else◌, Option, none, some, ℤ, ok, is_nonzero, is_negative, enodev,
  ebusy, enomem, einval,
}

-- What the kernel answers: the allocation of `priv`, the misc device, the two resources with their
-- region and mappings, the clock, the pins, the bus and its registration, the search for a PHY.
pub record Grants : Type 0 where
  pub priv_fits : Bool
  pub misc_register : ℤ
  pub io_resource : Bool
  pub io_region : Bool
  pub io_maps : Bool
  pub extclk_resource : Bool
  pub extclk_maps : Bool
  pub clock : Bool
  pub pins : Bool
  pub bus_fits : Bool
  pub bus_register : ℤ
  pub phy_found : Bool

-- What there is. `extclk_region` is the region of the second resource, which this driver never requests.
pub record Held : Type 0 where
  pub priv : Bool
  pub misc_priv : Bool
  pub misc : Bool
  pub io_region : Bool
  pub extclk_region : Bool
  pub base : Bool
  pub extclk : Bool
  pub clk : Bool
  pub bus : Bool

-- The resource that `res` points to.
pub data Resource : Type 0 where
  demo_mdio_io : Resource
  demo_extclk : Resource

-- A return, or a pointer that is followed although it is `NULL`.
pub data Course : Type 0 where
  returns : ℤ → Held → Course
  null_followed : Held → Course

-- The labels: `release_mem_region` takes its bounds from `res`.
abbrev pub out_mem : Option Resource → ℤ → Held → Course
out_mem none ret h = null_followed h
out_mem (some demo_mdio_io) ret h = returns ret (record h { io_region = false })
out_mem (some demo_extclk) ret h = returns ret (record h { extclk_region = false })

abbrev pub out_io : Option Resource → ℤ → Held → Course
out_io res ret h = out_mem res ret (record h { base = false })

abbrev pub out_extclk : Option Resource → ℤ → Held → Course
out_extclk res ret h = out_io res ret (record h { extclk = false })

abbrev pub out_clk : Option Resource → ℤ → Held → Course
out_clk res ret h = out_extclk res ret (record h { clk = false })

-- From the second resource on; `base` is mapped.
unfoldable pub request_clock : Grants → Held → Course
request_clock g h =
    let mapped : Held = record h { extclk = true } in
    let clocked : Held = record mapped { clk = true } in
    if not g.extclk_resource
    then out_io none enodev h
    else if not g.extclk_maps
    then out_io (some demo_extclk) enomem h
    else if not g.clock
    then out_extclk (some demo_extclk) einval mapped
    else if not g.pins
    then out_clk (some demo_extclk) einval clocked
    else returns ok clocked

unfoldable pub platform_resource_request : Grants → Held → Course
unfolding request_clock
platform_resource_request g h =
    let region : Held = record h { io_region = true } in
    if not g.io_resource
    then returns enodev h
    else if not g.io_region
    then returns ebusy h
    else if not g.io_maps
    then out_mem (some demo_mdio_io) enomem region
    else request_clock g (record region { base = true })

unfoldable pub mdio_hardware_init : Grants → Held → ℤ × Held
mdio_hardware_init g h =
    if not g.bus_fits
    then (enomem, h)
    else if is_nonzero g.bus_register
    then (einval, h)
    else (ok, record h { bus = true })

-- `err_free`; `misc_priv` keeps pointing to what was freed.
abbrev pub err_free : Held → Held
err_free h = record h { priv = false }

-- From `mdio_hardware_init` on.
unfoldable pub probe_bus : Grants → Held → Course
unfolding mdio_hardware_init
probe_bus g h =
    let made = mdio_hardware_init g h in
    if is_negative made.0
    then returns made.0 (err_free made.1)
    else if not g.phy_found
    then returns made.0 (err_free made.1)
    else returns ok made.1

unfoldable pub demo_probe : Grants → Held → Course
unfolding probe_bus platform_resource_request
demo_probe g h =
    let n : Held = record h {
      priv = true;
      misc_priv = true;
      misc = not (is_nonzero g.misc_register);
    } in
    if not g.priv_fits then returns enomem h else elim (platform_resource_request g n) [
      | null_followed t ↦ null_followed t
      | returns ret t ↦ if is_negative ret then returns ret (err_free t) else probe_bus g t
    ]

unfoldable pub demo_remove : Held → Held
demo_remove h = record h { clk = false; extclk = false; base = false }
