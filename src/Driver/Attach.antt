-- ===== src/Driver/Attach.antt =====
-- Finding a driver for a device, releasing it, and the work that retries the deferred devices: driver.c
-- and the iterator of bus.c.
use mathlib.Core.List.{map}
use open_device.Base.{
  ℕ, zero, suc, Option, none, some, is_some, Bool, true, not, ◌&&◌, List, [], ◌∷◌, ◌++◌,
  if◌then◌else◌, ℤ, pos, ok, is_nonzero, enodev, einval,
}
use open_device.Driver.State.{
  Core, Platform, at, call, notify_unbind, notify_unbound, bus_removes, driver_removes, release_all,
  add_interface,
}
use open_device.Driver.Deferred.{device_bind_driver, driver_sysfs_remove}
use open_device.Driver.Probe.{really_probe, dev_set_drvdata}

unfoldable pub driver_match_device : Platform → ℕ → ℕ → Bool
driver_match_device p drv d = elim (p.matches) [ none ↦ true | some f ↦ f d drv ]

unfoldable pub driver_probe_device : Platform → ℕ → ℕ → Core → ℤ × Core
driver_probe_device p drv d s = if not (p.registered d) then (enodev, s) else really_probe p drv d s

-- `__demo_device_attach`.
unfoldable pub try_driver : Platform → ℕ → ℕ → Core → ℤ × Core
unfolding driver_match_device driver_probe_device
try_driver p drv d s =
    if not (driver_match_device p drv d) then (ok, s) else driver_probe_device p drv d s

-- `demo_bus_for_each_drv` with that function: the loop ends at the first result that is not 0.
unfoldable pub for_each_drv : Platform → ℕ → List ℕ → Core → ℤ × Core
for_each_drv p d [] s = (ok, s)
for_each_drv p d (drv ∷ rest) s =
    let o : ℤ × Core = try_driver p drv d s in
    let further : ℤ × Core = for_each_drv p d rest o.1 in if is_nonzero o.0 then o else further

-- The device already names a driver: it is bound, whether or not it is in the driver's list.
unfoldable pub rebind : Platform → ℕ → Core → ℤ × Core
rebind p d s =
    let (ret, t) = device_bind_driver p d s in
    if is_nonzero ret then (ok, record t { driver = at t.driver d none }) else (pos 1, t)

unfoldable pub device_attach : Platform → ℕ → Core → ℤ × Core
unfolding rebind
device_attach p d s =
    if is_some (s.driver d)
    then rebind p d s
    else if p.on_bus d
    then for_each_drv p d p.drivers s
    else (einval, s)

unfoldable pub bus_probe_device : Platform → ℕ → Core → Core
bus_probe_device p d s =
    if p.on_bus d
    then (let t : Core = if p.autoprobe then (device_attach p d s).1 else s in
        record t { events = t.events ++ map (add_interface d) p.interfaces })
    else s

-- `demo_deferred_probe_work_func`, on fuel; `none` is fuel that ran out.
unfoldable pub deferred_probe_work : Platform → ℕ → Core → Option Core
deferred_probe_work p zero s = none
deferred_probe_work p (suc fuel) s = elim (s.active) [
  | [] ↦ some s
  | d ∷ rest ↦ deferred_probe_work p fuel (bus_probe_device p d (record s { active = rest }))
]

-- `__demo_device_release_driver` for a device that has driver `drv`.
unfoldable pub release_bound : Platform → ℕ → ℕ → Core → Core
release_bound p drv d s =
    let s1 : Core = driver_sysfs_remove d s in
    let s2 : Core = if p.on_bus d then call (notify_unbind d) s1 else s1 in
    let s3 : Core =
      if p.on_bus d && p.bus_has_remove
      then call (bus_removes d) s2
      else if p.driver_has_remove drv
      then call (driver_removes drv d) s2
      else s2 in
    let s4 : Core = call (release_all d) s3 in
    let s5 : Core = (dev_set_drvdata p d none (record s4 { driver = at s4.driver d none })).1 in
    let s6 : Core = record s5 { attached = at s5.attached d none } in
    if p.on_bus d then call (notify_unbound d) s6 else s6

unfoldable pub device_release_driver : Platform → ℕ → Core → Core
unfolding release_bound
device_release_driver p d s = elim (s.driver d) [ none ↦ s | some drv ↦ release_bound p drv d s ]
