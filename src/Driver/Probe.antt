-- ===== src/Driver/Probe.antt =====
-- `demo_really_probe` of driver.c.
use open_device.Base.{
  ℕ, ◌+◌, ◌-◌, ◌%◌, ◌^◌, Option, none, some, true, ◌||◌, ◌==◌, if◌then◌else◌, ℤ, pos, ok,
  is_nonzero, eq_ret, enomem, eprobe_defer,
}
use open_device.Driver.State.{Core, Platform, at, call, release_all}
use open_device.Driver.Deferred.{
  driver_sysfs_add, driver_sysfs_remove, driver_bound, deferred_probe_add, deferred_probe_trigger,
  next_count,
}

unfoldable pub dev_set_drvdata : Platform → ℕ → Option ℕ → Core → ℤ × Core
dev_set_drvdata p d v s =
    if s.has_private d || p.private_fits
    then (ok, record s { has_private = at s.has_private d true; drvdata = at s.drvdata d v })
    else (enomem, s)

-- The label `probe_failed`, up to the tests of the result.
unfoldable pub clear_binding : Platform → ℕ → Core → Core
clear_binding p d s =
    let t : Core = driver_sysfs_remove d (call (release_all d) s) in
    (dev_set_drvdata p d none (record t { driver = at t.driver d none })).1

-- The probe asked to be deferred; `seen` is the trigger count from before the probe.
unfoldable pub defer_probe : ℕ → ℕ → Core → Core
defer_probe d seen s =
    let t : Core = deferred_probe_add d s in
    if seen == t.triggers then t else deferred_probe_trigger t

-- `bus->probe`, else the driver's, else none.
abbrev pub run_probe : Platform → ℕ → ℕ → Core → ℤ × Core
run_probe p drv d s = elim (p.bus_probe) [
  | some f ↦ f d s
  | none ↦ elim (p.driver_probe drv) [ some f ↦ f d s | none ↦ (ok, s) ]
]

abbrev pub count_down : ℕ → ℕ
count_down n = (n + 2 ^ 32 - 1) % 2 ^ 32

-- The label `done`.
abbrev pub probe_done : Core → Core
probe_done s = record s { probes = count_down s.probes }

-- From the result of the probe on. `seen` is the trigger count from before the probe.
unfoldable pub after_probe : Platform → ℕ → ℕ → ℤ × Core → ℤ × Core
after_probe p d seen (ret, s) =
    if is_nonzero ret
    then (let t : Core = clear_binding p d s in
        (ok, probe_done (if eq_ret ret eprobe_defer then defer_probe d seen t else t)))
    else (pos 1, probe_done (driver_bound p d s))

-- `driver_sysfs_add` returns 0 always, so its error path is not taken; it is kept as it stands.
unfoldable pub really_probe : Platform → ℕ → ℕ → Core → ℤ × Core
unfolding after_probe
really_probe p drv d s =
    let (ret, t) =
      driver_sysfs_add p d
        (record s { probes = next_count s.probes; driver = at s.driver d (some drv) }) in
    if is_nonzero ret
    then (ok, probe_done (clear_binding p d t))
    else after_probe p d s.triggers (run_probe p drv d t)
