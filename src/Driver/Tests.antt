-- ===== src/Driver/Tests.antt =====
-- A bus with two drivers: the first takes device 7 only once device 8 is bound, the second takes
-- device 8 at once.
use open_device.Base.{
  ℕ, ◌+◌, subst, ◌≡◌, refl, none, some, true, false, [], ◌∷◌, arith, ◌==◌, if◌then◌else◌, pos, ok,
  is_some, eprobe_defer,
}
use open_device.Driver.State.{
  Core, Platform, ProbeCall, at, notify_unbind, driver_removes, release_all, notify_unbound,
}
use open_device.Driver.Deferred.{
  driver_sysfs_add, driver_bound, attach_to_driver, deferred_probe_add, deferred_probe_del,
  deferred_probe_trigger, driver_sysfs_remove,
}
use open_device.Driver.Probe.{
  really_probe, after_probe, clear_binding, defer_probe, dev_set_drvdata,
}
use open_device.Driver.Attach.{
  for_each_drv, device_attach, try_driver, driver_match_device, driver_probe_device,
  deferred_probe_work, device_release_driver,
}
use open_device.Driver.Outcome.{started, Bound, really_probe-Bound}
use open_device.Driver.Refused.{Refused, really_probe-Refused}
use open_device.Driver.Quiet.{Same-refl, IsQuiet, IsQuietCall}
use open_device.Driver.Work.{Emptied, deferred_probe_work-ends}
use open_device.Driver.Unbind.{Unbound, unbind_calls, device_release_driver-Unbound}
use open_device.Driver.Queue.{Queued, queue-Queued}
use open_device.Driver.Once.{Orderly, AllKeepOrder, KeepsOrder, here, on, attach, Reached-Orderly}
use open_device.Driver.Verdict.{IsFaithful, IsFaithfulCall, Verdict, device_attach-Verdict}

abbrev own_probe : ℕ → ProbeCall
own_probe drv d s =
    (if drv == 1 then (if is_some (s.attached 8) then ok else eprobe_defer) else ok, s)

abbrev serial_bus : Platform
serial_bus = record {
  drivers = 1 ∷ 2 ∷ [];
  matches = some (λ d drv. d == drv + 6);
  bus_probe = none;
  driver_probe = λ drv. some (own_probe drv);
  bus_has_remove = false;
  driver_has_remove = λ drv. true;
  on_bus = λ d. true;
  registered = λ d. true;
  autoprobe = true;
  interfaces = [];
  link_answer = λ n. ok;
  private_fits = true;
}

abbrev idle : Core
idle = record {
  driver = λ d. none;
  attached = λ d. none;
  drvdata = λ d. none;
  has_private = λ d. false;
  dir_link = λ d. false;
  dev_link = λ d. false;
  pending = [];
  active = [];
  enabled = true;
  work_queued = false;
  triggers = 0;
  probes = 0;
  asked = 0;
  events = [];
}

-- Device 7 was deferred before.
abbrev waiting : Core
waiting = record idle { pending = 7 ∷ [] }

eight_binds : (device_attach serial_bus 8 waiting).0 ≡ pos 1
unfolding device_attach for_each_drv try_driver driver_match_device driver_probe_device really_probe
    driver_sysfs_add driver_bound attach_to_driver deferred_probe_del deferred_probe_trigger
    after_probe
eight_binds = refl

seven_is_woken : (device_attach serial_bus 8 waiting).1.active ≡ 7 ∷ []
unfolding device_attach for_each_drv try_driver driver_match_device driver_probe_device really_probe
    driver_sysfs_add driver_bound attach_to_driver deferred_probe_del deferred_probe_trigger
    after_probe
seven_is_woken = refl

seven_is_deferred : (device_attach serial_bus 7 idle).1.pending ≡ 7 ∷ []
unfolding device_attach for_each_drv try_driver driver_match_device driver_probe_device really_probe
    driver_sysfs_add clear_binding defer_probe deferred_probe_add driver_sysfs_remove
    dev_set_drvdata after_probe
seven_is_deferred = refl

accepted_example :
    ((really_probe serial_bus 2 8 waiting).0 ≡ pos 1)
    × Bound 8 (started serial_bus 2 8 waiting) (really_probe serial_bus 2 8 waiting).1
unfolding driver_sysfs_add
accepted_example =
    really_probe-Bound serial_bus 2 8 waiting (started serial_bus 2 8 waiting) refl refl

refused_example :
    ((really_probe serial_bus 1 7 idle).0 ≡ ok)
    × Refused serial_bus 7 0 true (started serial_bus 1 7 idle) (really_probe serial_bus 1 7 idle).1
unfolding driver_sysfs_add
refused_example =
    really_probe-Refused serial_bus 1 7 idle (started serial_bus 1 7 idle) eprobe_defer refl refl
      refl

own_probe_unique : (drv : ℕ) (f : ProbeCall) → some (own_probe drv) ≡ some f → own_probe drv ≡ f
own_probe_unique drv f h = cc

no_probe : (f : ProbeCall) → none ≡ some f → own_probe 0 ≡ f
no_probe f h = cc

serial_bus-IsQuiet : IsQuiet serial_bus
serial_bus-IsQuiet = record {
  bus = λ f h. subst IsQuietCall (no_probe f h) (λ d s. Same-refl s);
  driver = λ drv f h. subst IsQuietCall (own_probe_unique drv f h) (λ d s. Same-refl s);
}

serial_bus-IsFaithful : IsFaithful serial_bus
serial_bus-IsFaithful = record {
  bus = λ f h. subst IsFaithfulCall (no_probe f h) (λ d s. refl);
  driver = λ drv f h. subst IsFaithfulCall (own_probe_unique drv f h) (λ d s. refl);
}

attach_example : Verdict 8 (device_attach serial_bus 8 waiting)
attach_example = device_attach-Verdict serial_bus 8 waiting serial_bus-IsFaithful

abbrev to_do : Core
to_do = record idle { active = 7 ∷ 8 ∷ [] }

ends_example : Emptied (deferred_probe_work serial_bus 8 to_do)
ends_example = deferred_probe_work-ends serial_bus 8 to_do serial_bus-IsQuiet (omega arith)

-- Device 8 bound to driver 2.
abbrev eight_bound : Core
eight_bound = record idle {
  driver = at idle.driver 8 (some 2);
  attached = at idle.attached 8 (some 2);
}

release_example :
    Unbound serial_bus 2 8 eight_bound (device_release_driver serial_bus 8 eight_bound)
release_example = device_release_driver-Unbound serial_bus 2 8 eight_bound refl

calls_of_eight :
    unbind_calls serial_bus 2 8
    ≡ notify_unbind 8 ∷ driver_removes 2 8 ∷ release_all 8 ∷ notify_unbound 8 ∷ []
calls_of_eight = refl

queue_of_waiting : Queued 7 waiting
queue_of_waiting = queue-Queued 7 waiting

serial_bus-AllKeepOrder : AllKeepOrder serial_bus
serial_bus-AllKeepOrder = record {
  bus = λ f h. subst KeepsOrder (no_probe f h) (λ d s o. o);
  driver = λ drv f h. subst KeepsOrder (own_probe_unique drv f h) (λ d s o. o);
}

waiting-Orderly : Orderly waiting
waiting-Orderly d = ground arith

queue_after_attach : Orderly (device_attach serial_bus 8 waiting).1
queue_after_attach =
    Reached-Orderly serial_bus serial_bus-AllKeepOrder waiting
      (device_attach serial_bus 8 waiting).1 waiting-Orderly (on here (attach 8))
