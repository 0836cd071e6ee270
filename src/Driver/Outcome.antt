-- ===== src/Driver/Outcome.antt =====
-- What `demo_really_probe` makes of the result of a probe.
use open_device.Base.{
  ℕ, ◌≡◌, refl, sym, subst, ◌∙◌, ap, Option, none, some, is_some, true, false, ◌||◌, [], ◌++◌,
  arith, if◌then◌else◌, has-append, if_cases, ℤ, pos, ok,
}
use open_device.Driver.State.{Core, Platform, Event, at, call, notify_bound}
use open_device.Driver.Deferred.{
  unlink, is_deferred, deferred_probe_del, deferred_probe_trigger, next_count, driver_sysfs_add,
  driver_bound, attach_to_driver,
}
use open_device.Driver.Probe.{really_probe, run_probe, after_probe, probe_done}
use open_device.Driver.Lists.{has-unlink, unlinked, deferred_probe_del_lem, spliced}

-- The state in which the probe function is called.
abbrev pub started : Platform → ℕ → ℕ → Core → Core
started p drv d s =
    (driver_sysfs_add p d
      (record s { probes = next_count s.probes; driver = at s.driver d (some drv) })).1

pub really_probe-after :
    (p : Platform) (drv d : ℕ) (s : Core)
    → really_probe p drv d s ≡ after_probe p d s.triggers (run_probe p drv d (started p drv d s))
unfolding really_probe driver_sysfs_add
really_probe-after p drv d s = refl

-- The device is in the list of its driver and in no list of deferred probes; if retries are enabled,
-- every other deferred device waits in the active list and the work is queued.
pub record Bound (d : ℕ) (t u : Core) : Type 0 where
  pub driver : u.driver d ≡ t.driver d
  pub attached : u.attached d ≡ t.driver d
  pub not_deferred : is_deferred d u ≡ false
  pub pending : u.pending ≡ (if t.enabled then [] else unlink d t.pending)
  pub active :
      u.active ≡ (if t.enabled then unlink d t.active ++ unlink d t.pending else unlink d t.active)
  pub queued : u.work_queued ≡ (t.enabled || t.work_queued)

Bound-call : (d : ℕ) (t u : Core) (e : Event) → Bound d t u → Bound d t (call e u)
Bound-call d t u e b = record {
  driver = b.driver;
  attached = b.attached;
  not_deferred = b.not_deferred;
  pending = b.pending;
  active = b.active;
  queued = b.queued;
}

Bound-done : (d : ℕ) (t u : Core) → Bound d t u → Bound d t (probe_done u)
Bound-done d t u b = record {
  driver = b.driver;
  attached = b.attached;
  not_deferred = b.not_deferred;
  pending = b.pending;
  active = b.active;
  queued = b.queued;
}

-- The device in its driver's list, before the lists of deferred devices are touched.
abbrev listed : ℕ → Core → Core
listed d t = record t { attached = at t.attached d (t.driver d) }

retried-Bound :
    (d : ℕ) (t : Core) → t.enabled ≡ true → Bound d t (spliced (unlinked d (listed d t)))
retried-Bound d t h = record {
  driver = refl;
  attached = ground arith;
  not_deferred = grind (arith, has-append, has-unlink);
  pending = ground arith;
  active = ground arith;
  queued = ground arith;
}

waiting-Bound : (d : ℕ) (t : Core) → t.enabled ≡ false → Bound d t (unlinked d (listed d t))
waiting-Bound d t h = record {
  driver = refl;
  attached = ground arith;
  not_deferred = grind (arith, has-unlink);
  pending = ground arith;
  active = ground arith;
  queued = ground arith;
}

settled-Bound :
    (d : ℕ) (t : Core) → Bound d t (deferred_probe_trigger (deferred_probe_del d (listed d t)))
unfolding deferred_probe_trigger
settled-Bound d t =
    subst (λ u. Bound d t (deferred_probe_trigger u)) (sym (deferred_probe_del_lem d (listed d t)))
      (if_cases (λ u. Bound d t u) t.enabled (retried-Bound d t) (waiting-Bound d t))

pub attach_to_driver-Bound : (p : Platform) (d : ℕ) (t : Core) → Bound d t (attach_to_driver p d t)
unfolding attach_to_driver
attach_to_driver-Bound p d t =
    if_cases (λ u. Bound d t u) (p.on_bus d)
      (λ _.
        Bound-call d t (deferred_probe_trigger (deferred_probe_del d (listed d t))) (notify_bound d)
          (settled-Bound d t))
      (λ _. settled-Bound d t)

-- A device whose probe returned 0 in a state `t` where no driver has it in its list is bound: the
-- result is 1, the device is in the list of its driver and in no list of deferred probes, and if
-- retries are enabled every other deferred device is in the active list and the work is queued.
pub really_probe-Bound :
    (p : Platform) (drv d : ℕ) (s t : Core)
    → run_probe p drv d (started p drv d s) ≡ (ok, t)
    → t.attached d ≡ none
    → ((really_probe p drv d s).0 ≡ pos 1) × Bound d t (really_probe p drv d s).1
unfolding after_probe driver_bound
really_probe-Bound p drv d s t h a =
    subst (λ (o : ℤ × Core). (o.0 ≡ pos 1) × Bound d t o.1)
      (sym (really_probe-after p drv d s ∙ ap (after_probe p d s.triggers) h))
      (
        refl,
        Bound-done d t (driver_bound p d t) (
            subst (λ (m : Option ℕ). Bound d t (if is_some m then t else attach_to_driver p d t))
              (sym a) (attach_to_driver-Bound p d t)),
      )
