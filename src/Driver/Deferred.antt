-- ===== src/Driver/Deferred.antt =====
-- The lists of deferred probes in driver.c, and the binding of a device that was probed.
use open_device.Base.{
  ℕ, ◌+◌, ◌%◌, ◌^◌, is_some, Bool, true, false, not, ◌||◌, List, [], ◌∷◌, ◌++◌, ◌==◌, if◌then◌else◌,
  has, ℤ, ok, is_nonzero,
}
use open_device.Driver.State.{Core, Platform, at, call, notify_bind, notify_bound}

-- `list_del_init` of a device's node.
abbrev pub unlink : ℕ → List ℕ → List ℕ
unlink d [] = []
unlink d (e ∷ es) = if e == d then unlink d es else e ∷ unlink d es

-- `!list_empty(&dev->p->deferred_probe)`.
abbrev pub is_deferred : ℕ → Core → Bool
is_deferred d s = has d s.pending || has d s.active

unfoldable pub deferred_probe_del : ℕ → Core → Core
deferred_probe_del d s =
    if is_deferred d s
    then record s { pending = unlink d s.pending; active = unlink d s.active }
    else s

unfoldable pub deferred_probe_add : ℕ → Core → Core
deferred_probe_add d s =
    if not (is_deferred d s) then record s { pending = s.pending ++ d ∷ [] } else s

-- `atomic_inc` of a 32-bit counter.
abbrev pub next_count : ℕ → ℕ
next_count n = (n + 1) % 2 ^ 32

unfoldable pub deferred_probe_trigger : Core → Core
deferred_probe_trigger s =
    if s.enabled
    then record s {
      triggers = next_count s.triggers;
      active = s.active ++ s.pending;
      pending = [];
      work_queued = true;
    }
    else s

-- The links between the device and its driver. The result is 0 whatever sysfs answers.
unfoldable pub driver_sysfs_add : Platform → ℕ → Core → ℤ × Core
driver_sysfs_add p d s =
    let t : Core = if p.on_bus d then call (notify_bind d) s else s in
    (
      ok,
      if is_nonzero (p.link_answer t.asked)
          then record t { asked = t.asked + 1 }
          else if is_nonzero (p.link_answer (t.asked + 1))
          then record t { asked = t.asked + 2; dir_link = at t.dir_link d false }
          else record t {
            asked = t.asked + 2;
            dir_link = at t.dir_link d true;
            dev_link = at t.dev_link d true;
          },
    )

unfoldable pub driver_sysfs_remove : ℕ → Core → Core
driver_sysfs_remove d s =
    if is_some (s.driver d)
    then record s { dir_link = at s.dir_link d false; dev_link = at s.dev_link d false }
    else s

-- From the insertion into the driver's list on.
unfoldable pub attach_to_driver : Platform → ℕ → Core → Core
attach_to_driver p d s =
    let t : Core =
      deferred_probe_trigger
        (deferred_probe_del d (record s { attached = at s.attached d (s.driver d) })) in
    if p.on_bus d then call (notify_bound d) t else t

unfoldable pub driver_bound : Platform → ℕ → Core → Core
unfolding attach_to_driver
driver_bound p d s = if is_some (s.attached d) then s else attach_to_driver p d s

unfoldable pub device_bind_driver : Platform → ℕ → Core → ℤ × Core
unfolding driver_sysfs_add driver_bound
device_bind_driver p d s =
    let (ret, t) = driver_sysfs_add p d s in (ret, if is_nonzero ret then t else driver_bound p d t)

-- The late initcall. `creates` says whether the work queue could be made; the flush at the end runs
-- the work, `deferred_probe_work` of `Attach`.
unfoldable pub deferred_probe_enable : Core → Core
unfolding deferred_probe_trigger
deferred_probe_enable s = deferred_probe_trigger (record s { enabled = true })
