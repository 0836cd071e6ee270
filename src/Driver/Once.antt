-- ===== src/Driver/Once.antt =====
-- No device is deferred twice, whatever the core is asked to do.
use mathlib.Core.List.{map}
use open_device.Base.{
  ℕ, zero, suc, ◌≡◌, ◌∙◌, refl, sym, subst, ap₂, Option, none, some, is_some, Bool, true, false,
  not, ◌||◌, ◌&&◌, List, [], ◌∷◌, ◌++◌, arith, ◌==◌, if◌then◌else◌, if_cases, ℤ, ok, is_nonzero,
  eq_ret, eprobe_defer, Option-cases, inl, inr,
}
use open_device.Driver.State.{
  Core, Platform, ProbeCall, at, call, notify_bound, release_all, add_interface, notify_unbind,
  notify_unbound, bus_removes, driver_removes,
}
use open_device.Driver.Deferred.{
  deferred_probe_add, deferred_probe_del, deferred_probe_trigger, deferred_probe_enable,
  driver_sysfs_add, driver_sysfs_remove, driver_bound, attach_to_driver, device_bind_driver,
  next_count,
}
use open_device.Driver.Probe.{
  really_probe, after_probe, run_probe, clear_binding, defer_probe, probe_done, dev_set_drvdata,
}
use open_device.Driver.Attach.{
  driver_match_device, try_driver, driver_probe_device, for_each_drv, rebind, device_attach,
  bus_probe_device, deferred_probe_work, release_bound, device_release_driver,
}
use open_device.Driver.Quiet.{Same, driver_sysfs_add-Same, clear_binding-Same}
use open_device.Driver.Outcome.{really_probe-after, started}
use open_device.Driver.Queue.{queue, Once, queue-Queued, enqueue-Once, unlink-Once}

-- The queue of a state.
abbrev pub Orderly : Core → Type 0
Orderly s = Once (queue s)

-- Probe functions that leave an orderly state orderly; they may call the core.
abbrev pub KeepsOrder : ProbeCall → Type 0
KeepsOrder f = (d : ℕ) (s : Core) → Orderly s → Orderly (f d s).1

pub record AllKeepOrder (p : Platform) : Type 0 where
  pub bus : (f : ProbeCall) → p.bus_probe ≡ some f → KeepsOrder f
  pub driver : (drv : ℕ) (f : ProbeCall) → p.driver_probe drv ≡ some f → KeepsOrder f

moves : (s u : Core) → queue u ≡ queue s → Orderly s → Orderly u
moves s u e h = subst Once (sym e) h

Same-Orderly : (s u : Core) → Same s u → Orderly s → Orderly u
Same-Orderly s u q h = moves s u (ap₂ (λ x y. x ++ y) q.active q.pending) h

add-Orderly : (d : ℕ) (s : Core) → Orderly s → Orderly (deferred_probe_add d s)
add-Orderly d s h = subst Once (sym (queue-Queued d s).add) (enqueue-Once d (queue s) h)

del-Orderly : (d : ℕ) (s : Core) → Orderly s → Orderly (deferred_probe_del d s)
del-Orderly d s h = subst Once (sym (queue-Queued d s).del) (unlink-Once d (queue s) h)

trigger-Orderly : (s : Core) → Orderly s → Orderly (deferred_probe_trigger s)
trigger-Orderly s h = moves s (deferred_probe_trigger s) (queue-Queued 0 s).trigger h

defer-Orderly : (d seen : ℕ) (s : Core) → Orderly s → Orderly (defer_probe d seen s)
unfolding defer_probe
defer-Orderly d seen s h =
    let t : Core = deferred_probe_add d s in
    let k : Orderly t = add-Orderly d s h in
    if_cases Orderly (seen == t.triggers) (λ _. k) (λ _. trigger-Orderly t k)

call-Orderly :
    (b : Bool) (s u : Core) → queue u ≡ queue s → Orderly s → Orderly (if b then u else s)
call-Orderly true s u e h = moves s u e h
call-Orderly false s u e h = h

attach-Orderly : (p : Platform) (d : ℕ) (s : Core) → Orderly s → Orderly (attach_to_driver p d s)
unfolding attach_to_driver
attach-Orderly p d s h =
    let u : Core = record s { attached = at s.attached d (s.driver d) } in
    let t : Core = deferred_probe_trigger (deferred_probe_del d u) in
    let k : Orderly t = trigger-Orderly (deferred_probe_del d u) (del-Orderly d u h) in
    call-Orderly (p.on_bus d) t (call (notify_bound d) t) refl k

bound-Orderly : (p : Platform) (d : ℕ) (s : Core) → Orderly s → Orderly (driver_bound p d s)
unfolding driver_bound
bound-Orderly p d s h =
    if_cases Orderly (is_some (s.attached d)) (λ _. h) (λ _. attach-Orderly p d s h)

after-Orderly :
    (p : Platform) (d seen : ℕ) (o : ℤ × Core) → Orderly o.1 → Orderly (after_probe p d seen o).1
unfolding after_probe
after-Orderly p d seen (ret, s) h =
    let t : Core = clear_binding p d s in
    let k : Orderly t = Same-Orderly s t (clear_binding-Same p d s) h in
    if_cases (λ (o : ℤ × Core). Orderly o.1) (is_nonzero ret)
      (λ _.
        if_cases (λ (u : Core). Orderly (probe_done u)) (eq_ret ret eprobe_defer)
          (λ _. defer-Orderly d seen t k) (λ _. k))
      (λ _. bound-Orderly p d s h)

own_probe-Orderly :
    (m : Option ProbeCall) (d : ℕ) (s : Core)
    → ((f : ProbeCall) → m ≡ some f → KeepsOrder f)
    → Orderly s
    → (let o : ℤ × Core = elim m [ some f ↦ f d s | none ↦ (ok, s) ] in Orderly o.1)
own_probe-Orderly none d s q h = h
own_probe-Orderly (some f) d s q h = q f refl d s h

bus_probe-Orderly :
    (p : Platform) (m : Option ProbeCall) (drv d : ℕ) (s : Core)
    → ((f : ProbeCall) → m ≡ some f → KeepsOrder f)
    → AllKeepOrder p
    → Orderly s
    → (let o : ℤ × Core = elim m [
      | some f ↦ f d s
      | none ↦ elim (p.driver_probe drv) [ some f ↦ f d s | none ↦ (ok, s) ]
    ] in
        Orderly o.1)
bus_probe-Orderly p none drv d s b q h = own_probe-Orderly (p.driver_probe drv) d s (q.driver drv) h
bus_probe-Orderly p (some f) drv d s b q h = b f refl d s h

called_queue : (b : Bool) (u s : Core) → queue u ≡ queue s → queue (if b then u else s) ≡ queue s
called_queue true u s e = e
called_queue false u s e = refl

queue-dev_set_drvdata :
    (p : Platform) (d : ℕ) (v : Option ℕ) (s : Core) → queue (dev_set_drvdata p d v s).1 ≡ queue s
unfolding dev_set_drvdata
queue-dev_set_drvdata p d v s =
    if_cases (λ (o : ℤ × Core). queue o.1 ≡ queue s) (s.has_private d || p.private_fits) (λ _. refl)
      (λ _. refl)

queue-driver_sysfs_remove : (d : ℕ) (s : Core) → queue (driver_sysfs_remove d s) ≡ queue s
unfolding driver_sysfs_remove
queue-driver_sysfs_remove d s =
    if_cases (λ (t : Core). queue t ≡ queue s) (is_some (s.driver d)) (λ _. refl) (λ _. refl)

-- The work that ran out of fuel, or an orderly state.
abbrev pub EndsOrderly : Option Core → Type 0
EndsOrderly none = ok ≡ ok
EndsOrderly (some t) = Orderly t

module _ (p : Platform) (q : AllKeepOrder p) where
  probe-Orderly : (drv d : ℕ) (s : Core) → Orderly s → Orderly (really_probe p drv d s).1
  probe-Orderly drv d s h =
      let u : Core = started p drv d s in
      let base : Core = record s {
        probes = next_count s.probes;
        driver = at s.driver d (some drv);
      } in
      let k : Orderly u = Same-Orderly base u (driver_sysfs_add-Same p d base) h in
      subst (λ (o : ℤ × Core). Orderly o.1) (sym (really_probe-after p drv d s))
        (after-Orderly p d s.triggers (run_probe p drv d u)
          (bus_probe-Orderly p p.bus_probe drv d u q.bus q k))

  try-Orderly : (drv d : ℕ) (s : Core) → Orderly s → Orderly (try_driver p drv d s).1
  unfolding try_driver driver_probe_device
  try-Orderly drv d s h =
      let P : ℤ × Core → Type 0 = λ o. Orderly o.1 in
      if_cases P (not (driver_match_device p drv d)) (λ _. h)
        (λ _. if_cases P (not (p.registered d)) (λ _. h) (λ _. probe-Orderly drv d s h))

  each-Orderly :
      (d : ℕ) (drvs : List ℕ) (s : Core) → Orderly s → Orderly (for_each_drv p d drvs s).1
  unfolding for_each_drv
  each-Orderly d [] s h = h
  each-Orderly d (drv ∷ rest) s h =
      let o : ℤ × Core = try_driver p drv d s in
      let k : Orderly o.1 = try-Orderly drv d s h in
      if_cases (λ (x : ℤ × Core). Orderly x.1) (is_nonzero o.0) (λ _. k)
        (λ _. each-Orderly d rest o.1 k)

  rebind-Orderly : (d : ℕ) (s : Core) → Orderly s → Orderly (rebind p d s).1
  unfolding rebind device_bind_driver
  rebind-Orderly d s h =
      let t : Core = (driver_sysfs_add p d s).1 in
      let k : Orderly t = Same-Orderly s t (driver_sysfs_add-Same p d s) h in bound-Orderly p d t k

  device_attach-Orderly : (d : ℕ) (s : Core) → Orderly s → Orderly (device_attach p d s).1
  unfolding device_attach
  device_attach-Orderly d s h =
      let P : ℤ × Core → Type 0 = λ o. Orderly o.1 in
      if_cases P (is_some (s.driver d)) (λ _. rebind-Orderly d s h)
        (λ _. if_cases P (p.on_bus d) (λ _. each-Orderly d p.drivers s h) (λ _. h))

  bus_probe_device-Orderly : (d : ℕ) (s : Core) → Orderly s → Orderly (bus_probe_device p d s)
  unfolding bus_probe_device
  bus_probe_device-Orderly d s h =
      let attached : Core = (device_attach p d s).1 in
      if_cases Orderly (p.on_bus d)
        (λ _.
          if_cases
            (λ (t : Core).
              Orderly (record t { events = t.events ++ map (add_interface d) p.interfaces }))
            p.autoprobe (λ _. device_attach-Orderly d s h) (λ _. h))
        (λ _. h)

  work_round :
      (fuel : ℕ) (xs : List ℕ) (s : Core)
      → ((u : Core) → Orderly u → EndsOrderly (deferred_probe_work p fuel u))
      → Orderly s
      → Once (xs ++ s.pending)
      → EndsOrderly (elim xs as (λ _. Option Core) [
        | [] ↦ some s
        | d ∷ rest ↦ deferred_probe_work p fuel (bus_probe_device p d (record s { active = rest }))
      ])
  work_round fuel [] s k h g = h
  work_round fuel (d ∷ rest) s k h g =
      let t : Core = record s { active = rest } in
      k (bus_probe_device p d t) (bus_probe_device-Orderly d t (λ e. ground (arith, g e)))

  work-Orderly : (fuel : ℕ) (s : Core) → Orderly s → EndsOrderly (deferred_probe_work p fuel s)
  unfolding deferred_probe_work
  work-Orderly zero s h = refl
  work-Orderly (suc fuel) s h = work_round fuel s.active s (work-Orderly fuel) h h

  queue-release_bound : (drv d : ℕ) (s : Core) → queue (release_bound p drv d s) ≡ queue s
  unfolding release_bound
  queue-release_bound drv d s =
      let s1 : Core = driver_sysfs_remove d s in
      let s2 : Core = if p.on_bus d then call (notify_unbind d) s1 else s1 in
      let s3 : Core =
        if p.on_bus d && p.bus_has_remove
        then call (bus_removes d) s2
        else if p.driver_has_remove drv
        then call (driver_removes drv d) s2
        else s2 in
      let s4 : Core = call (release_all d) s3 in
      let s5 : Core = (dev_set_drvdata p d none (record s4 { driver = at s4.driver d none })).1 in
      let s6 : Core = record s5 { attached = at s5.attached d none } in
      called_queue (p.on_bus d) (call (notify_unbound d) s6) s6 refl
      ∙ queue-dev_set_drvdata p d none (record s4 { driver = at s4.driver d none })
      ∙ called_queue (p.on_bus d && p.bus_has_remove) (call (bus_removes d) s2)
          (if p.driver_has_remove drv then call (driver_removes drv d) s2 else s2)
          (sym (called_queue (p.driver_has_remove drv) (call (driver_removes drv d) s2) s2 refl))
      ∙ called_queue (p.driver_has_remove drv) (call (driver_removes drv d) s2) s2 refl
      ∙ called_queue (p.on_bus d) (call (notify_unbind d) s1) s1 refl
      ∙ queue-driver_sysfs_remove d s

  release-Orderly : (d : ℕ) (s : Core) → Orderly s → Orderly (device_release_driver p d s)
  unfolding device_release_driver
  release-Orderly d s h = elim (Option-cases (s.driver d)) [
    | inl e ↦ moves s (device_release_driver p d s) (ground arith) h
    | inr (drv, e) ↦
        let r = queue-release_bound drv d s in
        moves s (device_release_driver p d s) (ground arith) h
  ]

-- What the core is asked to do: a device is attached or probed by its bus, a device is released, a
-- deleted device leaves the lists, a trigger comes, retries are enabled, the work runs to its end.
pub data Asked (p : Platform) : Core → Core → Type 0 where
  attach : (d : ℕ) {s : Core} → Asked p s (device_attach p d s).1
  probe : (d : ℕ) {s : Core} → Asked p s (bus_probe_device p d s)
  release : (d : ℕ) {s : Core} → Asked p s (device_release_driver p d s)
  delete : (d : ℕ) {s : Core} → Asked p s (deferred_probe_del d s)
  trigger : {s : Core} → Asked p s (deferred_probe_trigger s)
  enable : {s : Core} → Asked p s (deferred_probe_enable s)
  work : (fuel : ℕ) {s t : Core} → deferred_probe_work p fuel s ≡ some t → Asked p s t

pub data Reached (p : Platform) (s : Core) : Core → Type 0 where
  here : Reached p s s
  on : {t u : Core} → Reached p s t → Asked p t u → Reached p s u

Asked-Orderly : (p : Platform) → AllKeepOrder p → (s t : Core) → Asked p s t → Orderly s → Orderly t
unfolding deferred_probe_enable
Asked-Orderly p q s t (attach d) h = device_attach-Orderly p q d s h
Asked-Orderly p q s t (probe d) h = bus_probe_device-Orderly p q d s h
Asked-Orderly p q s t (release d) h = release-Orderly p q d s h
Asked-Orderly p q s t (delete d) h = del-Orderly d s h
Asked-Orderly p q s t trigger h = trigger-Orderly s h
Asked-Orderly p q s t enable h = trigger-Orderly (record s { enabled = true }) h
Asked-Orderly p q s t (work fuel e) h = subst EndsOrderly e (work-Orderly p q fuel s h)

-- If the probe functions leave a state without double entries without them, so does everything that the
-- core can be asked to do, in any order: a device stands at most once in the lists of deferred devices,
-- and not in both.
pub Reached-Orderly :
    (p : Platform) → AllKeepOrder p → (s t : Core) → Orderly s → Reached p s t → Orderly t
Reached-Orderly p q s t h here = h
Reached-Orderly p q s u h (on {t} r a) = Asked-Orderly p q t u a (Reached-Orderly p q s t h r)
