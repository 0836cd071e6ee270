-- ===== src/Driver/Undone.antt =====
-- The two steps of `demo_really_probe` after a failed probe: undoing the binding, deferring the device.
use open_device.Base.{
  ℕ, ◌≡◌, refl, sym, subst, ap, Option, none, some, is_some, Bool, true, false, not, ◌||◌, ◌&&◌,
  List, [], ◌∷◌, ◌++◌, arith, ◌==◌, if◌then◌else◌, has, has-append, if_cases, ℤ,
}
use open_device.Driver.State.{Core, Platform, at, call, release_all}
use open_device.Driver.Deferred.{
  is_deferred, deferred_probe_add, deferred_probe_trigger, driver_sysfs_remove,
}
use open_device.Driver.Probe.{clear_binding, defer_probe, dev_set_drvdata}

-- Nothing names the driver any more; the lists of devices are as they were.
pub record Cleared (p : Platform) (d : ℕ) (t u : Core) : Type 0 where
  pub driver : u.driver d ≡ none
  pub attached : u.attached d ≡ t.attached d
  pub dir_link : u.dir_link d ≡ false
  pub dev_link : u.dev_link d ≡ false
  pub drvdata : u.drvdata d ≡ (if t.has_private d || p.private_fits then none else t.drvdata d)
  pub pending : u.pending ≡ t.pending
  pub active : u.active ≡ t.active
  pub enabled : u.enabled ≡ t.enabled
  pub triggers : u.triggers ≡ t.triggers
  pub work_queued : u.work_queued ≡ t.work_queued

-- The state at the label, the links removed and the driver forgotten.
abbrev forgotten : ℕ → Core → Core
forgotten d t =
    let v : Core = call (release_all d) t in
    record v {
      dir_link = at v.dir_link d false;
      dev_link = at v.dev_link d false;
      driver = at v.driver d none;
    }

drvdata-Cleared :
    (p : Platform) (d : ℕ) (t : Core) → Cleared p d t (dev_set_drvdata p d none (forgotten d t)).1
unfolding dev_set_drvdata
drvdata-Cleared p d t =
    if_cases (λ (o : ℤ × Core). Cleared p d t o.1) (t.has_private d || p.private_fits)
      (λ h. record {
        driver = ground arith;
        attached = refl;
        dir_link = ground arith;
        dev_link = ground arith;
        drvdata = ground arith;
        pending = refl;
        active = refl;
        enabled = refl;
        triggers = refl;
        work_queued = refl;
      })
      (λ h. record {
        driver = ground arith;
        attached = refl;
        dir_link = ground arith;
        dev_link = ground arith;
        drvdata = ground arith;
        pending = refl;
        active = refl;
        enabled = refl;
        triggers = refl;
        work_queued = refl;
      })

pub clear_binding-Cleared :
    (p : Platform) (drv d : ℕ) (t : Core)
    → t.driver d ≡ some drv
    → Cleared p d t (clear_binding p d t)
unfolding clear_binding driver_sysfs_remove
clear_binding-Cleared p drv d t h =
    subst
      (λ (m : Option ℕ).
        Cleared p d t
          (dev_set_drvdata p d none (
            let v : Core = call (release_all d) t in
            let w : Core =
              if is_some m
              then record v { dir_link = at v.dir_link d false; dev_link = at v.dev_link d false }
              else v in
            record w { driver = at w.driver d none })).1)
      (sym h) (drvdata-Cleared p d t)

-- A trigger came while the probe ran, and retries are enabled.
abbrev pub missed : ℕ → Core → Bool
missed seen t = t.enabled && not (seen == t.triggers)

-- The pending list with the device in it, unless the device stands in one of the lists already.
abbrev pub put : ℕ → Core → List ℕ
put d t = if not (is_deferred d t) then t.pending ++ d ∷ [] else t.pending

pub put-deferred : (d : ℕ) (t : Core) → (has d (put d t) || has d t.active) ≡ true
put-deferred d t = grind (arith, has-append)

pub record Moved (d seen : ℕ) (t u : Core) : Type 0 where
  pub driver : u.driver d ≡ t.driver d
  pub attached : u.attached d ≡ t.attached d
  pub dir_link : u.dir_link d ≡ t.dir_link d
  pub dev_link : u.dev_link d ≡ t.dev_link d
  pub drvdata : u.drvdata d ≡ t.drvdata d
  pub pending : u.pending ≡ (if missed seen t then [] else put d t)
  pub active : u.active ≡ (if missed seen t then t.active ++ put d t else t.active)
  pub queued : u.work_queued ≡ (missed seen t || t.work_queued)

pub deferred_probe_add_lem :
    (d : ℕ) (t : Core) → deferred_probe_add d t ≡ record t { pending = put d t }
unfolding deferred_probe_add
deferred_probe_add_lem d t =
    if_cases (λ u. u ≡ record t { pending = put d t }) (not (is_deferred d t))
      (λ h. ap {B = Core} (λ x. record t { pending = x }) (ground arith))
      (λ h. ap {B = Core} (λ x. record t { pending = x }) (ground arith))

trigger-Moved :
    (d seen : ℕ) (t : Core)
    → (seen == t.triggers) ≡ false
    → Moved d seen t (deferred_probe_trigger (record t { pending = put d t }))
unfolding deferred_probe_trigger
trigger-Moved d seen t h =
    if_cases (λ u. Moved d seen t u) t.enabled
      (λ e. record {
        driver = refl;
        attached = refl;
        dir_link = refl;
        dev_link = refl;
        drvdata = refl;
        pending = ground arith;
        active = ground arith;
        queued = ground arith;
      })
      (λ e. record {
        driver = refl;
        attached = refl;
        dir_link = refl;
        dev_link = refl;
        drvdata = refl;
        pending = ground arith;
        active = ground arith;
        queued = ground arith;
      })

kept-Moved :
    (d seen : ℕ) (t : Core)
    → (seen == t.triggers) ≡ true
    → Moved d seen t (record t { pending = put d t })
kept-Moved d seen t h = record {
  driver = refl;
  attached = refl;
  dir_link = refl;
  dev_link = refl;
  drvdata = refl;
  pending = ground arith;
  active = ground arith;
  queued = ground arith;
}

pub defer_probe-Moved : (d seen : ℕ) (t : Core) → Moved d seen t (defer_probe d seen t)
unfolding defer_probe
defer_probe-Moved d seen t =
    subst
      (λ (v : Core). Moved d seen t (if seen == v.triggers then v else deferred_probe_trigger v))
      (sym (deferred_probe_add_lem d t))
      (if_cases (λ u. Moved d seen t u) (seen == t.triggers) (kept-Moved d seen t)
        (trigger-Moved d seen t))
