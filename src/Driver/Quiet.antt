-- ===== src/Driver/Quiet.antt =====
-- Probing a device when the probe functions leave the lists of deferred devices alone.
use open_device.Base.{
  ℕ, ◌+◌, ◌≤◌, ◌≡◌, ◌∙◌, ◌⊎◌, inr, refl, sym, subst, ap₂, Option, none, some, is_some, not, ◌||◌,
  [], ◌∷◌, ◌++◌, arith, ◌==◌, ==_refl, if◌then◌else◌, has, length, if_cases, ℤ, ok, is_nonzero,
}
use open_device.Driver.State.{Core, Platform, ProbeCall, at, call, release_all, notify_bind}
use open_device.Driver.Deferred.{
  unlink, deferred_probe_trigger, driver_sysfs_add, driver_sysfs_remove,
}
use open_device.Driver.Probe.{run_probe, clear_binding, defer_probe, dev_set_drvdata}
use open_device.Driver.Undone.{put, deferred_probe_add_lem}

-- The lists of deferred devices, and what moves them, are the same.
pub record Same (s u : Core) : Type 0 where
  pub pending : u.pending ≡ s.pending
  pub active : u.active ≡ s.active
  pub triggers : u.triggers ≡ s.triggers

pub Same-refl : (s : Core) → Same s s
Same-refl s = record { pending = refl; active = refl; triggers = refl }

pub Same-trans : (s t u : Core) → Same s t → Same t u → Same s u
Same-trans s t u a b = record {
  pending = b.pending ∙ a.pending;
  active = b.active ∙ a.active;
  triggers = b.triggers ∙ a.triggers;
}

-- A probe function that does not touch them.
abbrev pub IsQuietCall : ProbeCall → Type 0
IsQuietCall f = (d : ℕ) (s : Core) → Same s (f d s).1

pub record IsQuiet (p : Platform) : Type 0 where
  pub bus : (f : ProbeCall) → p.bus_probe ≡ some f → IsQuietCall f
  pub driver : (drv : ℕ) (f : ProbeCall) → p.driver_probe drv ≡ some f → IsQuietCall f

run_own_probe :
    (m : Option ProbeCall) (d : ℕ) (s : Core)
    → ((f : ProbeCall) → m ≡ some f → IsQuietCall f)
    → (let o : ℤ × Core = elim m [ some f ↦ f d s | none ↦ (ok, s) ] in Same s o.1)
run_own_probe none d s q = Same-refl s
run_own_probe (some f) d s q = q f refl d s

run_bus_probe :
    (p : Platform) (m : Option ProbeCall) (drv d : ℕ) (s : Core)
    → ((f : ProbeCall) → m ≡ some f → IsQuietCall f)
    → IsQuiet p
    → (let o : ℤ × Core = elim m [
      | some f ↦ f d s
      | none ↦ elim (p.driver_probe drv) [ some f ↦ f d s | none ↦ (ok, s) ]
    ] in
        Same s o.1)
run_bus_probe p none drv d s b q = run_own_probe (p.driver_probe drv) d s (q.driver drv)
run_bus_probe p (some f) drv d s b q = b f refl d s

pub run_probe-Same :
    (p : Platform) (drv d : ℕ) (s : Core) → IsQuiet p → Same s (run_probe p drv d s).1
run_probe-Same p drv d s q = run_bus_probe p p.bus_probe drv d s q.bus q

pub driver_sysfs_add-Same : (p : Platform) (d : ℕ) (s : Core) → Same s (driver_sysfs_add p d s).1
unfolding driver_sysfs_add
driver_sysfs_add-Same p d s =
    let t : Core = if p.on_bus d then call (notify_bind d) s else s in
    let st : Same s t =
      if_cases (λ u. Same s u) (p.on_bus d)
        (λ _. record { pending = refl; active = refl; triggers = refl }) (λ _. Same-refl s) in
    if_cases (λ u. Same s u) (is_nonzero (p.link_answer t.asked))
      (λ _. record { pending = st.pending; active = st.active; triggers = st.triggers })
      (λ _.
        if_cases (λ u. Same s u) (is_nonzero (p.link_answer (t.asked + 1)))
          (λ _. record { pending = st.pending; active = st.active; triggers = st.triggers })
          (λ _. record { pending = st.pending; active = st.active; triggers = st.triggers }))

driver_sysfs_remove-Same : (d : ℕ) (s : Core) → Same s (driver_sysfs_remove d s)
unfolding driver_sysfs_remove
driver_sysfs_remove-Same d s =
    if_cases (λ u. Same s u) (is_some (s.driver d))
      (λ _. record { pending = refl; active = refl; triggers = refl }) (λ _. Same-refl s)

dev_set_drvdata-Same :
    (p : Platform) (d : ℕ) (v : Option ℕ) (s : Core) → Same s (dev_set_drvdata p d v s).1
unfolding dev_set_drvdata
dev_set_drvdata-Same p d v s =
    if_cases (λ (o : ℤ × Core). Same s o.1) (s.has_private d || p.private_fits)
      (λ _. record { pending = refl; active = refl; triggers = refl }) (λ _. Same-refl s)

pub clear_binding-Same : (p : Platform) (d : ℕ) (s : Core) → Same s (clear_binding p d s)
unfolding clear_binding
clear_binding-Same p d s =
    let a : Core = call (release_all d) s in
    let t : Core = driver_sysfs_remove d a in
    let u : Core = record t { driver = at t.driver d none } in
    let at_a : Same s a = record { pending = refl; active = refl; triggers = refl } in
    let at_u : Same t u = record { pending = refl; active = refl; triggers = refl } in
    Same-trans s u (dev_set_drvdata p d none u).1
      (Same-trans s t u (Same-trans s a t at_a (driver_sysfs_remove-Same d a)) at_u)
      (dev_set_drvdata-Same p d none u)

-- The device may have joined the pending list; the rest is the same.
pub record Joined (d : ℕ) (s u : Core) : Type 0 where
  pub pending : (u.pending ≡ s.pending) ⊎ (u.pending ≡ put d s)
  pub active : u.active ≡ s.active

-- The device was unlinked, and the other deferred devices may have moved to the active list.
pub record Settled (d : ℕ) (s u : Core) : Type 0 where
  pub total :
      length u.pending + length u.active ≤ length (unlink d s.pending) + length (unlink d s.active)

pub deferred_once : (d : ℕ) (s t : Core) → Same s t → Joined d s (defer_probe d s.triggers t)
unfolding defer_probe
deferred_once d s t e =
    subst
      (λ (v : Core). Joined d s (if s.triggers == v.triggers then v else deferred_probe_trigger v))
      (sym (deferred_probe_add_lem d t))
      (if_cases (λ u. Joined d s u) (s.triggers == t.triggers)
        (λ _. record {
          pending =
              inr (
                ap₂ (λ x y. if not (has d x || has d y) then x ++ d ∷ [] else x) e.pending
                  e.active);
          active = e.active;
        })
        (λ h. ground (arith, e.triggers, h, ==_refl s.triggers)))
