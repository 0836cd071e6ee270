-- ===== src/Driver/Verdict.antt =====
-- What the result of an attachment says: it is 1 just when the device has a driver afterwards.
use open_device.Base.{
  ℕ, ◌+◌, ◌≡◌, ◌∙◌, refl, sym, subst, ap, Option, none, some, is_some, Bool, true, false, not, List,
  [], ◌∷◌, arith, if◌then◌else◌, if_cases, ℤ, pos, negsuc, ok, is_nonzero, eq_ret, eprobe_defer,
  enodev, einval,
}
use open_device.Driver.State.{Core, Platform, ProbeCall, at, call, notify_bind}
use open_device.Driver.Deferred.{
  driver_sysfs_add, device_bind_driver, driver_bound, attach_to_driver, next_count,
}
use open_device.Driver.Probe.{really_probe, run_probe, after_probe, clear_binding, defer_probe}
use open_device.Driver.Attach.{
  try_driver, driver_match_device, driver_probe_device, for_each_drv, rebind, device_attach,
}
use open_device.Driver.Outcome.{started, really_probe-after, attach_to_driver-Bound}
use open_device.Driver.Undone.{clear_binding-Cleared, defer_probe-Moved}

-- A probe function that leaves the binding of the device alone.
abbrev pub IsFaithfulCall : ProbeCall → Type 0
IsFaithfulCall f = (d : ℕ) (s : Core) → (f d s).1.driver d ≡ s.driver d

pub record IsFaithful (p : Platform) : Type 0 where
  pub bus : (f : ProbeCall) → p.bus_probe ≡ some f → IsFaithfulCall f
  pub driver : (drv : ℕ) (f : ProbeCall) → p.driver_probe drv ≡ some f → IsFaithfulCall f

abbrev pub Verdict : ℕ → ℤ × Core → Type 0
Verdict d o = eq_ret o.0 (pos 1) ≡ is_some (o.1.driver d)

run_own-driver :
    (m : Option ProbeCall) (d : ℕ) (s : Core)
    → ((f : ProbeCall) → m ≡ some f → IsFaithfulCall f)
    → (let o : ℤ × Core = elim m [ some f ↦ f d s | none ↦ (ok, s) ] in o.1.driver d ≡ s.driver d)
run_own-driver none d s q = refl
run_own-driver (some f) d s q = q f refl d s

run_bus-driver :
    (p : Platform) (m : Option ProbeCall) (drv d : ℕ) (s : Core)
    → ((f : ProbeCall) → m ≡ some f → IsFaithfulCall f)
    → IsFaithful p
    → (let o : ℤ × Core = elim m [
      | some f ↦ f d s
      | none ↦ elim (p.driver_probe drv) [ some f ↦ f d s | none ↦ (ok, s) ]
    ] in
        o.1.driver d ≡ s.driver d)
run_bus-driver p none drv d s b q = run_own-driver (p.driver_probe drv) d s (q.driver drv)
run_bus-driver p (some f) drv d s b q = b f refl d s

sysfs_add-driver :
    (p : Platform) (d : ℕ) (s : Core) → (driver_sysfs_add p d s).1.driver d ≡ s.driver d
unfolding driver_sysfs_add
sysfs_add-driver p d s =
    let t : Core = if p.on_bus d then call (notify_bind d) s else s in
    let e : t.driver d ≡ s.driver d =
      if_cases (λ (u : Core). u.driver d ≡ s.driver d) (p.on_bus d) (λ _. refl) (λ _. refl) in
    if_cases (λ (u : Core). u.driver d ≡ s.driver d) (is_nonzero (p.link_answer t.asked)) (λ _. e)
      (λ _.
        if_cases (λ (u : Core). u.driver d ≡ s.driver d) (is_nonzero (p.link_answer (t.asked + 1)))
          (λ _. e) (λ _. e))

bound-driver : (p : Platform) (d : ℕ) (t : Core) → (driver_bound p d t).driver d ≡ t.driver d
unfolding driver_bound
bound-driver p d t =
    let b : (attach_to_driver p d t).driver d ≡ t.driver d =
      (attach_to_driver-Bound p d t).driver in
    if_cases (λ (u : Core). u.driver d ≡ t.driver d) (is_some (t.attached d)) (λ _. refl) (λ _. b)

after_probe-Verdict :
    (p : Platform) (drv d seen : ℕ) (o : ℤ × Core)
    → o.1.driver d ≡ some drv
    → Verdict d (after_probe p d seen o)
unfolding after_probe
after_probe-Verdict p drv d seen o h =
    let again : Bool = eq_ret o.0 eprobe_defer in
    let v : Core = clear_binding p d o.1 in
    let w : Core = if again then defer_probe d seen v else v in
    let c : v.driver d ≡ none = (clear_binding-Cleared p drv d o.1 h).driver in
    let e : w.driver d ≡ none =
      if_cases (λ (u : Core). u.driver d ≡ none) again
        (λ _. (defer_probe-Moved d seen v).driver ∙ c) (λ _. c) in
    if_cases (λ (a : ℤ × Core). Verdict d a) (is_nonzero o.0) (λ _. sym (ap is_some e))
      (λ _. sym (ap is_some (bound-driver p d o.1 ∙ h)))

started-driver : (p : Platform) (drv d : ℕ) (s : Core) → (started p drv d s).driver d ≡ some drv
started-driver p drv d s =
    let t : Core = record s { probes = next_count s.probes; driver = at s.driver d (some drv) } in
    let e : t.driver d ≡ some drv = ground arith in sysfs_add-driver p d t ∙ e

really_probe-Verdict :
    (p : Platform) (drv d : ℕ) (s : Core) → IsFaithful p → Verdict d (really_probe p drv d s)
really_probe-Verdict p drv d s q =
    let t : Core = started p drv d s in
    let k : (run_probe p drv d t).1.driver d ≡ some drv =
      run_bus-driver p p.bus_probe drv d t q.bus q ∙ started-driver p drv d s in
    subst (λ (o : ℤ × Core). Verdict d o) (sym (really_probe-after p drv d s))
      (after_probe-Verdict p drv d s.triggers (run_probe p drv d t) k)

unbound :
    (d : ℕ) (s : Core) (ret : ℤ)
    → s.driver d ≡ none
    → eq_ret ret (pos 1) ≡ false
    → Verdict d (ret, s)
unbound d s ret h e = e ∙ sym (ap is_some h)

try_driver-Verdict :
    (p : Platform) (drv d : ℕ) (s : Core)
    → IsFaithful p
    → s.driver d ≡ none
    → Verdict d (try_driver p drv d s)
unfolding try_driver driver_probe_device
try_driver-Verdict p drv d s q h =
    if_cases (λ (o : ℤ × Core). Verdict d o) (not (driver_match_device p drv d))
      (λ _. unbound d s ok h refl)
      (λ _.
        if_cases (λ (o : ℤ × Core). Verdict d o) (not (p.registered d))
          (λ _. unbound d s enodev h refl) (λ _. really_probe-Verdict p drv d s q))

not_one : (ret : ℤ) → is_nonzero ret ≡ false → eq_ret ret (pos 1) ≡ false
not_one (pos n) h = ground arith
not_one (negsuc n) h = ground arith

no_driver : (m : Option ℕ) → is_some m ≡ false → m ≡ none
no_driver none h = refl
no_driver (some n) h = ground arith

for_each_drv-Verdict :
    (p : Platform) (d : ℕ) (drvs : List ℕ) (s : Core)
    → IsFaithful p
    → s.driver d ≡ none
    → Verdict d (for_each_drv p d drvs s)
unfolding for_each_drv
for_each_drv-Verdict p d [] s q h = unbound d s ok h refl
for_each_drv-Verdict p d (drv ∷ drvs) s q h =
    let o : ℤ × Core = try_driver p drv d s in
    let v : Verdict d o = try_driver-Verdict p drv d s q h in
    if_cases (λ (r : ℤ × Core). Verdict d r) (is_nonzero o.0) (λ _. v)
      (λ z. for_each_drv-Verdict p d drvs o.1 q (no_driver (o.1.driver d) (sym v ∙ not_one o.0 z)))

bind-driver : (p : Platform) (d : ℕ) (s : Core) → (device_bind_driver p d s).1.driver d ≡ s.driver d
unfolding device_bind_driver
bind-driver p d s =
    let o : ℤ × Core = driver_sysfs_add p d s in
    let e : o.1.driver d ≡ s.driver d = sysfs_add-driver p d s in
    if_cases (λ (u : Core). u.driver d ≡ s.driver d) (is_nonzero o.0) {x = o.1}
      {y = driver_bound p d o.1} (λ _. e) (λ _. bound-driver p d o.1 ∙ e)

rebind-Verdict :
    (p : Platform) (d : ℕ) (s : Core) → is_some (s.driver d) ≡ true → Verdict d (rebind p d s)
unfolding rebind
rebind-Verdict p d s h =
    let o : ℤ × Core = device_bind_driver p d s in
    let e : at o.1.driver d none d ≡ none = ground arith in
    if_cases (λ (r : ℤ × Core). Verdict d r) (is_nonzero o.0) (λ _. sym (ap is_some e))
      (λ _. sym (ap is_some (bind-driver p d s) ∙ h))

-- With probe functions that leave the binding of the device alone, an attachment returns 1 just when
-- the device names a driver afterwards, whether it had one, found one, found none or is on no bus.
pub device_attach-Verdict :
    (p : Platform) (d : ℕ) (s : Core) → IsFaithful p → Verdict d (device_attach p d s)
unfolding device_attach
device_attach-Verdict p d s q =
    if_cases (λ (r : ℤ × Core). Verdict d r) (is_some (s.driver d)) (λ h. rebind-Verdict p d s h)
      (λ h.
        let n : s.driver d ≡ none = no_driver (s.driver d) h in
        if_cases (λ (r : ℤ × Core). Verdict d r) (p.on_bus d)
          (λ _. for_each_drv-Verdict p d p.drivers s q n) (λ _. unbound d s einval n refl))
