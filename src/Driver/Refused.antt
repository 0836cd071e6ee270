-- ===== src/Driver/Refused.antt =====
-- What `demo_really_probe` makes of a probe that fails or asks to be deferred.
use open_device.Base.{
  ℕ, ◌≡◌, ◌∙◌, refl, sym, subst, ap, ap₂, none, some, Bool, true, false, not, ◌||◌, ◌&&◌, List, [],
  ◌∷◌, ◌++◌, arith, ◌==◌, if◌then◌else◌, has, has-append, ℤ, pos, ok, is_nonzero, eq_ret,
  eprobe_defer,
}
use open_device.Driver.State.{Core, Platform}
use open_device.Driver.Deferred.{is_deferred, driver_bound}
use open_device.Driver.Probe.{
  really_probe, run_probe, after_probe, clear_binding, defer_probe, probe_done,
}
use open_device.Driver.Undone.{
  Cleared, Moved, clear_binding-Cleared, defer_probe-Moved, missed, put, put-deferred,
}
use open_device.Driver.Outcome.{started, really_probe-after}

-- Nothing names the driver any more. A device that asked to be deferred waits in the pending list, or
-- in the active list with every other deferred device if a trigger came meanwhile, the work queued.
pub record Refused (p : Platform) (d seen : ℕ) (again : Bool) (t u : Core) : Type 0 where
  pub driver : u.driver d ≡ none
  pub attached : u.attached d ≡ t.attached d
  pub dir_link : u.dir_link d ≡ false
  pub dev_link : u.dev_link d ≡ false
  pub drvdata : u.drvdata d ≡ (if t.has_private d || p.private_fits then none else t.drvdata d)
  pub deferred : is_deferred d u ≡ (again || is_deferred d t)
  pub pending : u.pending ≡ (if again then (if missed seen t then [] else put d t) else t.pending)
  pub active : u.active ≡ (if again && missed seen t then t.active ++ put d t else t.active)
  pub queued : u.work_queued ≡ (again && missed seen t || t.work_queued)

put-somewhere :
    (d : ℕ) (m : Bool) (xs ys : List ℕ)
    → (has d xs || has d ys) ≡ true
    → (has d (if m then [] else xs) || has d (if m then ys ++ xs else ys)) ≡ true
put-somewhere d true xs ys h = grind (arith, has-append)
put-somewhere d false xs ys h = h

Refused-once :
    (p : Platform) (d seen : ℕ) (t v : Core) → Cleared p d t v → Refused p d seen false t v
Refused-once p d seen t v c = record {
  driver = c.driver;
  attached = c.attached;
  dir_link = c.dir_link;
  dev_link = c.dev_link;
  drvdata = c.drvdata;
  deferred = ap₂ (λ x y. has d x || has d y) c.pending c.active;
  pending = c.pending;
  active = c.active;
  queued = c.work_queued;
}

missed-same :
    (seen : ℕ) (t v : Core)
    → v.enabled ≡ t.enabled
    → v.triggers ≡ t.triggers
    → missed seen v ≡ missed seen t
missed-same seen t v h k = ap₂ (λ x y. x && not (seen == y)) h k

put-same : (d : ℕ) (t v : Core) → v.pending ≡ t.pending → v.active ≡ t.active → put d v ≡ put d t
put-same d t v h k = ap₂ (λ x y. if not (has d x || has d y) then x ++ d ∷ [] else x) h k

Refused-again :
    (p : Platform) (d seen : ℕ) (t v u : Core)
    → Cleared p d t v
    → Moved d seen v u
    → Refused p d seen true t u
Refused-again p d seen t v u c m =
    let ms : missed seen v ≡ missed seen t = missed-same seen t v c.enabled c.triggers in
    let ps : put d v ≡ put d t = put-same d t v c.pending c.active in
    let pe : u.pending ≡ (if missed seen t then [] else put d t) =
      m.pending ∙ ap₂ (λ x y. if x then [] else y) ms ps in
    let ac : u.active ≡ (if missed seen t then t.active ++ put d t else t.active) =
      m.active
      ∙ ap₂ (λ x y. if x then v.active ++ y else v.active) ms ps
      ∙ ap (λ z. if missed seen t then z ++ put d t else z) c.active in
    record {
      driver = m.driver ∙ c.driver;
      attached = m.attached ∙ c.attached;
      dir_link = m.dir_link ∙ c.dir_link;
      dev_link = m.dev_link ∙ c.dev_link;
      drvdata = m.drvdata ∙ c.drvdata;
      deferred =
          ap₂ (λ x y. has d x || has d y) pe ac
          ∙ put-somewhere d (missed seen t) (put d t) t.active (put-deferred d t);
      pending = pe;
      active = ac;
      queued = m.queued ∙ ap₂ (λ x y. x || y) ms c.work_queued;
    }

Refused-done :
    (p : Platform) (d seen : ℕ) (again : Bool) (t u : Core)
    → Refused p d seen again t u
    → Refused p d seen again t (probe_done u)
Refused-done p d seen again t u r = record {
  driver = r.driver;
  attached = r.attached;
  dir_link = r.dir_link;
  dev_link = r.dev_link;
  drvdata = r.drvdata;
  deferred = r.deferred;
  pending = r.pending;
  active = r.active;
  queued = r.queued;
}

after_refusal :
    (p : Platform) (drv d seen : ℕ) (again : Bool) (t : Core)
    → t.driver d ≡ some drv
    → Refused p d seen again t
        (if again then defer_probe d seen (clear_binding p d t) else clear_binding p d t)
after_refusal p drv d seen true t b =
    Refused-again p d seen t (clear_binding p d t) (defer_probe d seen (clear_binding p d t))
      (clear_binding-Cleared p drv d t b) (defer_probe-Moved d seen (clear_binding p d t))
after_refusal p drv d seen false t b =
    Refused-once p d seen t (clear_binding p d t) (clear_binding-Cleared p drv d t b)

-- A probe that returns another number than 0 in a state `t`, the device still naming the driver that
-- was tried: the result is 0 and the binding is undone; the device joins the deferred ones just
-- when the number is -EPROBE_DEFER, or stays with them. If a trigger came during such a probe and
-- retries are enabled, all that were pending go to the active list and the work is queued.
pub really_probe-Refused :
    (p : Platform) (drv d : ℕ) (s t : Core) (ret : ℤ)
    → run_probe p drv d (started p drv d s) ≡ (ret, t)
    → is_nonzero ret ≡ true
    → t.driver d ≡ some drv
    → ((really_probe p drv d s).0 ≡ ok)
      × Refused p d s.triggers (eq_ret ret eprobe_defer) t (really_probe p drv d s).1
unfolding after_probe
really_probe-Refused p drv d s t ret h n b =
    subst (λ (o : ℤ × Core). (o.0 ≡ ok) × Refused p d s.triggers (eq_ret ret eprobe_defer) t o.1)
      (sym (really_probe-after p drv d s ∙ ap (after_probe p d s.triggers) h))
      (subst
        (λ (c : Bool).
          let o : ℤ × Core =
            if c
            then (
              ok,
              probe_done (
                  if eq_ret ret eprobe_defer
                  then defer_probe d s.triggers (clear_binding p d t)
                  else clear_binding p d t),
            )
            else (pos 1, probe_done (driver_bound p d t)) in
          (o.0 ≡ ok) × Refused p d s.triggers (eq_ret ret eprobe_defer) t o.1)
        (sym n)
        (
          refl,
          Refused-done p d s.triggers (eq_ret ret eprobe_defer) t
              (if eq_ret ret eprobe_defer
                then defer_probe d s.triggers (clear_binding p d t)
                else clear_binding p d t)
              (after_refusal p drv d s.triggers (eq_ret ret eprobe_defer) t b),
        ))
