-- ===== src/Driver/Rounds.antt =====
-- The lists of deferred devices after the drivers of the bus were tried on one device.
use open_device.Base.{
  ℕ, ◌+◌, ◌≤◌, ◌≡◌, ◌∙◌, ◌⊎◌, inl, inr, refl, sym, subst, ap, ap₂, some, is_some, Bool, true, false,
  not, ◌||◌, List, [], ◌∷◌, ◌++◌, arith, ==_refl, if◌then◌else◌, has, length, length-append,
  if_cases, ℤ, is_nonzero, eq_ret, eprobe_defer,
}
use open_device.Driver.State.{Core, Platform, at}
use open_device.Driver.Deferred.{is_deferred, unlink, next_count, driver_bound, attach_to_driver}
use open_device.Driver.Probe.{
  really_probe, run_probe, after_probe, clear_binding, defer_probe, probe_done,
}
use open_device.Driver.Outcome.{started, really_probe-after, Bound, attach_to_driver-Bound}
use open_device.Driver.Undone.{put, put-deferred}
use open_device.Driver.Quiet.{
  Same, Same-trans, Joined, Settled, IsQuiet, deferred_once, clear_binding-Same,
  driver_sysfs_add-Same, run_probe-Same,
}

abbrev pub Tried : ℕ → Core → Core → Type 0
Tried d s u = Joined d s u ⊎ Settled d s u

unlink-last : (d : ℕ) (xs : List ℕ) → unlink d (xs ++ d ∷ []) ≡ unlink d xs
unlink-last d [] = ground (arith, ==_refl d)
unlink-last d (x ∷ xs) = ground (arith, unlink-last d xs)

unlink-put : (d : ℕ) (s : Core) → unlink d (put d s) ≡ unlink d s.pending
unlink-put d s =
    if_cases (λ xs. unlink d xs ≡ unlink d s.pending) (not (is_deferred d s))
      (λ _. unlink-last d s.pending) (λ _. refl)

put-put : (d : ℕ) (s t : Core) → t.pending ≡ put d s → t.active ≡ s.active → put d t ≡ put d s
put-put d s t h k =
    let w : is_deferred d t ≡ true = ap₂ (λ x y. has d x || has d y) h k ∙ put-deferred d s in
    ap (λ b. if not b then t.pending ++ d ∷ [] else t.pending) w ∙ h

Joined-unlink : (d : ℕ) (s t : Core) → Joined d s t → unlink d t.pending ≡ unlink d s.pending
Joined-unlink d s t j = elim (j.pending) [
  | inl e ↦ ap (unlink d) e
  | inr e ↦ ap (unlink d) e ∙ unlink-put d s
]

Joined-trans : (d : ℕ) (s t u : Core) → Joined d s t → Joined d t u → Joined d s u
Joined-trans d s t u j k = record {
  pending = elim (k.pending) [
    | inl e ↦ elim (j.pending) [ inl f ↦ inl (e ∙ f) | inr f ↦ inr (e ∙ f) ]
    | inr e ↦ elim (j.pending) [
      | inl f ↦
          inr (e ∙ ap₂ (λ x y. if not (has d x || has d y) then x ++ d ∷ [] else x) f j.active)
      | inr f ↦ inr (e ∙ put-put d s t f j.active)
    ]
  ];
  active = k.active ∙ j.active;
}

pub Tried-trans : (d : ℕ) (s t u : Core) → Joined d s t → Tried d t u → Tried d s u
Tried-trans d s t u j (inl k) = inl (Joined-trans d s t u j k)
Tried-trans d s t u j (inr k) = inr (record {
  total =
      subst (λ (n : ℕ). length u.pending + length u.active ≤ n)
        (ap₂ (λ x y. length x + length y) (Joined-unlink d s t j) (ap (unlink d) j.active)) k.total;
})

Bound-total :
    (d : ℕ) (s t u : Core)
    → Same s t
    → Bound d t u
    → length u.pending + length u.active ≤ length (unlink d s.pending) + length (unlink d s.active)
Bound-total d s t u e b = grind (arith, b.pending, b.active, e.pending, e.active, length-append)

pub attached-Tried : (p : Platform) (d : ℕ) (s t : Core) → Same s t → Tried d s (driver_bound p d t)
unfolding driver_bound
attached-Tried p d s t e =
    if_cases (λ u. Tried d s u) (is_some (t.attached d))
      (λ _. inl (record { pending = inl e.pending; active = e.active }))
      (λ _. inr (record {
        total = Bound-total d s t (attach_to_driver p d t) e (attach_to_driver-Bound p d t);
      }))

-- One driver tried on a device: a result that ends the search, or the device deferred at most.
pub record Answered (d : ℕ) (s : Core) (o : ℤ × Core) : Type 0 where
  pub tried : Tried d s o.1
  pub goes_on : is_nonzero o.0 ≡ false → Joined d s o.1

Joined-done : (d : ℕ) (s u : Core) → Joined d s u → Joined d s (probe_done u)
Joined-done d s u j = record { pending = j.pending; active = j.active }

Tried-done : (d : ℕ) (s u : Core) → Tried d s u → Tried d s (probe_done u)
Tried-done d s u (inl j) = inl (Joined-done d s u j)
Tried-done d s u (inr k) = inr (record { total = k.total })

pub Joined-Same : (d : ℕ) (s u : Core) → Same s u → Joined d s u
Joined-Same d s u e = record { pending = inl e.pending; active = e.active }

refused-Joined :
    (p : Platform) (d : ℕ) (s t : Core) (again : Bool)
    → Same s t
    → Joined d s
        (if again then defer_probe d s.triggers (clear_binding p d t) else clear_binding p d t)
refused-Joined p d s t again e =
    let v : Core = clear_binding p d t in
    let sv : Same s v = Same-trans s t v e (clear_binding-Same p d t) in
    if_cases (λ u. Joined d s u) again (λ _. deferred_once d s v sv) (λ _. Joined-Same d s v sv)

after_probe-Answered :
    (p : Platform) (d : ℕ) (s : Core) (o : ℤ × Core)
    → Same s o.1
    → Answered d s (after_probe p d s.triggers o)
unfolding after_probe
after_probe-Answered p d s o e =
    let again : Bool = eq_ret o.0 eprobe_defer in
    let v : Core = clear_binding p d o.1 in
    let w : Core = if again then defer_probe d s.triggers v else v in
    let j : Joined d s (probe_done w) = Joined-done d s w (refused-Joined p d s o.1 again e) in
    if_cases (λ (a : ℤ × Core). Answered d s a) (is_nonzero o.0)
      (λ _. record { tried = inl j; goes_on = λ _. j })
      (λ _. record {
        tried = Tried-done d s (driver_bound p d o.1) (attached-Tried p d s o.1 e);
        goes_on = λ (h : true ≡ false). ground arith;
      })

started-Same : (p : Platform) (drv d : ℕ) (s : Core) → Same s (started p drv d s)
started-Same p drv d s =
    let t : Core = record s { probes = next_count s.probes; driver = at s.driver d (some drv) } in
    Same-trans s t (started p drv d s) (record { pending = refl; active = refl; triggers = refl })
      (driver_sysfs_add-Same p d t)

pub really_probe-Answered :
    (p : Platform) (drv d : ℕ) (s : Core) → IsQuiet p → Answered d s (really_probe p drv d s)
really_probe-Answered p drv d s q =
    let t : Core = started p drv d s in
    subst (λ (o : ℤ × Core). Answered d s o) (sym (really_probe-after p drv d s))
      (after_probe-Answered p d s (run_probe p drv d t) (
        Same-trans s t (run_probe p drv d t).1 (started-Same p drv d s)
          (run_probe-Same p drv d t q)))
