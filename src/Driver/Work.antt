-- ===== src/Driver/Work.antt =====
-- The work that retries the deferred devices ends: each device leaves the active list for the pending
-- one, or leaves both and moves the others at most once.
use open_device.Base.{
  ℕ, zero, suc, ◌+◌, ◌-◌, ◌≤◌, ◌<◌, ◌≡◌, inl, inr, refl, subst, ap, Option, none, some, is_some,
  not, List, [], ◌∷◌, ◌++◌, arith, if◌then◌else◌, length, length-append, if_cases, ℤ, ok,
  is_nonzero, enodev,
}
use mathlib.Core.List.{map}
use open_device.Driver.State.{Core, Platform, Event, at, add_interface}
use open_device.Driver.Deferred.{unlink, driver_sysfs_add, device_bind_driver}
use open_device.Driver.Attach.{
  try_driver, driver_match_device, driver_probe_device, for_each_drv, rebind, device_attach,
  bus_probe_device, deferred_probe_work,
}
use open_device.Driver.Lists.{length-unlink}
use open_device.Driver.Quiet.{Same, Same-refl, Joined, IsQuiet, driver_sysfs_add-Same}
use open_device.Driver.Rounds.{
  Tried, Answered, Joined-Same, Tried-trans, attached-Tried, really_probe-Answered,
}

Answered-Same : (d : ℕ) (s : Core) (ret : ℤ) → Answered d s (ret, s)
Answered-Same d s ret = record {
  tried = inl (Joined-Same d s s (Same-refl s));
  goes_on = λ _. Joined-Same d s s (Same-refl s);
}

try_driver-Answered :
    (p : Platform) (drv d : ℕ) (s : Core) → IsQuiet p → Answered d s (try_driver p drv d s)
unfolding try_driver driver_probe_device
try_driver-Answered p drv d s q =
    if_cases (λ (o : ℤ × Core). Answered d s o) (not (driver_match_device p drv d))
      (λ _. Answered-Same d s ok)
      (λ _.
        if_cases (λ (o : ℤ × Core). Answered d s o) (not (p.registered d))
          (λ _. Answered-Same d s enodev) (λ _. really_probe-Answered p drv d s q))

for_each_drv-Tried :
    (p : Platform) (d : ℕ) (drvs : List ℕ) (s : Core)
    → IsQuiet p
    → Tried d s (for_each_drv p d drvs s).1
unfolding for_each_drv
for_each_drv-Tried p d [] s q = inl (Joined-Same d s s (Same-refl s))
for_each_drv-Tried p d (drv ∷ drvs) s q =
    let o : ℤ × Core = try_driver p drv d s in
    let a : Answered d s o = try_driver-Answered p drv d s q in
    if_cases (λ (r : ℤ × Core). Tried d s r.1) (is_nonzero o.0) (λ _. a.tried)
      (λ h.
        Tried-trans d s o.1 (for_each_drv p d drvs o.1).1 (a.goes_on h)
          (for_each_drv-Tried p d drvs o.1 q))

bind-Tried : (p : Platform) (d : ℕ) (s : Core) → Tried d s (device_bind_driver p d s).1
unfolding device_bind_driver
bind-Tried p d s =
    let t : Core = (driver_sysfs_add p d s).1 in
    let e : Same s t = driver_sysfs_add-Same p d s in
    if_cases (λ (u : Core). Tried d s u) (is_nonzero (driver_sysfs_add p d s).0)
      (λ _. inl (Joined-Same d s t e)) (λ _. attached-Tried p d s t e)

Tried_driver :
    (d : ℕ) (s u : Core) (v : ℕ → Option ℕ) → Tried d s u → Tried d s (record u { driver = v })
Tried_driver d s u v (inl j) = inl (record { pending = j.pending; active = j.active })
Tried_driver d s u v (inr k) = inr (record { total = k.total })

rebind-Tried : (p : Platform) (d : ℕ) (s : Core) → Tried d s (rebind p d s).1
unfolding rebind
rebind-Tried p d s =
    let o : ℤ × Core = device_bind_driver p d s in
    if_cases (λ (r : ℤ × Core). Tried d s r.1) (is_nonzero o.0)
      (λ _. Tried_driver d s o.1 (at o.1.driver d none) (bind-Tried p d s)) (λ _. bind-Tried p d s)

device_attach-Tried :
    (p : Platform) (d : ℕ) (s : Core) → IsQuiet p → Tried d s (device_attach p d s).1
unfolding device_attach
device_attach-Tried p d s q =
    if_cases (λ (r : ℤ × Core). Tried d s r.1) (is_some (s.driver d)) (λ _. rebind-Tried p d s)
      (λ _.
        if_cases (λ (r : ℤ × Core). Tried d s r.1) (p.on_bus d)
          (λ _. for_each_drv-Tried p d p.drivers s q) (λ _. inl (Joined-Same d s s (Same-refl s))))

Tried_events :
    (d : ℕ) (s u : Core) (v : List Event)
    → Tried d s u
    → Tried d s (record u { events = u.events ++ v })
Tried_events d s u v (inl j) = inl (record { pending = j.pending; active = j.active })
Tried_events d s u v (inr k) = inr (record { total = k.total })

bus_probe_device-Tried :
    (p : Platform) (d : ℕ) (s : Core) → IsQuiet p → Tried d s (bus_probe_device p d s)
unfolding bus_probe_device
bus_probe_device-Tried p d s q =
    if_cases (λ u. Tried d s u) (p.on_bus d)
      (λ _.
        Tried_events d s (if p.autoprobe then (device_attach p d s).1 else s)
          (map (add_interface d) p.interfaces)
          (if_cases (λ u. Tried d s u) p.autoprobe (λ _. device_attach-Tried p d s q)
            (λ _. inl (Joined-Same d s s (Same-refl s)))))
      (λ _. inl (Joined-Same d s s (Same-refl s)))

-- The rounds that are enough for `n` deferred devices, when every list move starts a new one.
abbrev pub rounds : ℕ → ℕ
rounds zero = zero
rounds (suc n) = suc n + rounds n

abbrev pub deferred_count : Core → ℕ
deferred_count s = length s.pending + length s.active

rounds-add : (m k : ℕ) → rounds m ≤ rounds (k + m)
rounds-add m zero = let e : rounds (0 + m) ≡ rounds m = ap rounds (omega arith) in omega arith
rounds-add m (suc k) =
    let ih : rounds m ≤ rounds (k + m) = rounds-add m k in
    let e : rounds (suc k + m) ≡ rounds (suc (k + m)) = ap rounds {y = suc (k + m)} (omega arith) in
    omega arith

rounds_mono : (m n : ℕ) → m ≤ n → rounds m ≤ rounds n
rounds_mono m n h =
    let e : (n - m) + m ≡ n = omega arith in
    subst (λ k. rounds m ≤ rounds k) e (rounds-add m (n - m))

Joined-length : (d : ℕ) (s u : Core) → Joined d s u → length u.pending ≤ suc (length s.pending)
Joined-length d s u j = elim (j.pending) [
  | inl e ↦ grind (arith, e)
  | inr e ↦ grind (arith, e, length-append)
]

-- What is left to do: it falls with each device that the work takes from the active list.
abbrev pub work_left : Core → ℕ
work_left s = rounds (deferred_count s) + length s.active

Tried-work_left :
    (d : ℕ) (rest : List ℕ) (s u : Core)
    → s.active ≡ d ∷ rest
    → Tried d (record s { active = rest }) u
    → work_left u < work_left s
Tried-work_left d rest s u h (inl j) =
    let a : length s.active ≡ suc (length rest) = ap length h in
    let b : length u.active ≡ length rest = ap length j.active in
    let c : length u.pending ≤ suc (length s.pending) =
      Joined-length d (record s { active = rest }) u j in
    let m : rounds (deferred_count u) ≤ rounds (deferred_count s) =
      rounds_mono (deferred_count u) (deferred_count s) (omega arith) in
    omega arith
Tried-work_left d rest s u h (inr k) =
    let a : length s.active ≡ suc (length rest) = ap length h in
    let b : length (unlink d s.pending) ≤ length s.pending = length-unlink d s.pending in
    let c : length (unlink d rest) ≤ length rest = length-unlink d rest in
    let t : deferred_count u ≤ length (unlink d s.pending) + length (unlink d rest) = k.total in
    let m : rounds (suc (deferred_count u)) ≤ rounds (deferred_count s) =
      rounds_mono (suc (deferred_count u)) (deferred_count s) (omega arith) in
    omega arith

-- The work returned with nothing left in the active list.
abbrev pub Emptied : Option Core → Type 0
Emptied o = (u : Core) × (o ≡ some u) × (u.active ≡ [])

-- One turn of the loop, by what the active list holds.
work_turn :
    (p : Platform) (fuel : ℕ) (s : Core) (todo : List ℕ)
    → IsQuiet p
    → s.active ≡ todo
    → work_left s < suc fuel
    → ((u : Core) → work_left u < fuel → Emptied (deferred_probe_work p fuel u))
    → (let o : Option Core = elim todo [
      | [] ↦ some s
      | d ∷ rest ↦ deferred_probe_work p fuel (bus_probe_device p d (record s { active = rest }))
    ] in
        Emptied o)
work_turn p fuel s [] q e h rec = (s, refl, e)
work_turn p fuel s (d ∷ rest) q e h rec =
    let t : Core = record s { active = rest } in
    let u : Core = bus_probe_device p d t in
    let l : work_left u < work_left s =
      Tried-work_left d rest s u e (bus_probe_device-Tried p d t q) in
    rec u (omega arith)

-- With probe functions that leave the lists and the triggers alone, the work ends within as many
-- turns as `work_left` counts and one more, and leaves the active list empty.
pub deferred_probe_work-ends :
    (p : Platform) (fuel : ℕ) (s : Core)
    → IsQuiet p
    → work_left s < fuel
    → Emptied (deferred_probe_work p fuel s)
unfolding deferred_probe_work
deferred_probe_work-ends p zero s q h = ground arith
deferred_probe_work-ends p (suc fuel) s q h =
    work_turn p fuel s s.active q refl h (λ u l. deferred_probe_work-ends p fuel u q l)
