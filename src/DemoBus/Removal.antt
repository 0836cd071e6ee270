-- ===== src/DemoBus/Removal.antt =====
-- The removal of a device that the driver of resource.c has probed, and the probe of the device that
-- the file declares.
use open_device.Base.{
  ℕ, ◌≡◌, refl, ap, Option, none, some, true, not, ==_refl, List, arith, if◌then◌else◌, if_cases, ℤ,
  ok, eq_ret, is_nonzero, enomem, enodev, ebusy, enxio,
}
use open_device.DemoBus.State.{
  Resource, ioresource_io, ioresource_mem, resource_size, get_resource, get_resource_byname,
}
use open_device.DemoBus.Probe.{
  Answers, Holding, demo_mem, err_free, err_region, probe_io, probe_map, probe_memory, demo_probe,
  demo_remove, demo_resources, release_region,
}
use open_device.DemoBus.Held.{unheld}

-- After a probe that returns 0, the removal gives everything back.
abbrev Removes : List Resource → ℤ × Holding → Type 0
Removes rs o = eq_ret o.0 ok ≡ true → demo_remove rs o.1 ≡ some (ok, unheld)

abbrev pub Failed : ℤ × Holding → Type 0
Failed o = is_nonzero o.0 ≡ true

-- The state after the mapping.
abbrev full : ℕ → ℕ → Resource → Holding
full p b r = record {
  priv = some p;
  region = some (r.start, resource_size r);
  base = some b;
  drvdata = some p;
}

release_region-own : (r : Resource) → release_region r (some (r.start, resource_size r)) ≡ none
release_region-own r = ground (arith, ==_refl r.start, ==_refl (resource_size r))

remove-full :
    (rs : List Resource) (r : Resource) (p b : ℕ)
    → get_resource_byname rs ioresource_mem demo_mem ≡ some r
    → demo_remove rs (full p b r) ≡ some (ok, unheld)
unfolding demo_remove
remove-full rs r p b e =
    rw (e, demo_remove)
      (ap (λ (x : Option (ℕ × ℕ)). some (ok, record unheld { region = x })) (release_region-own r))

io-Removes :
    (m : Option Resource) (rs : List Resource) (h : Holding)
    → demo_remove rs h ≡ some (ok, unheld)
    → (let o : ℤ × Holding = elim m [ none ↦ (enxio, h) | some r ↦ (ok, h) ] in Removes rs o)
io-Removes none rs h e = λ f. ground arith
io-Removes (some r) rs h e = λ f. e

map-Removes :
    (m : Option ℕ) (rs : List Resource) (r : Resource) (p : ℕ)
    → get_resource_byname rs ioresource_mem demo_mem ≡ some r
    → (let h : Holding = record {
      priv = some p;
      region = some (r.start, resource_size r);
      base = none;
      drvdata = some p;
    } in
        let o : ℤ × Holding = elim m [
          | none ↦ err_region enomem (record h { base = none })
          | some b ↦ probe_io rs (record h { base = some b })
        ] in
        Removes rs o)
unfolding probe_io
map-Removes none rs r p e = λ f. ground arith
map-Removes (some b) rs r p e =
    io-Removes (get_resource rs ioresource_io 1) rs (full p b r) (remove-full rs r p b e)

memory-Removes :
    (a : Answers) (m : Option Resource) (rs : List Resource) (p : ℕ)
    → get_resource_byname rs ioresource_mem demo_mem ≡ m
    → (let h : Holding = record { priv = some p; region = none; base = none; drvdata = some p } in
        let o : ℤ × Holding = elim m [
          | none ↦ err_free enodev h
          | some r ↦
              if not (a.region_free r.start (resource_size r))
              then err_free ebusy h
              else probe_map a rs r (record h { region = some (r.start, resource_size r) })
        ] in
        Removes rs o)
unfolding probe_map
memory-Removes a none rs p e = λ f. ground arith
memory-Removes a (some r) rs p e =
    let h : Holding = record { priv = some p; region = none; base = none; drvdata = some p } in
    if_cases (λ (o : ℤ × Holding). Removes rs o) (not (a.region_free r.start (resource_size r)))
      {x = err_free ebusy h}
      {y = probe_map a rs r (record h { region = some (r.start, resource_size r) })}
      (λ _ f. ground arith) (λ _. map-Removes (a.ioremap r.start (resource_size r)) rs r p e)

probe-Removes :
    (a : Answers) (m : Option ℕ) (rs : List Resource)
    → (let o : ℤ × Holding = elim m [
      | none ↦ (enomem, unheld)
      | some p ↦ probe_memory a rs (record unheld { priv = some p; base = none; drvdata = some p })
    ] in
        Removes rs o)
unfolding probe_memory
probe-Removes a none rs = λ f. ground arith
probe-Removes a (some p) rs =
    memory-Removes a (get_resource_byname rs ioresource_mem demo_mem) rs p refl

-- A probe that returns 0 is undone by the removal: it returns 0, and the driver holds nothing of the
-- device, the device no pointer.
pub demo_remove-demo_probe :
    (a : Answers) (rs : List Resource)
    → eq_ret (demo_probe a rs unheld).0 ok ≡ true
    → demo_remove rs (demo_probe a rs unheld).1 ≡ some (ok, unheld)
unfolding demo_probe
demo_remove-demo_probe a rs = probe-Removes a a.kmalloc rs

map-Failed :
    (m : Option ℕ) (h : Holding)
    → (let o : ℤ × Holding = elim m [
      | none ↦ err_region enomem (record h { base = none })
      | some b ↦ probe_io demo_resources (record h { base = some b })
    ] in
        Failed o)
unfolding probe_io get_resource
map-Failed none h = refl
map-Failed (some b) h = refl

start-Failed :
    (a : Answers) (m : Option ℕ) (h : Holding)
    → (let o : ℤ × Holding = elim m [
      | none ↦ (enomem, h)
      | some p ↦
          probe_memory a demo_resources (record h { priv = some p; base = none; drvdata = some p })
    ] in
        Failed o)
unfolding probe_memory get_resource_byname probe_map
start-Failed a none h = refl
start-Failed a (some p) h =
    if_cases (λ (o : ℤ × Holding). Failed o) (not (a.region_free 29491200 17)) (λ _. refl)
      (λ _.
        map-Failed (a.ioremap 29491200 17)
          (record h { priv = some p; region = some (29491200, 17); base = none; drvdata = some p }))

-- The probe of the device that the file declares fails, whatever the kernel answers.
pub demo_probe-demo_resources : (a : Answers) (h : Holding) → Failed (demo_probe a demo_resources h)
unfolding demo_probe
demo_probe-demo_resources a h = start-Failed a a.kmalloc h
