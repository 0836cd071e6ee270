-- ===== src/DemoBus/Held.antt =====
-- What the driver of resource.c holds after a probe and after the removal.
use open_device.Base.{
  ℕ, ◌+◌, ◌≡◌, refl, Option, none, some, is_some, not, ◌||◌, List, if◌then◌else◌, if_cases, ℤ, ok,
  eq_ret, enomem, enodev, ebusy, enxio,
}
use open_device.DemoBus.State.{
  Resource, ioresource_io, ioresource_mem, resource_size, get_resource, get_resource_byname,
}
use open_device.DemoBus.Probe.{
  Answers, Holding, demo_mem, err_free, err_region, probe_io, probe_map, probe_memory, demo_probe,
}

-- A device that no driver holds anything of.
abbrev pub unheld : Holding
unheld = record { priv = none; region = none; base = none; drvdata = none }

abbrev pub count_one {ℓ} : {A : Type ℓ} → Option A → ℕ
count_one m = if is_some m then 1 else 0

-- How many of the three things are held.
abbrev pub held : Holding → ℕ
held h = count_one h.priv + count_one h.region + count_one h.base

-- Every result of the probe but 0 and -ENXIO releases what was taken.
abbrev pub HeldAsSaid : ℤ × Holding → Type 0
HeldAsSaid o = held o.1 ≡ (if eq_ret o.0 ok || eq_ret o.0 enxio then 3 else 0)

found_io :
    (m : Option Resource) (h : Holding)
    → held h ≡ 3
    → (let o : ℤ × Holding = elim m [ none ↦ (enxio, h) | some r ↦ (ok, h) ] in HeldAsSaid o)
found_io none h e = e
found_io (some r) h e = e

mapped :
    (m : Option ℕ) (rs : List Resource) (p : ℕ) (g : ℕ × ℕ) (dd : Option ℕ)
    → (let h : Holding = record { priv = some p; region = some g; base = none; drvdata = dd } in
        let o : ℤ × Holding = elim m [
          | none ↦ err_region enomem (record h { base = none })
          | some b ↦ probe_io rs (record h { base = some b })
        ] in
        HeldAsSaid o)
unfolding probe_io
mapped none rs p g dd = refl
mapped (some b) rs p g dd =
    found_io (get_resource rs ioresource_io 1)
      (record { priv = some p; region = some g; base = some b; drvdata = dd }) refl

found_memory :
    (a : Answers) (m : Option Resource) (rs : List Resource) (p : ℕ) (dd : Option ℕ)
    → (let h : Holding = record { priv = some p; region = none; base = none; drvdata = dd } in
        let o : ℤ × Holding = elim m [
          | none ↦ err_free enodev h
          | some r ↦
              if not (a.region_free r.start (resource_size r))
              then err_free ebusy h
              else probe_map a rs r (record h { region = some (r.start, resource_size r) })
        ] in
        HeldAsSaid o)
unfolding probe_map
found_memory a none rs p dd = refl
found_memory a (some r) rs p dd =
    let h : Holding = record { priv = some p; region = none; base = none; drvdata = dd } in
    if_cases (λ (o : ℤ × Holding). HeldAsSaid o) (not (a.region_free r.start (resource_size r)))
      {x = err_free ebusy h}
      {y = probe_map a rs r (record h { region = some (r.start, resource_size r) })} (λ _. refl)
      (λ _. mapped (a.ioremap r.start (resource_size r)) rs p (r.start, resource_size r) dd)

started_probe :
    (a : Answers) (m : Option ℕ) (rs : List Resource)
    → (let o : ℤ × Holding = elim m [
      | none ↦ (enomem, unheld)
      | some p ↦ probe_memory a rs (record unheld { priv = some p; base = none; drvdata = some p })
    ] in
        HeldAsSaid o)
unfolding probe_memory
started_probe a none rs = refl
started_probe a (some p) rs =
    found_memory a (get_resource_byname rs ioresource_mem demo_mem) rs p (some p)

-- After the probe of a device that nothing was held of, the driver holds private data, region and
-- mapping together if the result is 0 or -ENXIO, and nothing of them after any other error.
pub demo_probe-HeldAsSaid : (a : Answers) (rs : List Resource) → HeldAsSaid (demo_probe a rs unheld)
unfolding demo_probe
demo_probe-HeldAsSaid a rs = started_probe a a.kmalloc rs
