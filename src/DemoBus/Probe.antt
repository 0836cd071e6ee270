-- ===== src/DemoBus/Probe.antt =====
-- The driver of resource.c: `demo_probe`, `demo_remove` and the device that the file declares.
use open_device.Base.{
  ℕ, Option, none, some, Bool, not, ◌&&◌, ◌==◌, List, [], ◌∷◌, if◌then◌else◌, ℤ, ok, enomem, enodev,
  ebusy, enxio,
}
use open_device.DemoBus.State.{
  Resource, ioresource_io, ioresource_mem, resource_size, get_resource, get_resource_byname,
}

-- What the kernel answers: is there memory for the private data, and at which address; may a region
-- of memory be claimed; where is it mapped.
pub record Answers : Type 0 where
  pub kmalloc : Option ℕ
  pub region_free : ℕ → ℕ → Bool
  pub ioremap : ℕ → ℕ → Option ℕ

-- What the driver holds of one device: the private data, the region with its start and size, the
-- mapping; and `drvdata`, the pointer that the device keeps.
pub record Holding : Type 0 where
  pub priv : Option ℕ
  pub region : Option (ℕ × ℕ)
  pub base : Option ℕ
  pub drvdata : Option ℕ

-- The text "demo_mem".
abbrev pub demo_mem : ℕ
demo_mem = 2

abbrev pub free_priv : Holding → Holding
free_priv h = record h { priv = none }

-- The label `err_free`.
abbrev pub err_free : ℤ → Holding → ℤ × Holding
err_free ret h = (ret, free_priv h)

-- The label `err_region`.
abbrev pub err_region : ℤ → Holding → ℤ × Holding
err_region ret h = err_free ret (record h { region = none })

-- From the lookup of the port resource on.
unfoldable pub probe_io : List Resource → Holding → ℤ × Holding
probe_io rs h = elim (get_resource rs ioresource_io 1) [ none ↦ (enxio, h) | some r ↦ (ok, h) ]

-- From the mapping on, for the memory resource.
unfoldable pub probe_map : Answers → List Resource → Resource → Holding → ℤ × Holding
unfolding probe_io
probe_map a rs r h = elim (a.ioremap r.start (resource_size r)) [
  | none ↦ err_region enomem (record h { base = none })
  | some b ↦ probe_io rs (record h { base = some b })
]

-- From the lookup of the memory resource on.
unfoldable pub probe_memory : Answers → List Resource → Holding → ℤ × Holding
unfolding probe_map
probe_memory a rs h = elim (get_resource_byname rs ioresource_mem demo_mem) [
  | none ↦ err_free enodev h
  | some r ↦
      if not (a.region_free r.start (resource_size r))
      then err_free ebusy h
      else probe_map a rs r (record h { region = some (r.start, resource_size r) })
]

unfoldable pub demo_probe : Answers → List Resource → Holding → ℤ × Holding
unfolding probe_memory
demo_probe a rs h = elim (a.kmalloc) [
  | none ↦ (enomem, h)
  | some p ↦ probe_memory a rs (record h { priv = some p; base = none; drvdata = some p })
]

-- `release_mem_region` gives back a region that was claimed with the same start and size.
abbrev pub release_region : Resource → Option (ℕ × ℕ) → Option (ℕ × ℕ)
release_region r none = none
release_region r (some (start, size)) =
    if (start == r.start) && (size == resource_size r) then none else some (start, size)

-- `none` is a null pointer that is read through: no private data, or no memory resource.
unfoldable pub demo_remove : List Resource → Holding → Option (ℤ × Holding)
demo_remove rs h = elim (h.drvdata) [
  | none ↦ none
  | some p ↦ elim (get_resource_byname rs ioresource_mem demo_mem) [
    | none ↦ none
    | some r ↦ some (
      ok,
      record { priv = none; region = release_region r h.region; base = none; drvdata = none },
    )
  ]
]

-- `demo_resources`.
abbrev pub demo_resources : List Resource
demo_resources =
    record { addr = 1; name = some 1; start = 29425664; stop = 29425680; kind = ioresource_io }
    ∷ record {
      addr = 2;
      name = some demo_mem;
      start = 29491200;
      stop = 29491216;
      kind = ioresource_mem;
    }
    ∷ []
