-- ===== src/Device/OnBus.antt =====
-- The bus part of `demo_device_add` and of `demo_device_del`: made whole or not at all, removed whole.
use open_device.Base.{
  ℕ, suc, ◌≡◌, true, false, arith, if◌then◌else◌, Bool-cases, if_cases, inl, inr, ℤ, is_nonzero,
}
use open_device.Device.State.{Desc, BusPart, Tried}
use open_device.Device.Attrs.{add_table}
use open_device.Device.BusLink.{bus_add_device, link_on_bus}
use open_device.Device.Tables.{Holds, Settled, add_table-Settled, remove_table-Holds}

-- The bus knows nothing of the device and holds `n` references.
pub record OffBus (n : ℕ) (b : BusPart) : Type 0 where
  pub attrs : Holds 0 b.attrs
  pub link : b.link ≡ false
  pub listed : b.listed ≡ false
  pub refs : b.refs ≡ n

-- On its bus, with every attribute file.
pub record OnBus (d : Desc) (n : ℕ) (b : BusPart) : Type 0 where
  pub attrs : Holds (if d.has_bus then d.bus_attrs else 0) b.attrs
  pub link : b.link ≡ d.has_bus
  pub listed : b.listed ≡ d.has_bus
  pub refs : b.refs ≡ (if d.has_bus then suc n else n)

module _ (answer : ℕ → ℤ) (d : Desc) where
  abbrev pub BusDone : ℕ → Tried BusPart → Type 0
  BusDone n (e, b, _) = Settled e (OffBus n b) (OnBus d n b)

  link_on_bus-BusDone :
      (n : ℕ) (b : BusPart) (a : ℕ)
      → d.has_bus ≡ true
      → Holds d.bus_attrs b.attrs
      → b.link ≡ false
      → b.listed ≡ false
      → b.refs ≡ suc n
      → BusDone n (link_on_bus answer d b a)
  unfolding link_on_bus
  link_on_bus-BusDone n b a bus h l k r = elim (Bool-cases (is_nonzero (answer a))) [
    | inl bad ↦
        rw (bad, bad)
          (
            λ e. record {
              attrs = remove_table-Holds _ _ h;
              link = l;
              listed = k;
              refs = omega arith;
            },
            λ e. absurd (cc),
          )
    | inr good ↦ rw good (
      λ e. absurd (cc),
      λ e. record { attrs = rw bus h; link = rw bus; listed = rw bus; refs = rw bus r },
    )
  ]

  pub bus_add_device-BusDone :
      (n : ℕ) (b : BusPart) (a : ℕ) → OffBus n b → BusDone n (bus_add_device answer d b a)
  unfolding bus_add_device
  bus_add_device-BusDone n b a h =
      if_cases (BusDone n) d.has_bus
        (λ bus.
          let (undone, made) = add_table-Settled answer d.bus_attrs b.attrs a h.attrs in
          let o = add_table answer d.bus_attrs b.attrs a in
          if_cases (BusDone n) (is_nonzero o.0)
            (λ bad. (
              λ e. record {
                attrs = undone bad;
                link = h.link;
                listed = h.listed;
                refs = omega (arith, h.refs);
              },
              λ e. absurd (cc),
            ))
            (λ good.
              link_on_bus-BusDone n (record b { attrs = o.1; refs = suc b.refs }) o.2 bus
                (made good) h.link h.listed (omega (arith, h.refs))))
        (λ off. (
          λ e. h,
          λ e. record {
            attrs = rw off h.attrs;
            link = rw off h.link;
            listed = rw off h.listed;
            refs = rw off h.refs;
          },
        ))
