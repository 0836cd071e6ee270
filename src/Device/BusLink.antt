-- ===== src/Device/BusLink.antt =====
-- A device on its bus: bus/common/device/device_register/bus.c.
use open_device.Base.{ℕ, suc, ◌-◌, true, false, if◌then◌else◌, ℤ, ok, is_nonzero}
use open_device.Device.State.{Desc, BusPart, Tried}
use open_device.Device.Attrs.{remove_table, add_table}
use open_device.Device.Links.{create}

module _ (answer : ℕ → ℤ) where
  -- From the link in the bus's device directory on; the labels drop what was made and the reference.
  unfoldable pub link_on_bus : Desc → BusPart → ℕ → Tried BusPart
  link_on_bus d b a =
      let (e, c, a') = create answer (λ c. record c { link = true }) b a in
      if is_nonzero e
      then (e, record c { attrs = remove_table d.bus_attrs c.attrs; refs = c.refs - 1 }, a')
      else (ok, record c { listed = true }, a')

  unfoldable pub bus_add_device : Desc → BusPart → ℕ → Tried BusPart
  bus_add_device d b a =
      if d.has_bus
      then (let (e, f, a') = add_table answer d.bus_attrs b.attrs a in
          if is_nonzero e
          then (e, record b { attrs = f; refs = suc b.refs - 1 }, a')
          else link_on_bus d (record b { attrs = f; refs = suc b.refs }) a')
      else (ok, b, a)

-- What the removal takes from the bus; the interfaces are told before it and the driver is released
-- before the reference is given back (`del_events` of `Add`).
unfoldable pub bus_remove_device : Desc → BusPart → BusPart
bus_remove_device d b =
    if d.has_bus
    then record b {
      link = false;
      attrs = remove_table d.bus_attrs b.attrs;
      listed = false;
      refs = b.refs - 1;
    }
    else b
