-- ===== src/Joint/Machine.antt =====
-- A device and the driver core together. The calls that adding and deleting a device make into the
-- driver core run on its state, in their order, behind the rest, which does not read it; the other calls
-- go to listeners and leave it alone.
use open_device.Base.{ℕ, none, some, Bool, true, false, List, [], ◌∷◌, ℤ}
use open_device.Device.State.{
  Desc, Device, Event, notify_add, notify_del, uevent_add, uevent_remove, probe, release_driver,
  deferred_del, class_add, class_remove, bus_remove,
}
use open_device.Device.Add.{device_add, device_del}
use open_device.Driver.State.{Core, Platform, at}
use open_device.Driver.Deferred.{deferred_probe_del}
use open_device.Driver.Attach.{bus_probe_device, device_release_driver}

-- One call, of device `id`.
unfoldable pub perform : Platform → ℕ → Event → Core → Core
perform p id probe c = bus_probe_device p id c
perform p id release_driver c = device_release_driver p id c
perform p id deferred_del c = deferred_probe_del id c
perform p id notify_add c = c
perform p id notify_del c = c
perform p id uevent_add c = c
perform p id uevent_remove c = c
perform p id (class_add n) c = c
perform p id (class_remove n) c = c
perform p id (bus_remove n) c = c

unfoldable pub perform_calls : Platform → ℕ → List Event → Core → Core
unfolding perform
perform_calls p id [] c = c
perform_calls p id (e ∷ es) c = perform_calls p id es (perform p id e c)

-- `dev->p` is that of the core: the `has_private` of the device is what the addition makes of it.
pub record Machine : Type 0 where
  pub device : Device
  pub core : Core

-- `demo_device_initialize`: one reference, and not in sysfs. Of the other fields that it sets the model
-- has none.
unfoldable pub device_initialize : Device → Device
device_initialize s = record s { refs = 1; in_sysfs = false }

-- `dev->p` is there; or it is freed, with the driver data and the node of the driver's list in it. A
-- node of a deferred list would be freed in the list.
abbrev pub with_private : Bool → ℕ → Core → Core
with_private true id c = record c { has_private = at c.has_private id true }
with_private false id c = record c {
  has_private = at c.has_private id false;
  drvdata = at c.drvdata id none;
  attached = at c.attached id none;
}

-- The device as the addition finds it.
abbrev pub before_add : Desc → Machine → Device
before_add d m =
    device_initialize (record m.device { events = []; has_private = m.core.has_private d.id })

-- `demo_device_register`: the calls of the addition, from none on, run on the core. Only an addition
-- that succeeds calls the driver core, and it has its private data by then.
unfoldable pub device_register : Platform → (ℕ → ℤ) → Desc → Machine → ℤ × Machine
unfolding device_initialize
device_register p answer d m =
    let o = device_add answer (some d) (before_add d m) 0 in
    let c : Core = with_private o.1.has_private d.id m.core in
    (o.0, record { device = o.1; core = perform_calls p d.id o.1.events c })

-- `demo_device_unregister`.
unfoldable pub device_unregister : Platform → Desc → Machine → Machine
device_unregister p d m =
    let t : Device = device_del d (record m.device { events = [] }) in
    record { device = t; core = perform_calls p d.id t.events m.core }
