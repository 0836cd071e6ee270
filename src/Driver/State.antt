-- ===== src/Driver/State.antt =====
-- The state of the driver core: what it keeps of each device, and the globals of driver.c.
use open_device.Base.{ℕ, Option, Bool, List, [], ◌∷◌, ◌++◌, ◌==◌, if◌then◌else◌, ℤ}

-- Calls of code outside the driver core. The numbers are the driver's and the device's.
pub data Event : Type 0 where
  notify_bind : ℕ → Event
  notify_bound : ℕ → Event
  notify_unbind : ℕ → Event
  notify_unbound : ℕ → Event
  bus_removes : ℕ → Event
  driver_removes : ℕ → ℕ → Event
  release_all : ℕ → Event
  add_interface : ℕ → ℕ → Event

-- Devices and drivers are numbers, a null pointer is `none`. `attached d` is the driver in whose list
-- of devices `d` stands. The two lists are threaded through the devices' `deferred_probe` nodes.
pub record Core : Type 0 where
  pub driver : ℕ → Option ℕ
  pub attached : ℕ → Option ℕ
  pub drvdata : ℕ → Option ℕ
  pub has_private : ℕ → Bool
  pub dir_link : ℕ → Bool
  pub dev_link : ℕ → Bool
  pub pending : List ℕ
  pub active : List ℕ
  pub enabled : Bool
  pub work_queued : Bool
  pub triggers : ℕ
  pub probes : ℕ
  pub asked : ℕ
  pub events : List Event

-- A probe function returns a number, and may call the core meanwhile.
abbrev pub ProbeCall : Type 0
ProbeCall = ℕ → Core → ℤ × Core

-- What the core finds around it: the drivers of the bus in order and its tests, the probe and remove
-- functions, the devices that are registered and on the bus, the interfaces of the bus; the answer
-- of sysfs to the n-th link, and whether private data can be allocated.
pub record Platform : Type 0 where
  pub drivers : List ℕ
  pub matches : Option (ℕ → ℕ → Bool)
  pub bus_probe : Option ProbeCall
  pub driver_probe : ℕ → Option ProbeCall
  pub bus_has_remove : Bool
  pub driver_has_remove : ℕ → Bool
  pub on_bus : ℕ → Bool
  pub registered : ℕ → Bool
  pub autoprobe : Bool
  pub interfaces : List ℕ
  pub link_answer : ℕ → ℤ
  pub private_fits : Bool

abbrev pub at {ℓ} : {A : Type ℓ} → (ℕ → A) → ℕ → A → ℕ → A
at f d v e = if e == d then v else f e

abbrev pub call : Event → Core → Core
call e s = record s { events = s.events ++ e ∷ [] }
