-- ===== src/Device/State.antt =====
-- What `struct demo_device` says of a device, and what the core keeps of one while it is added
-- and deleted: files and links in sysfs, references, list memberships. From device.h and device.c.
use open_device.Base.{ℕ, Option, Bool, List, ℤ}

-- A name given as it is, or built by the format `"%s%u"` from a bus's device name and an id.
pub data Name : Type 0 where
  given : ℕ → Name
  numbered : ℕ → ℕ → Name

-- The parts of `struct demo_device` that are read and not written. The numbers count the entries of
-- the attribute tables before their terminator. `glue` says what the search for the class directory
-- and its creation come to: a directory, or none. `init_name_fits` and `bus_name_fits` say whether there
-- is memory for the name in each of the two calls that set it. `del_keeps_parent` says whether a kobject
-- that leaves the hierarchy, or cannot be put into it, keeps its parent.
pub record Desc : Type 0 where
  pub id : ℕ
  pub has_class : Bool
  pub class_attrs : ℕ
  pub class_bins : ℕ
  pub class_namespaced : Bool
  pub class_listeners : List ℕ
  pub glue : Bool
  pub has_type : Bool
  pub type_groups : ℕ
  pub groups : ℕ
  pub has_major : Bool
  pub has_dev_dir : Bool
  pub has_parent : Bool
  pub parent_has_class : Bool
  pub has_bus : Bool
  pub bus_dev_name : Option ℕ
  pub bus_has_root : Bool
  pub bus_attrs : ℕ
  pub bus_listeners : List ℕ
  pub private_fits : Bool
  pub init_name_fits : Bool
  pub bus_name_fits : Bool
  pub del_keeps_parent : Bool

-- The directory that a device is put under.
pub data Place : Type 0 where
  nowhere : Place
  glue_dir : Place
  parent_dir : Place
  bus_root : Place

-- The attribute files, each table a set of indices.
pub record AttrFiles : Type 0 where
  pub class_attrs : ℕ → Bool
  pub class_bins : ℕ → Bool
  pub type_groups : ℕ → Bool
  pub groups : ℕ → Bool

-- The single files and links.
pub record Links : Type 0 where
  pub uevent : Bool
  pub devt : Bool
  pub sys_dev : Bool
  pub subsystem : Bool
  pub parent : Bool
  pub class_entry : Bool

-- What the bus holds: its attribute files, the link to the device, the list node, references.
pub record BusPart : Type 0 where
  pub attrs : ℕ → Bool
  pub link : Bool
  pub listed : Bool
  pub refs : ℕ

-- Calls of code outside the device core, in order.
pub data Event : Type 0 where
  notify_add : Event
  notify_del : Event
  uevent_add : Event
  uevent_remove : Event
  probe : Event
  release_driver : Event
  deferred_del : Event
  class_add : ℕ → Event
  class_remove : ℕ → Event
  bus_remove : ℕ → Event

pub record Device : Type 0 where
  pub name : Option Name
  pub init_name : Option Name
  pub place : Place
  pub has_private : Bool
  pub in_sysfs : Bool
  pub attrs : AttrFiles
  pub links : Links
  pub bus : BusPart
  pub child_listed : Bool
  pub class_listed : Bool
  pub refs : ℕ
  pub parent_refs : ℕ
  pub glue_refs : ℕ
  pub events : List Event

-- What a call that can fail gives: its result, the state, the number of answers used. The n-th call
-- that creates something in sysfs is answered by the n-th answer: 0, or an error.
abbrev pub Tried : Type 0 → Type 0
Tried S = ℤ × S × ℕ
