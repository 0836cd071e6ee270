-- ===== src/Joint/Tests.antt =====
-- A bus with one driver, and a device on it that is registered and unregistered.
use open_device.Base.{
  ℕ, ◌≡◌, refl, none, some, true, false, [], ◌∷◌, ◌==◌, if◌then◌else◌, arith, ℤ, ok, enomem,
  is_nonzero,
}
use open_device.Device.State.{Desc, given, nowhere}
use open_device.Driver.State.{Platform}
use open_device.Driver.Attach.{bus_probe_device}
use open_device.Device.Rollback.{links_of}
use open_device.Device.Joined.{Fresh}
use open_device.Joint.Machine.{with_private, Machine, device_register, device_unregister}
use open_device.Joint.Forgotten.{Sound, Forgotten, device_unregister-Forgotten}
use open_device.Joint.Registered.{device_register_core}

abbrev sensor : Desc
sensor = record {
  id = 4;
  has_class = false;
  class_attrs = 0;
  class_bins = 0;
  class_namespaced = false;
  class_listeners = [];
  glue = false;
  has_type = false;
  type_groups = 0;
  groups = 1;
  has_major = false;
  has_dev_dir = false;
  has_parent = false;
  parent_has_class = false;
  has_bus = true;
  bus_dev_name = some 6;
  bus_has_root = false;
  bus_attrs = 1;
  bus_listeners = 30 ∷ [];
  private_fits = true;
  init_name_fits = true;
  bus_name_fits = true;
  del_keeps_parent = false;
}

abbrev one_driver : Platform
one_driver = record {
  drivers = 1 ∷ [];
  matches = none;
  bus_probe = none;
  driver_probe = λ drv. none;
  bus_has_remove = false;
  driver_has_remove = λ drv. true;
  on_bus = λ d. true;
  registered = λ d. true;
  autoprobe = true;
  interfaces = [];
  link_answer = λ n. ok;
  private_fits = true;
}

-- The device is bound to the driver, and waits in the list of deferred devices.
abbrev bound : Machine
bound = record {
  device = record {
    name = some (given 9);
    init_name = none;
    place = nowhere;
    has_private = true;
    in_sysfs = true;
    attrs = record {
      class_attrs = λ i. false;
      class_bins = λ i. false;
      type_groups = λ i. false;
      groups = λ i. i == 0;
    };
    links = record {
      uevent = true;
      devt = false;
      sys_dev = false;
      subsystem = false;
      parent = false;
      class_entry = false;
    };
    bus = record { attrs = λ i. i == 0; link = true; listed = true; refs = 5 };
    child_listed = false;
    class_listed = false;
    refs = 1;
    parent_refs = 0;
    glue_refs = 0;
    events = [];
  };
  core = record {
    driver = λ d. if d == 4 then some 1 else none;
    attached = λ d. if d == 4 then some 1 else none;
    drvdata = λ d. none;
    has_private = λ d. d == 4;
    dir_link = λ d. false;
    dev_link = λ d. false;
    pending = 4 ∷ 5 ∷ [];
    active = [];
    enabled = true;
    work_queued = false;
    triggers = 0;
    probes = 0;
    asked = 0;
    events = [];
  };
}

abbrev second_fails : ℕ → ℤ
second_fails n = if n == 1 then enomem else ok

bound-Sound : Sound 4 bound.core
bound-Sound = (refl, λ e. absurd (cc))

removal_of_sensor : Forgotten 4 (device_unregister one_driver sensor bound).core
removal_of_sensor = device_unregister-Forgotten one_driver sensor bound refl bound-Sound

-- The device before it is registered, over a core that knows another one.
abbrev apart : Machine
apart = record {
  device = record bound.device {
    has_private = false;
    in_sysfs = false;
    attrs = record bound.device.attrs { groups = λ i. false };
    links = links_of false false false false;
    bus = record { attrs = λ i. false; link = false; listed = false; refs = 5 };
  };
  core = record bound.core {
    driver = λ d. none;
    attached = λ d. none;
    has_private = λ d. d == 5;
    pending = 5 ∷ [];
  };
}

apart-Fresh : Fresh apart.device
apart-Fresh = record {
  links = refl;
  attrs = record {
    class_attrs = λ j. ground arith;
    class_bins = λ j. ground arith;
    type_groups = λ j. ground arith;
    groups = λ j. ground arith;
  };
  bus = record { attrs = λ j. ground arith; link = refl; listed = refl; refs = refl };
  child_listed = refl;
  class_listed = refl;
  in_sysfs = refl;
  place = refl;
}

register_without_memory : (device_register one_driver second_fails sensor apart).1.core ≡ (
    if is_nonzero (device_register one_driver second_fails sensor apart).0
    then with_private false 4 apart.core
    else bus_probe_device one_driver 4 (with_private true 4 apart.core))
register_without_memory = device_register_core one_driver second_fails sensor apart apart-Fresh
