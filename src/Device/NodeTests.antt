-- ===== src/Device/NodeTests.antt =====
-- The node of a device named "a!b", and its uevent.
use open_device.Base.{◌≡◌, refl, none, some, true, [], ◌∷◌, ok, pos}
use open_device.Device.Uevent.{Described, device_get_devnode, own_name, replace_loop, replace_first}
use open_device.Device.Files.{Kset, show_keys, show_uevent, show_uevent_silent}

abbrev disk : Described
disk = record {
  dev_name = 97 ∷ 33 ∷ 98 ∷ [];
  has_major = true;
  type_devnode = none;
  class_devnode = some (λ mode. (none, 438));
  type_name = none;
  driver = some (100 ∷ []);
  bus_uevent = none;
  type_uevent = none;
  copy_fits = true;
}

disk_path : (device_get_devnode disk 0).name ≡ some (97 ∷ 47 ∷ 98 ∷ [])
unfolding device_get_devnode own_name replace_loop replace_first
disk_path = refl

-- A kset that would show a variable, above a device that has none of its own.
abbrev talkative : Kset
talkative = record {
  uevent_ops = some (record { filter = some true; uevent = some (ok, (77 ∷ 61 ∷ 56 ∷ []) ∷ []) });
}

talkative_keys :
    show_keys true (record { filter = some true; uevent = none }) (ok, (77 ∷ 61 ∷ []) ∷ [])
    ≡ (pos 3, 77 ∷ 61 ∷ 10 ∷ [])
unfolding show_keys
talkative_keys = refl

silent_file : show_uevent true none (none ∷ some talkative ∷ []) ≡ (ok, [])
silent_file = show_uevent_silent true none (none ∷ some talkative ∷ [])
