-- ===== src/Device/Tests.antt =====
-- A device with a class, a parent and a bus is added over a sysfs that works, and over one that
-- fails at the thirteenth call.
use open_device.Base.{
  ℕ, ◌≡◌, refl, none, some, true, false, [], ◌∷◌, ◌==◌, if◌then◌else◌, ℤ, ok, enomem,
}
use open_device.Device.State.{Desc, Device, given, nowhere, Tried}
use open_device.Device.Attrs.{
  add_attrs, add_class_bins, add_type_groups, add_own_groups, add_table, add_loop, remove_down,
  remove_up, remove_attrs,
}
use open_device.Device.Links.{
  create_sys_dev_entry, add_class_symlinks, link_parent, link_class_entry, remove_class_symlinks,
  remove_sys_dev_entry,
}
use open_device.Device.BusLink.{bus_add_device, link_on_bus}
use open_device.Device.Add.{
  device_add, set_names, add_kobject, join_hierarchy, get_device_parent, add_uevent_file, add_devt,
  add_sys_dev, add_symlinks, add_tables, add_to_bus, announce, done, name_error, undo_parent,
  undo_kobject, undo_uevent, undo_devt, undo_sys_dev, undo_symlinks, undo_attrs,
  cleanup_device_parent,
}
use open_device.Device.Rollback.{links_of}

abbrev camera : Desc
camera = record {
  id = 3;
  has_class = true;
  class_attrs = 2;
  class_bins = 1;
  class_namespaced = false;
  class_listeners = 40 ∷ [];
  glue = true;
  has_type = true;
  type_groups = 1;
  groups = 1;
  has_major = true;
  has_dev_dir = true;
  has_parent = true;
  parent_has_class = false;
  has_bus = true;
  bus_dev_name = none;
  bus_has_root = false;
  bus_attrs = 2;
  bus_listeners = [];
  private_fits = true;
  init_name_fits = true;
  bus_name_fits = true;
  del_keeps_parent = false;
}

abbrev unplugged : Device
unplugged = record {
  name = none;
  init_name = some (given 9);
  place = nowhere;
  has_private = false;
  in_sysfs = false;
  attrs = record {
    class_attrs = λ i. false;
    class_bins = λ i. false;
    type_groups = λ i. false;
    groups = λ i. false;
  };
  links = links_of false false false false;
  bus = record { attrs = λ i. false; link = false; listed = false; refs = 5 };
  child_listed = false;
  class_listed = false;
  refs = 1;
  parent_refs = 2;
  glue_refs = 0;
  events = [];
}

abbrev works : ℕ → ℤ
works n = ok

abbrev fails_at : ℕ → ℕ → ℤ
fails_at k n = if n == k then enomem else ok

-- The call on this device, with all that it calls unfolded.
add_camera : (ℕ → ℤ) → Tried Device
unfolding device_add set_names add_kobject join_hierarchy get_device_parent add_uevent_file add_devt
    add_sys_dev create_sys_dev_entry add_symlinks add_class_symlinks link_parent link_class_entry
    add_tables add_attrs add_class_bins add_type_groups add_own_groups add_table add_loop
    remove_down remove_up remove_attrs add_to_bus bus_add_device link_on_bus announce done
    name_error undo_parent undo_kobject undo_uevent undo_devt undo_sys_dev undo_symlinks undo_attrs
    cleanup_device_parent remove_class_symlinks remove_sys_dev_entry
add_camera answer = device_add answer (some camera) unplugged 0

add_camera_refused : (add_camera (fails_at 12)).0 ≡ enomem
unfolding add_camera
add_camera_refused = refl

-- The reference to the class directory is left.
add_camera_leaves : (add_camera (fails_at 12)).1.glue_refs ≡ 1
unfolding add_camera
add_camera_leaves = refl

abbrev plugged : Device
plugged = (device_add works (some camera) unplugged 0).1
