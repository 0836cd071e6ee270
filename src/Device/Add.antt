-- ===== src/Device/Add.antt =====
-- `demo_device_add` and `demo_device_del` of device.c, cut at the labels that the errors jump to.
use mathlib.Core.List.{map}
use open_device.Base.{
  ℕ, suc, ◌+◌, ◌-◌, Option, none, some, Bool, true, false, not, ◌&&◌, ◌||◌, List, [], ◌∷◌, ◌++◌,
  if◌then◌else◌, is_some, ℤ, is_nonzero, einval, enomem,
}
use open_device.Device.State.{
  Desc, Device, Event, Links, Name, numbered, Place, nowhere, glue_dir, parent_dir, bus_root, Tried,
  notify_add, notify_del, uevent_add, uevent_remove, probe, deferred_del, class_add, class_remove,
  bus_remove, release_driver,
}
use open_device.Device.Attrs.{add_attrs, remove_attrs}
use open_device.Device.Links.{
  create, create_sys_dev_entry, add_class_symlinks, remove_sys_dev_entry, remove_class_symlinks,
}
use open_device.Device.BusLink.{bus_add_device, bus_remove_device}

abbrev pub call : Event → Device → Device
call e s = record s { events = s.events ++ e ∷ [] }

-- `demo_get_device_parent`: the directory, `nowhere` for a null pointer.
unfoldable pub get_device_parent : Desc → Place
get_device_parent d =
    if d.has_class
    then (if d.has_parent && (d.parent_has_class && not d.class_namespaced)
        then parent_dir
        else if d.glue
        then glue_dir
        else nowhere)
    else if not d.has_parent && (d.has_bus && d.bus_has_root)
    then bus_root
    else if d.has_parent
    then parent_dir
    else nowhere

abbrev pub is_glue : Place → Bool
is_glue glue_dir = true
is_glue _ = false

-- The directory is looked up with a reference to it, if it is a class directory.
abbrev pub placed : Place → Device → Device
placed nowhere s = s
placed glue_dir s = record s { place = glue_dir; glue_refs = suc s.glue_refs }
placed p s = record s { place = p }

-- `demo_cleanup_device_parent`.
unfoldable pub cleanup_device_parent : Desc → Device → Device
cleanup_device_parent d s = record s {
  glue_refs = if is_glue s.place && d.has_class then s.glue_refs - 1 else s.glue_refs;
}

-- A kobject that is not in the hierarchy (any more): its parent is cleared, or kept.
abbrev pub unhooked : Desc → Device → Device
unhooked d s = record s { place = if d.del_keeps_parent then s.place else nowhere }

-- `kobject_del`, as far as the core sees it.
abbrev pub kobject_del : Desc → Device → Device
kobject_del d s = unhooked d (record s { in_sysfs = false })

abbrev pub put_parent : Desc → Device → Device
put_parent d s = record s {
  parent_refs = if d.has_parent then s.parent_refs - 1 else s.parent_refs;
}

-- The labels, each with what it falls through to.
unfoldable pub done : Device → Device
done s = record s { refs = s.refs - 1 }

unfoldable pub name_error : Device → Device
unfolding done
name_error s = done (record s { has_private = false })

unfoldable pub undo_parent : Desc → Device → Device
unfolding cleanup_device_parent name_error
undo_parent d s = name_error (put_parent d (cleanup_device_parent d s))

unfoldable pub undo_kobject : Desc → Device → Device
unfolding undo_parent
undo_kobject d s = undo_parent d (kobject_del d (call uevent_remove s))

unfoldable pub undo_uevent : Desc → Device → Device
unfolding undo_kobject
undo_uevent d s = undo_kobject d (record s { links = record (s.links) { uevent = false } })

unfoldable pub undo_devt : Desc → Device → Device
unfolding undo_uevent
undo_devt d s =
    undo_uevent d
      (if d.has_major then record s { links = record (s.links) { devt = false } } else s)

unfoldable pub undo_sys_dev : Desc → Device → Device
unfolding undo_devt remove_sys_dev_entry
undo_sys_dev d s =
    undo_devt d (if d.has_major then record s { links = remove_sys_dev_entry d s.links } else s)

unfoldable pub undo_symlinks : Desc → Device → Device
unfolding undo_sys_dev remove_class_symlinks
undo_symlinks d s = undo_sys_dev d (record s { links = remove_class_symlinks d s.links })

unfoldable pub undo_attrs : Desc → Device → Device
unfolding undo_symlinks remove_attrs
undo_attrs d s = undo_symlinks d (record s { attrs = remove_attrs d s.attrs })

-- What follows the last step that can fail: the bus's listeners and user space are told, drivers are
-- probed, the device joins its parent's and its class's lists, and the class's interfaces are told.
unfoldable pub announce : Desc → Device → Device
unfolding done
announce d s = done (record s {
  child_listed = (if d.has_parent then true else s.child_listed);
  class_listed = (if d.has_class then true else s.class_listed);
  events =
      s.events
      ++ (if d.has_bus then notify_add ∷ [] else [])
      ++ (uevent_add ∷ probe ∷ [])
      ++ (if d.has_class then map class_add d.class_listeners else []);
})

module _ (answer : ℕ → ℤ) (d : Desc) where
  unfoldable pub add_to_bus : Device → ℕ → Tried Device
  add_to_bus s a =
      let (e, b, a') = bus_add_device answer d s.bus a in
      let t : Device = record s { bus = b } in
      if is_nonzero e then (e, undo_attrs d t, a') else (e, announce d t, a')

  unfoldable pub add_tables : Device → ℕ → Tried Device
  add_tables s a =
      let (e, f, a') = add_attrs answer d s.attrs a in
      let t : Device = record s { attrs = f } in
      if is_nonzero e then (e, undo_symlinks d t, a') else add_to_bus t a'

  unfoldable pub add_symlinks : Device → ℕ → Tried Device
  add_symlinks s a =
      let (e, l, a') = add_class_symlinks answer d s.links a in
      let t : Device = record s { links = l } in
      if is_nonzero e then (e, undo_sys_dev d t, a') else add_tables t a'

  -- From the entry in the directory of device numbers on.
  unfoldable pub add_sys_dev : Device → ℕ → Tried Device
  add_sys_dev s a =
      let (e, l, a') = create_sys_dev_entry answer d s.links a in
      let t : Device = record s { links = l } in
      if is_nonzero e then (e, undo_devt d t, a') else add_symlinks t a'

  -- From `if (MAJOR(dev->devt))` on.
  unfoldable pub add_devt : Device → ℕ → Tried Device
  add_devt s a =
      if d.has_major
      then (let (e, l, a') = create answer (λ k. record k { devt = true }) s.links a in
          let t : Device = record s { links = l } in
          if is_nonzero e then (e, undo_uevent d t, a') else add_sys_dev t a')
      else add_symlinks s a

  unfoldable pub add_uevent_file : Device → ℕ → Tried Device
  add_uevent_file s a =
      let (e, l, a') = create answer (λ k. record k { uevent = true }) s.links a in
      let t : Device = record s { links = l } in
      if is_nonzero e then (e, undo_kobject d t, a') else add_devt t a'

  -- From the search for the directory on.
  unfoldable pub join_hierarchy : Device → ℕ → Tried Device
  join_hierarchy s a =
      let t : Device = placed (get_device_parent d) s in
      if is_nonzero (answer a)
      then (answer a, undo_parent d (unhooked d t), a + 1)
      else add_uevent_file (record t { in_sysfs = true }) (a + 1)

  -- From the parent on.
  unfoldable pub add_kobject : Device → ℕ → Tried Device
  add_kobject s a =
      join_hierarchy (if d.has_parent then record s { parent_refs = suc s.parent_refs } else s) a

-- The name of a device on a bus that enumerates its devices.
abbrev pub bus_name : Desc → Option Name
bus_name d =
    if d.has_bus && d.bus_name_fits
    then elim (d.bus_dev_name) [ none ↦ none | some b ↦ some (numbered b d.id) ]
    else none

-- `demo_dev_set_name`, whose result is not looked at: without memory the name stays.
abbrev pub dev_set_name : Bool → Name → Option Name → Option Name
dev_set_name fits n name = if fits then some n else name

-- The two assignments of the kobject's name; the initial name is cleared by the first, in any case.
abbrev pub first_name : Bool → Option Name → Option Name → Option Name
first_name fits none name = name
first_name fits (some n) name = dev_set_name fits n name

unfoldable pub set_names : Desc → Device → Device
set_names d s =
    let first = first_name d.init_name_fits s.init_name s.name in
    record s { init_name = none; name = if is_some first then first else bus_name d }

unfoldable pub device_add : (ℕ → ℤ) → Option Desc → Device → ℕ → Tried Device
unfolding done
device_add answer none s a = (einval, s, a)
device_add answer (some d) s0 a =
    let s : Device = record s0 { refs = suc s0.refs } in
    if not (s.has_private || d.private_fits)
    then (enomem, done s, a)
    else (let t : Device = set_names d (record s { has_private = true }) in
        if is_some t.name then add_kobject answer d t a else (einval, name_error t, a))

-- The links that `demo_device_del` removes, in its order: those of the device number, those of the
-- class, the uevent file, and on a bus the link named "demo_subsystem".
unfoldable pub del_links : Desc → Links → Links
unfolding remove_sys_dev_entry remove_class_symlinks
del_links d l =
    let l1 : Links =
      if d.has_major then record (remove_sys_dev_entry d l) { devt = false } else l in
    let l2 : Links = record (remove_class_symlinks d l1) { uevent = false } in
    if d.has_bus then record l2 { subsystem = false } else l2

-- The calls that it makes, in order.
unfoldable pub del_events : Desc → List Event
del_events d =
    (if d.has_bus then notify_del ∷ [] else [])
    ++ (if d.has_class then map class_remove d.class_listeners else [])
    ++ (if d.has_bus then map bus_remove d.bus_listeners ++ release_driver ∷ [] else [])
    ++ (deferred_del ∷ uevent_remove ∷ [])

unfoldable pub device_del : Desc → Device → Device
unfolding cleanup_device_parent
device_del d s = put_parent d (
    kobject_del d (
      cleanup_device_parent d (record s {
        links = del_links d s.links;
        attrs = remove_attrs d s.attrs;
        bus = bus_remove_device d s.bus;
        child_listed = (if d.has_parent then false else s.child_listed);
        class_listed = (if d.has_class then false else s.class_listed);
        events = s.events ++ del_events d;
      })))
