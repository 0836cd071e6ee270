-- ===== src/Joint/Registered.antt =====
-- What the registration of a device does to the driver core.
use mathlib.Core.List.{map}
use open_device.Base.{
  ℕ, suc, ◌+◌, ◌≡◌, ◌∙◌, refl, sym, ap, some, is_some, Bool, true, false, not, ◌||◌, List, [], ◌∷◌,
  ◌++◌, if◌then◌else◌, if_cases, ℤ, is_nonzero, einval, enomem, Bool-cases, inl, inr,
}
use open_device.Device.State.{
  Desc, Device, Event, Place, nowhere, glue_dir, parent_dir, bus_root, notify_add, uevent_add,
  uevent_remove, probe, class_add, Tried,
}
use open_device.Device.Attrs.{add_attrs}
use open_device.Device.Links.{
  create, create_sys_dev_entry, add_class_symlinks, remove_sys_dev_entry,
}
use open_device.Device.BusLink.{bus_add_device}
use open_device.Device.Add.{
  unhooked, get_device_parent, placed, done, name_error, undo_parent, undo_kobject, undo_uevent,
  undo_devt, undo_sys_dev, undo_symlinks, undo_attrs, announce, add_to_bus, add_tables,
  add_symlinks, add_sys_dev, add_devt, add_uevent_file, join_hierarchy, add_kobject, set_names,
  device_add,
}
use open_device.Driver.State.{Core, Platform}
use open_device.Driver.Attach.{bus_probe_device}
use open_device.Joint.Machine.{
  perform, perform_calls, Machine, device_register, device_initialize, before_add, with_private,
}
use open_device.Device.Joined.{Fresh}
use open_device.Device.Result.{device_add-all_or_nothing}
use open_device.Joint.Forgotten.{perform_calls-append, perform_listeners}

abbrev undone : Device → List Event
undone s = s.events ++ uevent_remove ∷ []

undo_uevent_calls : (d : Desc) (s : Device) → (undo_uevent d s).events ≡ undone s
unfolding undo_uevent undo_kobject undo_parent name_error done
undo_uevent_calls d s = refl

undo_kobject_calls : (d : Desc) (s : Device) → (undo_kobject d s).events ≡ undone s
unfolding undo_kobject undo_parent name_error done
undo_kobject_calls d s = refl

undo_devt_calls : (d : Desc) (s : Device) → (undo_devt d s).events ≡ undone s
unfolding undo_devt
undo_devt_calls d s =
    let t : Device =
      if d.has_major then record s { links = record (s.links) { devt = false } } else s in
    undo_uevent_calls d t
    ∙ if_cases (λ (u : Device). undone u ≡ undone s) d.has_major (λ _. refl) (λ _. refl)

undo_sys_dev_calls : (d : Desc) (s : Device) → (undo_sys_dev d s).events ≡ undone s
unfolding undo_sys_dev
undo_sys_dev_calls d s =
    let t : Device =
      if d.has_major then record s { links = remove_sys_dev_entry d s.links } else s in
    undo_devt_calls d t
    ∙ if_cases (λ (u : Device). undone u ≡ undone s) d.has_major (λ _. refl) (λ _. refl)

undo_symlinks_calls : (d : Desc) (s : Device) → (undo_symlinks d s).events ≡ undone s
unfolding undo_symlinks
undo_symlinks_calls d s = undo_sys_dev_calls d _

undo_attrs_calls : (d : Desc) (s : Device) → (undo_attrs d s).events ≡ undone s
unfolding undo_attrs
undo_attrs_calls d s = undo_symlinks_calls d _

placed_calls : (p : Place) (s : Device) → (placed p s).events ≡ s.events
placed_calls nowhere s = refl
placed_calls glue_dir s = refl
placed_calls parent_dir s = refl
placed_calls bus_root s = refl

module _ (p : Platform) (d : Desc) (c : Core) where
  -- The core after the calls so far is what it was on an error, else the device was probed.
  abbrev Tells : Tried Device → Type 0
  Tells o =
      perform_calls p d.id o.1.events c ≡ (if is_nonzero o.0 then c else bus_probe_device p d.id c)

  -- An error behind the directory.
  undone_error :
      (e : ℤ) (s t : Device) (a : ℕ)
      → s.events ≡ []
      → t.events ≡ undone s
      → is_nonzero e ≡ true
      → Tells (e, t, a)
  unfolding perform_calls perform
  undone_error e s t a h g n =
      ap (λ es. perform_calls p d.id es c) (g ∙ ap (λ es. es ++ uevent_remove ∷ []) h)
      ∙ sym (ap (λ b. if b then c else bus_probe_device p d.id c) n)

  -- An error before it.
  silent_error :
      (e : ℤ) (t : Device) (a : ℕ) → t.events ≡ [] → is_nonzero e ≡ true → Tells (e, t, a)
  unfolding perform_calls
  silent_error e t a h n =
      ap (λ es. perform_calls p d.id es c) h
      ∙ sym (ap (λ b. if b then c else bus_probe_device p d.id c) n)

  first_calls :
      (b : Bool) (s : Core) → perform_calls p d.id (if b then notify_add ∷ [] else []) s ≡ s
  unfolding perform_calls perform
  first_calls true s = refl
  first_calls false s = refl

  class_adds :
      (b : Bool) (ns : List ℕ) (s : Core)
      → perform_calls p d.id (if b then map class_add ns else []) s ≡ s
  unfolding perform_calls perform
  class_adds true ns s = perform_listeners p d.id class_add (λ n u. refl) ns s
  class_adds false ns s = refl

  announce-Tells :
      (e : ℤ) (s : Device) (a : ℕ)
      → s.events ≡ []
      → is_nonzero e ≡ false
      → Tells (e, announce d s, a)
  unfolding announce done perform_calls perform
  announce-Tells e s a h n =
      let f : List Event = if d.has_bus then notify_add ∷ [] else [] in
      let l : List Event = if d.has_class then map class_add d.class_listeners else [] in
      let u : Core = bus_probe_device p d.id c in
      ap (λ es. perform_calls p d.id (es ++ f ++ (uevent_add ∷ probe ∷ []) ++ l) c) h
      ∙ perform_calls-append p d.id (f ++ (uevent_add ∷ probe ∷ [])) l c
      ∙ ap (perform_calls p d.id l) (
          perform_calls-append p d.id f (uevent_add ∷ probe ∷ []) c
          ∙ ap (bus_probe_device p d.id) (first_calls d.has_bus c))
      ∙ class_adds d.has_class d.class_listeners u
      ∙ sym (ap (λ b. if b then c else u) n)

  module _ (answer : ℕ → ℤ) where
    add_to_bus-Tells : (s : Device) (a : ℕ) → s.events ≡ [] → Tells (add_to_bus answer d s a)
    unfolding add_to_bus
    add_to_bus-Tells s a h =
        let o = bus_add_device answer d s.bus a in
        let t : Device = record s { bus = o.1 } in
        if_cases Tells (is_nonzero o.0)
          (λ e. undone_error o.0 t (undo_attrs d t) o.2 h (undo_attrs_calls d t) e)
          (λ e. announce-Tells o.0 t o.2 h e)

    add_tables-Tells : (s : Device) (a : ℕ) → s.events ≡ [] → Tells (add_tables answer d s a)
    unfolding add_tables
    add_tables-Tells s a h =
        let o = add_attrs answer d s.attrs a in
        let t : Device = record s { attrs = o.1 } in
        if_cases Tells (is_nonzero o.0)
          (λ e. undone_error o.0 t (undo_symlinks d t) o.2 h (undo_symlinks_calls d t) e)
          (λ e. add_to_bus-Tells t o.2 h)

    add_symlinks-Tells : (s : Device) (a : ℕ) → s.events ≡ [] → Tells (add_symlinks answer d s a)
    unfolding add_symlinks
    add_symlinks-Tells s a h =
        let o = add_class_symlinks answer d s.links a in
        let t : Device = record s { links = o.1 } in
        if_cases Tells (is_nonzero o.0)
          (λ e. undone_error o.0 t (undo_sys_dev d t) o.2 h (undo_sys_dev_calls d t) e)
          (λ e. add_tables-Tells t o.2 h)

    add_sys_dev-Tells : (s : Device) (a : ℕ) → s.events ≡ [] → Tells (add_sys_dev answer d s a)
    unfolding add_sys_dev
    add_sys_dev-Tells s a h =
        let o = create_sys_dev_entry answer d s.links a in
        let t : Device = record s { links = o.1 } in
        if_cases Tells (is_nonzero o.0)
          (λ e. undone_error o.0 t (undo_devt d t) o.2 h (undo_devt_calls d t) e)
          (λ e. add_symlinks-Tells t o.2 h)

    add_devt-Tells : (s : Device) (a : ℕ) → s.events ≡ [] → Tells (add_devt answer d s a)
    unfolding add_devt
    add_devt-Tells s a h =
        let o = create answer (λ k. record k { devt = true }) s.links a in
        let t : Device = record s { links = o.1 } in
        if_cases Tells d.has_major
          (λ _.
            if_cases Tells (is_nonzero o.0)
              (λ e. undone_error o.0 t (undo_uevent d t) o.2 h (undo_uevent_calls d t) e)
              (λ e. add_sys_dev-Tells t o.2 h))
          (λ _. add_symlinks-Tells s a h)

    add_uevent_file-Tells :
        (s : Device) (a : ℕ) → s.events ≡ [] → Tells (add_uevent_file answer d s a)
    unfolding add_uevent_file
    add_uevent_file-Tells s a h =
        let o = create answer (λ k. record k { uevent = true }) s.links a in
        let t : Device = record s { links = o.1 } in
        if_cases Tells (is_nonzero o.0)
          (λ e. undone_error o.0 t (undo_kobject d t) o.2 h (undo_kobject_calls d t) e)
          (λ e. add_devt-Tells t o.2 h)

    join_hierarchy-Tells :
        (s : Device) (a : ℕ) → s.events ≡ [] → Tells (join_hierarchy answer d s a)
    unfolding join_hierarchy undo_parent name_error done
    join_hierarchy-Tells s a h =
        let t : Device = placed (get_device_parent d) s in
        let g : t.events ≡ [] = placed_calls (get_device_parent d) s ∙ h in
        if_cases Tells (is_nonzero (answer a))
          (λ e. silent_error (answer a) (undo_parent d (unhooked d t)) (a + 1) g e)
          (λ e. add_uevent_file-Tells (record t { in_sysfs = true }) (a + 1) g)

    add_kobject-Tells : (s : Device) (a : ℕ) → s.events ≡ [] → Tells (add_kobject answer d s a)
    unfolding add_kobject
    add_kobject-Tells s a h =
        if_cases (λ (t : Device). Tells (join_hierarchy answer d t a)) d.has_parent
          (λ _. join_hierarchy-Tells (record s { parent_refs = suc s.parent_refs }) a h)
          (λ _. join_hierarchy-Tells s a h)

    device_add-Tells : (s : Device) (a : ℕ) → s.events ≡ [] → Tells (device_add answer (some d) s a)
    unfolding device_add done name_error set_names
    device_add-Tells s0 a h =
        let s : Device = record s0 { refs = suc s0.refs } in
        let t : Device = set_names d (record s { has_private = true }) in
        if_cases Tells (not (s.has_private || d.private_fits))
          (λ _. silent_error enomem (done s) a h refl)
          (λ _.
            if_cases Tells (is_some t.name) (λ _. add_kobject-Tells t a h)
              (λ _. silent_error einval (name_error t) a h refl))

-- The device as the addition finds it is fresh if it was.
before_add-Fresh : (d : Desc) (m : Machine) → Fresh m.device → Fresh (before_add d m)
unfolding device_initialize
before_add-Fresh d m f = record {
  links = f.links;
  attrs = f.attrs;
  bus = f.bus;
  child_listed = f.child_listed;
  class_listed = f.class_listed;
  in_sysfs = refl;
  place = f.place;
}

-- Registering a device that is not in the hierarchy, whatever sysfs and the allocator answer: if the
-- result is an error, the driver core is what it was, but that the device has no private data, hence
-- no driver data and no place in a driver's list; if it is 0, it is what the probing of the device by
-- its bus makes of it, the device having private data, that and nothing else.
pub device_register_core :
    (p : Platform) (answer : ℕ → ℤ) (d : Desc) (m : Machine)
    → Fresh m.device
    → (device_register p answer d m).1.core ≡ (
        if is_nonzero (device_register p answer d m).0
        then with_private false d.id m.core
        else bus_probe_device p d.id (with_private true d.id m.core))
unfolding device_register device_initialize
device_register_core p answer d m f =
    let s : Device = before_add d m in
    let o : Tried Device = device_add answer (some d) s 0 in
    let c : Bool → Core = λ b. with_private b d.id m.core in
    let settled = device_add-all_or_nothing answer d s 0 (before_add-Fresh d m f) in
    let told = device_add-Tells p d (c o.1.has_private) answer s 0 refl in
    told ∙ elim (Bool-cases (is_nonzero o.0)) [
      | inl e ↦
          ap (λ b. if is_nonzero o.0 then c b else bus_probe_device p d.id (c o.1.has_private))
            (settled.0 e).1
          ∙ ap (λ (b : Bool). if b then c false else bus_probe_device p d.id (c o.1.has_private)) e
          ∙ sym (ap (λ (b : Bool). if b then c false else bus_probe_device p d.id (c true)) e)
      | inr e ↦
          ap
            (λ (b : Bool).
              if b then c o.1.has_private else bus_probe_device p d.id (c o.1.has_private))
            e
          ∙ ap (λ b. bus_probe_device p d.id (c b)) (settled.1 e).has_private
          ∙ sym (ap (λ (b : Bool). if b then c false else bus_probe_device p d.id (c true)) e)
    ]
