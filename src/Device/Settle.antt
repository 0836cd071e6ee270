-- ===== src/Device/Settle.antt =====
-- `demo_device_add` either makes everything that the device's description names, or nothing.
use open_device.Base.{
  ℕ, suc, ◌≡◌, Bool, true, false, ◌&&◌, arith, if◌then◌else◌, if_cases, ap, ℤ, is_nonzero,
}
use open_device.Device.State.{Desc, Device, Links, AttrFiles, BusPart, Tried}
use open_device.Device.Attrs.{add_attrs, remove_attrs}
use open_device.Device.Links.{
  create, create_sys_dev_entry, add_class_symlinks, link_parent, link_class_entry,
}
use open_device.Device.BusLink.{bus_add_device}
use open_device.Device.Add.{
  is_glue, undo_attrs, announce, add_to_bus, add_tables, add_symlinks, add_sys_dev, add_devt,
  add_uevent_file,
}
use open_device.Device.Tables.{Settled, AllAttrs, add_attrs-Done, remove_attrs-NoAttrs}
use open_device.Device.OnBus.{OffBus, OnBus, bus_add_device-BusDone}
use open_device.Device.Rollback.{
  in_glue, left_behind, links_of, Counts, Underway, Undone, Bare, undo_kobject-Undone,
  undo_uevent-Undone, undo_devt-Undone, undo_sys_dev-Undone, undo_symlinks-Undone, relink,
}

-- A device that is in the hierarchy: its files and links, its place on the bus and in the lists. Its
-- parent has one more reference, and so has its class directory; those of the call itself are back. The
-- links from the device to its class and to its parent are not there.
pub record Added (d : Desc) (k : Counts) (s : Device) : Type 0 where
  pub links : s.links ≡ links_of true d.has_major (d.has_major && d.has_dev_dir) d.has_class
  pub attrs : AllAttrs d s.attrs
  pub bus : OnBus d k.bus s.bus
  pub child_listed : s.child_listed ≡ d.has_parent
  pub class_listed : s.class_listed ≡ d.has_class
  pub refs : s.refs ≡ k.own
  pub parent_refs : s.parent_refs ≡ (if d.has_parent then suc k.parent else k.parent)
  pub glue_refs : s.glue_refs ≡ (if in_glue d then suc k.glue else k.glue)
  pub place : is_glue s.place ≡ in_glue d
  pub in_sysfs : s.in_sysfs ≡ true
  pub has_private : s.has_private ≡ true

-- How the call ends, behind the look-up of the directory.
abbrev pub Ends : Desc → Counts → Tried Device → Type 0
Ends d k (e, s, _) = Settled e (Undone (left_behind d k) s) (Added d k s)

module _ (answer : ℕ → ℤ) (d : Desc) (k : Counts) where
  abbrev pub Live : Device → Type 0
  Live s = (s.in_sysfs ≡ true) × (s.has_private ≡ true)

  -- The links behind the steps on device numbers.
  abbrev pub numbered_links : Bool → Links
  numbered_links c = links_of true d.has_major (d.has_major && d.has_dev_dir) c

  pub undo_attrs-Undone :
      (s : Device) (b : BusPart)
      → Underway d k (numbered_links d.has_class) (AllAttrs d) s
      → OffBus k.bus b
      → Undone (left_behind d k) (undo_attrs d (record s { bus = b }))
  unfolding undo_attrs
  undo_attrs-Undone s b u off =
      undo_symlinks-Undone d k (record s { bus = b; attrs = remove_attrs d s.attrs }) d.has_class
        (λ h. h)
        (record {
          links = u.links;
          attrs = remove_attrs-NoAttrs d s.attrs u.attrs;
          bus = off;
          child_listed = u.child_listed;
          class_listed = u.class_listed;
          refs = u.refs;
          parent_refs = u.parent_refs;
          place = u.place;
          glue_refs = u.glue_refs;
        })

  announce-Added :
      (s : Device) (b : BusPart)
      → Underway d k (numbered_links d.has_class) (AllAttrs d) s
      → OnBus d k.bus b
      → Live s
      → Added d k (announce d (record s { bus = b }))
  unfolding announce
  announce-Added s b u on (live, priv) = record {
    links = u.links;
    attrs = u.attrs;
    bus = on;
    child_listed = ground (arith, u.child_listed);
    class_listed = ground (arith, u.class_listed);
    refs = omega (arith, u.refs);
    parent_refs = u.parent_refs;
    glue_refs = u.glue_refs;
    place = u.place;
    in_sysfs = live;
    has_private = priv;
  }

  add_to_bus-Ends :
      (s : Device) (a : ℕ)
      → Underway d k (numbered_links d.has_class) (AllAttrs d) s
      → Live s
      → Ends d k (add_to_bus answer d s a)
  unfolding add_to_bus
  add_to_bus-Ends s a u live =
      let (off, on) = bus_add_device-BusDone answer d k.bus s.bus a u.bus in
      let o = bus_add_device answer d s.bus a in
      if_cases (Ends d k) (is_nonzero o.0)
        (λ bad. (λ e. undo_attrs-Undone s o.1 u (off bad), λ e. absurd (cc)))
        (λ good. (λ e. absurd (cc), λ e. announce-Added s o.1 u (on good) live))

  add_tables-Ends :
      (s : Device) (a : ℕ)
      → Bare d k true d.has_major (d.has_major && d.has_dev_dir) d.has_class s
      → Live s
      → Ends d k (add_tables answer d s a)
  unfolding add_tables
  add_tables-Ends s a u live =
      let (off, on) = add_attrs-Done answer d s.attrs a u.attrs in
      let o = add_attrs answer d s.attrs a in
      if_cases (Ends d k) (is_nonzero o.0)
        (λ bad. (
          λ e.
              undo_symlinks-Undone d k (record s { attrs = o.1 }) d.has_class (λ h. h)
                (retable (off bad)),
          λ e. absurd (cc),
        ))
        (λ good. add_to_bus-Ends (record s { attrs = o.1 }) o.2 (retable (on good)) live)
    where
      retable :
          {A : AttrFiles → Type 0} {x : AttrFiles}
          → A x
          → Underway d k (numbered_links d.has_class) A (record s { attrs = x })
      retable h = record {
        links = u.links;
        attrs = h;
        bus = u.bus;
        child_listed = u.child_listed;
        class_listed = u.class_listed;
        refs = u.refs;
        parent_refs = u.parent_refs;
        place = u.place;
        glue_refs = u.glue_refs;
      }

  create-links :
      (set : Links → Links) {m : Links} (l : Links) (a : ℕ)
      → l ≡ m
      → let (e, x, _) = create answer set l a in Settled e (x ≡ m) (x ≡ set m)
  create-links set {m} l a h =
      if_cases (λ (o : Tried Links). Settled o.0 (o.1 ≡ m) (o.1 ≡ set m)) (is_nonzero (answer a))
        (λ bad. (λ e. h, λ e. cc)) (λ good. (λ e. cc, λ e. ap set h))

  -- The links of the class are as they were on an error; on success the class's own is left.
  add_class_symlinks-links :
      (l : Links) (a : ℕ)
      → l ≡ numbered_links false
      → let (e, x, _) = add_class_symlinks answer d l a in
        Settled e (x ≡ numbered_links false) (x ≡ numbered_links d.has_class)
  unfolding add_class_symlinks link_parent link_class_entry
  add_class_symlinks-links l a h = (λ e. ground arith, λ e. ground arith)

  pub add_symlinks-Ends :
      (s : Device) (a : ℕ)
      → Bare d k true d.has_major (d.has_major && d.has_dev_dir) false s
      → Live s
      → Ends d k (add_symlinks answer d s a)
  unfolding add_symlinks
  add_symlinks-Ends s a u live =
      let (same, made) = add_class_symlinks-links s.links a u.links in
      let o = add_class_symlinks answer d s.links a in
      if_cases (Ends d k) (is_nonzero o.0)
        (λ bad. (
          λ e. undo_sys_dev-Undone d k (record s { links = o.1 }) (relink d k s o.1 u (same bad)),
          λ e. absurd (cc),
        ))
        (λ good.
          add_tables-Ends (record s { links = o.1 }) o.2 (relink d k s o.1 u (made good)) live)

  create_sys_dev_entry-links :
      (l : Links) (a : ℕ)
      → d.has_major ≡ true
      → l ≡ links_of true true false false
      → let (e, x, _) = create_sys_dev_entry answer d l a in
        Settled e (x ≡ links_of true d.has_major false false) (x ≡ numbered_links false)
  unfolding create_sys_dev_entry
  create_sys_dev_entry-links l a m h = (λ e. ground arith, λ e. ground arith)

  add_sys_dev-Ends :
      (s : Device) (a : ℕ)
      → d.has_major ≡ true
      → Bare d k true true false false s
      → Live s
      → Ends d k (add_sys_dev answer d s a)
  unfolding add_sys_dev
  add_sys_dev-Ends s a m u live =
      let (same, made) = create_sys_dev_entry-links s.links a m u.links in
      let o = create_sys_dev_entry answer d s.links a in
      if_cases (Ends d k) (is_nonzero o.0)
        (λ bad. (
          λ e. undo_devt-Undone d k (record s { links = o.1 }) (relink d k s o.1 u (same bad)),
          λ e. absurd (cc),
        ))
        (λ good.
          add_symlinks-Ends (record s { links = o.1 }) o.2 (relink d k s o.1 u (made good)) live)

  add_devt-Ends :
      (s : Device) (a : ℕ)
      → Bare d k true false false false s
      → Live s
      → Ends d k (add_devt answer d s a)
  unfolding add_devt
  add_devt-Ends s a u live =
      if_cases (Ends d k) d.has_major
        (λ m.
          let set : Links → Links = λ l. record l { devt = true } in
          let (same, made) = create-links set s.links a u.links in
          let o = create answer set s.links a in
          if_cases (Ends d k) (is_nonzero o.0)
            (λ bad. (
              λ e.
                  undo_uevent-Undone d k (record s { links = o.1 }) (relink d k s o.1 u (same bad)),
              λ e. absurd (cc),
            ))
            (λ good.
              add_sys_dev-Ends (record s { links = o.1 }) o.2 m (relink d k s o.1 u (made good))
                live))
        (λ m. add_symlinks-Ends s a (relink d k s s.links u (ground (arith, u.links))) live)

  pub add_uevent_file-Ends :
      (s : Device) (a : ℕ)
      → Bare d k false false false false s
      → Live s
      → Ends d k (add_uevent_file answer d s a)
  unfolding add_uevent_file
  add_uevent_file-Ends s a u live =
      let set : Links → Links = λ l. record l { uevent = true } in
      let (same, made) = create-links set s.links a u.links in
      let o = create answer set s.links a in
      if_cases (Ends d k) (is_nonzero o.0)
        (λ bad. (
          λ e. undo_kobject-Undone d k (record s { links = o.1 }) (relink d k s o.1 u (same bad)),
          λ e. absurd (cc),
        ))
        (λ good. add_devt-Ends (record s { links = o.1 }) o.2 (relink d k s o.1 u (made good)) live)
