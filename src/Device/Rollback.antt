-- ===== src/Device/Rollback.antt =====
-- A failed `demo_device_add` leaves nothing behind: what each label undoes.
use open_device.Base.{
  ℕ, suc, ◌≡◌, refl, Bool, true, false, ◌&&◌, not, arith, if◌then◌else◌, if_cases, ap, inl, inr,
  Bool-cases,
}
use open_device.Device.State.{Desc, Device, Links, AttrFiles, BusPart, Place, uevent_remove}
use open_device.Device.Links.{remove_sys_dev_entry, remove_class_symlinks}
use open_device.Device.Add.{
  undo_parent, undo_kobject, undo_uevent, undo_devt, undo_sys_dev, undo_symlinks, unhooked, call,
  is_glue, get_device_parent, cleanup_device_parent,
}
use open_device.Device.Tables.{NoAttrs}
use open_device.Device.OnBus.{OffBus}

-- The links of a device that is being added: those of the class but the last are never left.
abbrev pub links_of : Bool → Bool → Bool → Bool → Links
links_of u v w c = record {
  uevent = u;
  devt = v;
  sys_dev = w;
  subsystem = false;
  parent = false;
  class_entry = c;
}

-- The references before the call: to the device, its parent, its bus, its class directory.
pub record Counts : Type 0 where
  pub own : ℕ
  pub parent : ℕ
  pub bus : ℕ
  pub glue : ℕ

-- The device goes under a class directory, and the directory is looked up with a reference.
abbrev pub in_glue : Desc → Bool
in_glue d = is_glue (get_device_parent d)

-- An error behind the look-up: the reference to the class directory is given back only if the kobject
-- still has its parent.
abbrev pub left_behind : Desc → Counts → Counts
left_behind d k = record k {
  glue = if in_glue d && not d.del_keeps_parent then suc k.glue else k.glue;
}

-- In the middle of the call: the links are `l`, the attribute files satisfy `A`, the device is on no
-- list, and the call holds a reference to it, to its parent and to its class directory.
pub record Holding (d : Desc) (k : Counts) (l : Links) (A : AttrFiles → Type 0) (x : Links)
    (y : AttrFiles) (b : BusPart) (child class : Bool) (r p : ℕ) (at : Place) (g : ℕ) : Type 0 where
  pub links : x ≡ l
  pub attrs : A y
  pub bus : OffBus k.bus b
  pub child_listed : child ≡ false
  pub class_listed : class ≡ false
  pub refs : r ≡ suc k.own
  pub parent_refs : p ≡ (if d.has_parent then suc k.parent else k.parent)
  pub place : is_glue at ≡ in_glue d
  pub glue_refs : g ≡ (if in_glue d then suc k.glue else k.glue)

abbrev pub Underway : Desc → Counts → Links → (AttrFiles → Type 0) → Device → Type 0
Underway d k l A s =
    Holding d k l A s.links s.attrs s.bus s.child_listed s.class_listed s.refs s.parent_refs s.place
      s.glue_refs

-- Nothing of the device is left in sysfs, on the bus or in a list, and every reference is back.
pub record Gone (k : Counts) (s : Device) : Type 0 where
  pub links : s.links ≡ links_of false false false false
  pub attrs : NoAttrs s.attrs
  pub bus : OffBus k.bus s.bus
  pub child_listed : s.child_listed ≡ false
  pub class_listed : s.class_listed ≡ false
  pub refs : s.refs ≡ k.own
  pub parent_refs : s.parent_refs ≡ k.parent
  pub glue_refs : s.glue_refs ≡ k.glue
  pub in_sysfs : s.in_sysfs ≡ false

-- `Gone`, and the private data is freed.
abbrev pub Undone : Counts → Device → Type 0
Undone k s = Gone k s × (s.has_private ≡ false)

-- Only a device with a class goes there.
pub in_glue-class : (d : Desc) → in_glue d && d.has_class ≡ in_glue d
unfolding get_device_parent
in_glue-class d = ground arith

module _ (d : Desc) (k : Counts) where
  abbrev pub Bare : Bool → Bool → Bool → Bool → Device → Type 0
  Bare u v w c = Underway d k (links_of u v w c) NoAttrs

  pub unhooked-glue :
      (s : Device)
      → is_glue s.place ≡ in_glue d
      → s.glue_refs ≡ (if in_glue d then suc k.glue else k.glue)
      → (cleanup_device_parent d (unhooked d s)).glue_refs ≡ (left_behind d k).glue
  unfolding cleanup_device_parent
  unhooked-glue s h g =
      let c = in_glue-class d in
      elim (Bool-cases d.del_keeps_parent) [
        | inl e ↦ rw (e, h, c, g) (ground arith)
        | inr e ↦ rw (e, g) (ground arith)
      ]

  pub undo_parent-Undone :
      (s : Device)
      → Bare false false false false s
      → s.in_sysfs ≡ false
      → Undone (left_behind d k) (undo_parent d (unhooked d s))
  unfolding undo_parent
  undo_parent-Undone s u i = (
    record {
      links = u.links;
      attrs = u.attrs;
      bus = u.bus;
      child_listed = u.child_listed;
      class_listed = u.class_listed;
      refs = omega (arith, u.refs);
      parent_refs = ground (arith, u.parent_refs);
      glue_refs = unhooked-glue s u.place u.glue_refs;
      in_sysfs = i;
    },
    refl,
  )

  -- A device whose links alone are changed.
  pub relink :
      {l m : Links} {A : AttrFiles → Type 0} (s : Device) (x : Links)
      → Underway d k l A s
      → x ≡ m
      → Underway d k m A (record s { links = x })
  relink s x u e = record {
    links = e;
    attrs = u.attrs;
    bus = u.bus;
    child_listed = u.child_listed;
    class_listed = u.class_listed;
    refs = u.refs;
    parent_refs = u.parent_refs;
    place = u.place;
    glue_refs = u.glue_refs;
  }

  pub undo_kobject-Undone :
      (s : Device) → Bare false false false false s → Undone (left_behind d k) (undo_kobject d s)
  unfolding undo_kobject
  undo_kobject-Undone s u =
      undo_parent-Undone (record (call uevent_remove s) { in_sysfs = false }) u refl

  pub undo_uevent-Undone :
      (s : Device) → Bare true false false false s → Undone (left_behind d k) (undo_uevent d s)
  unfolding undo_uevent
  undo_uevent-Undone s u =
      undo_kobject-Undone (record s { links = record (s.links) { uevent = false } })
        (relink s _ u (ap {A = Links} (λ l. record l { uevent = false }) u.links))

  pub undo_devt-Undone :
      (s : Device) → Bare true d.has_major false false s → Undone (left_behind d k) (undo_devt d s)
  unfolding undo_devt
  undo_devt-Undone s u =
      if_cases (λ t. Undone (left_behind d k) (undo_uevent d t)) d.has_major
        (λ h.
          undo_uevent-Undone (record s { links = record (s.links) { devt = false } })
            (relink s _ u (ap {A = Links} (λ l. record l { devt = false }) u.links)))
        (λ h. undo_uevent-Undone s (relink s s.links u (ground arith)))

  pub undo_sys_dev-Undone :
      (s : Device)
      → Bare true d.has_major (d.has_major && d.has_dev_dir) false s
      → Undone (left_behind d k) (undo_sys_dev d s)
  unfolding undo_sys_dev
  undo_sys_dev-Undone s u =
      if_cases (λ t. Undone (left_behind d k) (undo_devt d t)) d.has_major
        (λ h.
          undo_devt-Undone (record s { links = remove_sys_dev_entry d s.links })
            (relink s _ u (ground arith)))
        (λ h. undo_devt-Undone s (relink s s.links u (ground arith)))

  pub undo_symlinks-Undone :
      (s : Device) (c : Bool)
      → (c ≡ true → d.has_class ≡ true)
      → Bare true d.has_major (d.has_major && d.has_dev_dir) c s
      → Undone (left_behind d k) (undo_symlinks d s)
  unfolding undo_symlinks
  undo_symlinks-Undone s c h u =
      undo_sys_dev-Undone (record s { links = remove_class_symlinks d s.links })
        (relink s _ u (ground arith))
