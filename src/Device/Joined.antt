-- ===== src/Device/Joined.antt =====
-- The addition from the look-up of the directory on: what the directory adds to a device that is not in
-- the hierarchy.
use open_device.Base.{
  ℕ, suc, ◌+◌, ◌≡◌, ◌∙◌, refl, sym, ap, subst, true, false, arith, if◌then◌else◌, if_cases, ℤ,
  is_nonzero,
}
use open_device.Device.State.{Desc, Device, Place, nowhere, glue_dir, parent_dir, bus_root}
use open_device.Device.Add.{get_device_parent, join_hierarchy, placed, add_kobject, is_glue}
use open_device.Device.Tables.{NoAttrs}
use open_device.Device.OnBus.{OffBus}
use open_device.Device.Rollback.{links_of, Counts, Bare, undo_parent-Undone}
use open_device.Device.Settle.{Ends, add_uevent_file-Ends}

-- A device that was never added, or was deleted.
pub record Fresh (s : Device) : Type 0 where
  pub links : s.links ≡ links_of false false false false
  pub attrs : NoAttrs s.attrs
  pub bus : OffBus s.bus.refs s.bus
  pub child_listed : s.child_listed ≡ false
  pub class_listed : s.class_listed ≡ false
  pub in_sysfs : s.in_sysfs ≡ false
  pub place : is_glue s.place ≡ false

abbrev pub counts : Device → Counts
counts s = record { own = s.refs; parent = s.parent_refs; bus = s.bus.refs; glue = s.glue_refs }

module _ (answer : ℕ → ℤ) (d : Desc) (k : Counts) where
  -- Before the directory is looked up.
  record Off (s : Device) : Type 0 where
    links : s.links ≡ links_of false false false false
    attrs : NoAttrs s.attrs
    bus : OffBus k.bus s.bus
    child_listed : s.child_listed ≡ false
    class_listed : s.class_listed ≡ false
    refs : s.refs ≡ suc k.own
    parent_refs : s.parent_refs ≡ (if d.has_parent then suc k.parent else k.parent)
    place : is_glue s.place ≡ false
    glue_refs : s.glue_refs ≡ k.glue
    in_sysfs : s.in_sysfs ≡ false
    has_private : s.has_private ≡ true

  -- What the look-up does, by the directory that it gives.
  record Placed (p : Place) (s t : Device) : Type 0 where
    same : record t { place = nowhere; glue_refs = 0 } ≡ record s { place = nowhere; glue_refs = 0 }
    place : is_glue t.place ≡ is_glue p
    glue_refs : t.glue_refs ≡ (if is_glue p then suc k.glue else k.glue)

  placed-Placed : (p : Place) (s : Device) → Off s → Placed p s (placed p s)
  placed-Placed nowhere s h = record { same = refl; place = h.place; glue_refs = h.glue_refs }
  placed-Placed glue_dir s h = record { same = refl; place = refl; glue_refs = ap suc h.glue_refs }
  placed-Placed parent_dir s h = record { same = refl; place = refl; glue_refs = h.glue_refs }
  placed-Placed bus_root s h = record { same = refl; place = refl; glue_refs = h.glue_refs }

  placed-Bare :
      (s : Device)
      → Off s
      → let t : Device = placed (get_device_parent d) s in
        Bare d k false false false false t × (t.in_sysfs ≡ false) × (t.has_private ≡ true)
  placed-Bare s h =
      let p = get_device_parent d in
      let q = placed-Placed p s h in
      (
        record {
          links = ap (λ (x : Device). x.links) q.same ∙ h.links;
          attrs = subst NoAttrs (sym (ap (λ (x : Device). x.attrs) q.same)) h.attrs;
          bus = subst (OffBus k.bus) (sym (ap (λ (x : Device). x.bus) q.same)) h.bus;
          child_listed = ap (λ (x : Device). x.child_listed) q.same ∙ h.child_listed;
          class_listed = ap (λ (x : Device). x.class_listed) q.same ∙ h.class_listed;
          refs = ap (λ (x : Device). x.refs) q.same ∙ h.refs;
          parent_refs = ap (λ (x : Device). x.parent_refs) q.same ∙ h.parent_refs;
          place = q.place;
          glue_refs = q.glue_refs;
        },
        ap (λ (x : Device). x.in_sysfs) q.same ∙ h.in_sysfs,
        ap (λ (x : Device). x.has_private) q.same ∙ h.has_private,
      )

  join_hierarchy-Ends : (s : Device) (a : ℕ) → Off s → Ends d k (join_hierarchy answer d s a)
  unfolding join_hierarchy
  join_hierarchy-Ends s a h =
      let p = get_device_parent d in
      let (u, i, priv) = placed-Bare s h in
      if_cases (Ends d k) (is_nonzero (answer a))
        (λ bad. (λ e. undo_parent-Undone d k (placed p s) u i, λ e. absurd (cc)))
        (λ good.
          add_uevent_file-Ends answer d k (record (placed p s) { in_sysfs = true }) (a + 1) u
            (refl, priv))

  -- What `add_kobject` starts from, with `p` references to the parent.
  Fresh-Off :
      (s : Device)
      → Fresh s
      → s.has_private ≡ true
      → s.refs ≡ suc k.own
      → s.bus.refs ≡ k.bus
      → (p : ℕ) → p ≡ (if d.has_parent then suc k.parent else k.parent)
      → s.glue_refs ≡ k.glue
      → Off (record s { parent_refs = p })
  Fresh-Off s f priv r b p e g = record {
    links = f.links;
    attrs = f.attrs;
    bus = record { attrs = f.bus.attrs; link = f.bus.link; listed = f.bus.listed; refs = b };
    child_listed = f.child_listed;
    class_listed = f.class_listed;
    refs = r;
    parent_refs = e;
    place = f.place;
    glue_refs = g;
    in_sysfs = f.in_sysfs;
    has_private = priv;
  }

  pub add_kobject-Ends :
      (s : Device) (a : ℕ)
      → Fresh s
      → s.has_private ≡ true
      → s.refs ≡ suc k.own
      → s.parent_refs ≡ k.parent
      → s.bus.refs ≡ k.bus
      → s.glue_refs ≡ k.glue
      → Ends d k (add_kobject answer d s a)
  unfolding add_kobject
  add_kobject-Ends s a f priv r p b g =
      if_cases (λ t. Ends d k (join_hierarchy answer d t a)) d.has_parent
        (λ h.
          join_hierarchy-Ends (record s { parent_refs = suc s.parent_refs }) a
            (Fresh-Off s f priv r b (suc s.parent_refs) (ground arith) g))
        (λ h. join_hierarchy-Ends s a (Fresh-Off s f priv r b s.parent_refs (ground arith) g))
