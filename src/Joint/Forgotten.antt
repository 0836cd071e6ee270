-- ===== src/Joint/Forgotten.antt =====
-- What the driver core keeps of a device that is unregistered.
use mathlib.Core.List.{map}
use open_device.Base.{
  ℕ, ◌≡◌, ◌∙◌, refl, sym, subst, ap, Option, none, some, Bool, true, false, ◌||◌, ◌&&◌, List, [],
  ◌∷◌, ◌++◌, ==_refl, arith, if◌then◌else◌, if_cases, Option-cases, inl, inr,
}
use open_device.Device.State.{
  Desc, Event, notify_del, uevent_remove, release_driver, deferred_del, class_remove, bus_remove,
}
use open_device.Device.Add.{device_del, del_events}
use open_device.Driver.State.{
  Core, Platform, at, call, notify_unbind, bus_removes, driver_removes, release_all,
}
use open_device.Driver.Deferred.{deferred_probe_del, is_deferred}
use open_device.Driver.Attach.{device_release_driver, release_bound}
use open_device.Driver.Deferred.{driver_sysfs_remove}
use open_device.Driver.Probe.{dev_set_drvdata}
use open_device.Driver.Lists.{deferred_probe_del_lem, has-unlink}
use open_device.Driver.Unbind.{device_release_driver-Unbound}
use open_device.Joint.Machine.{perform, perform_calls, Machine, device_unregister}

module _ (p : Platform) (id : ℕ) where
  pub perform_calls-append :
      (es fs : List Event) (c : Core)
      → perform_calls p id (es ++ fs) c ≡ perform_calls p id fs (perform_calls p id es c)
  unfolding perform_calls
  perform_calls-append [] fs c = refl
  perform_calls-append (e ∷ es) fs c = perform_calls-append es fs (perform p id e c)

  -- Listeners do not touch the driver core.
  pub perform_listeners :
      (e : ℕ → Event)
      → ((n : ℕ) (c : Core) → perform p id (e n) c ≡ c)
      → (ns : List ℕ) (c : Core) → perform_calls p id (map e ns) c ≡ c
  unfolding perform_calls
  perform_listeners e h [] c = refl
  perform_listeners e h (n ∷ ns) c =
      ap (perform_calls p id (map e ns)) (h n c) ∙ perform_listeners e h ns c

  class_removes :
      (b : Bool) (ns : List ℕ) (c : Core)
      → perform_calls p id (if b then map class_remove ns else []) c ≡ c
  unfolding perform_calls perform
  class_removes true ns c = perform_listeners class_remove (λ n s. refl) ns c
  class_removes false ns c = refl

  bus_removes_then_release :
      (b : Bool) (ns : List ℕ) (c : Core)
      → perform_calls p id (if b then map bus_remove ns ++ release_driver ∷ [] else []) c
        ≡ (if b then device_release_driver p id c else c)
  unfolding perform_calls perform
  bus_removes_then_release true ns c =
      perform_calls-append (map bus_remove ns) (release_driver ∷ []) c
      ∙ ap (device_release_driver p id) (perform_listeners bus_remove (λ n s. refl) ns c)
  bus_removes_then_release false ns c = refl

  first_notice :
      (b : Bool) (c : Core) → perform_calls p id (if b then notify_del ∷ [] else []) c ≡ c
  unfolding perform_calls perform
  first_notice true c = refl
  first_notice false c = refl

-- The calls of a deletion, on the core: a release where there is a bus, then the lists.
del_calls :
    (p : Platform) (d : Desc) (c : Core)
    → perform_calls p d.id (del_events d) c
      ≡ deferred_probe_del d.id (if d.has_bus then device_release_driver p d.id c else c)
unfolding del_events perform_calls perform
del_calls p d c =
    let a : List Event = if d.has_bus then notify_del ∷ [] else [] in
    let b : List Event = if d.has_class then map class_remove d.class_listeners else [] in
    let r : List Event =
      if d.has_bus then map bus_remove d.bus_listeners ++ release_driver ∷ [] else [] in
    let e : perform_calls p d.id (a ++ b) c ≡ c =
      perform_calls-append p d.id a b c
      ∙ ap (perform_calls p d.id b) (first_notice p d.id d.has_bus c)
      ∙ class_removes p d.id d.has_class d.class_listeners c in
    let f : perform_calls p d.id (a ++ b ++ r) c
        ≡ (if d.has_bus then device_release_driver p d.id c else c) =
      perform_calls-append p d.id (a ++ b) r c
      ∙ ap (perform_calls p d.id r) e
      ∙ bus_removes_then_release p d.id d.has_bus d.bus_listeners c in
    perform_calls-append p d.id (a ++ b ++ r) (deferred_del ∷ uevent_remove ∷ []) c
    ∙ ap (deferred_probe_del d.id) f

unregister_core :
    (p : Platform) (d : Desc) (m : Machine)
    → (device_unregister p d m).core
      ≡ deferred_probe_del d.id (if d.has_bus then device_release_driver p d.id m.core else m.core)
unfolding device_unregister device_del
unregister_core p d m = del_calls p d m.core

not_deferred : (d : ℕ) (s : Core) → is_deferred d (deferred_probe_del d s) ≡ false
not_deferred d s =
    let e = ==_refl d in
    let f = has-unlink d d s.pending in
    let g = has-unlink d d s.active in
    ap (is_deferred d) (deferred_probe_del_lem d s) ∙ ground arith

-- The core has nothing of the device any more, but for its private data, which is not freed.
pub record Forgotten (id : ℕ) (c : Core) : Type 0 where
  pub driver : c.driver id ≡ none
  pub attached : c.attached id ≡ none
  pub drvdata : c.drvdata id ≡ none
  pub dir_link : c.dir_link id ≡ false
  pub dev_link : c.dev_link id ≡ false
  pub has_private : c.has_private id ≡ true
  pub deferred : is_deferred id c ≡ false

-- The core has nothing of a device but its private data, the deferred lists aside.
pub record Unnamed (id : ℕ) (c : Core) : Type 0 where
  pub driver : c.driver id ≡ none
  pub attached : c.attached id ≡ none
  pub drvdata : c.drvdata id ≡ none
  pub dir_link : c.dir_link id ≡ false
  pub dev_link : c.dev_link id ≡ false
  pub has_private : c.has_private id ≡ true

deferred_probe_del-Forgotten :
    (id : ℕ) (c : Core) → Unnamed id c → Forgotten id (deferred_probe_del id c)
deferred_probe_del-Forgotten id c h =
    let e = deferred_probe_del_lem id c in
    record {
      driver = ap (λ (s : Core). s.driver id) e ∙ h.driver;
      attached = ap (λ (s : Core). s.attached id) e ∙ h.attached;
      drvdata = ap (λ (s : Core). s.drvdata id) e ∙ h.drvdata;
      dir_link = ap (λ (s : Core). s.dir_link id) e ∙ h.dir_link;
      dev_link = ap (λ (s : Core). s.dev_link id) e ∙ h.dev_link;
      has_private = ap (λ (s : Core). s.has_private id) e ∙ h.has_private;
      deferred = not_deferred id c;
    }

release_none :
    (p : Platform) (id : ℕ) (c : Core) → c.driver id ≡ none → device_release_driver p id c ≡ c
unfolding device_release_driver
release_none p id c h = ground arith

set_drvdata-private :
    (p : Platform) (id : ℕ) (v : Option ℕ) (c : Core)
    → c.has_private id ≡ true
    → (dev_set_drvdata p id v c).1.has_private id ≡ true
unfolding dev_set_drvdata
set_drvdata-private p id v c h = let e = ==_refl id in ground arith

sysfs_remove-private : (id : ℕ) (c : Core) → (driver_sysfs_remove id c).has_private ≡ c.has_private
unfolding driver_sysfs_remove
sysfs_remove-private id c = ground arith

-- The private data outlives the driver.
release_bound-private :
    (p : Platform) (drv id : ℕ) (c : Core)
    → c.has_private id ≡ true
    → (release_bound p drv id c).has_private id ≡ true
unfolding release_bound
release_bound-private p drv id c h =
    let P : Core → Type 0 = λ s. s.has_private id ≡ true in
    let s1 : Core = driver_sysfs_remove id c in
    let s2 : Core = if p.on_bus id then call (notify_unbind id) s1 else s1 in
    let s3 : Core =
      if p.on_bus id && p.bus_has_remove
      then call (bus_removes id) s2
      else if p.driver_has_remove drv
      then call (driver_removes drv id) s2
      else s2 in
    let s4 : Core = call (release_all id) s3 in
    let t : Core = record s4 { driver = at s4.driver id none } in
    let s5 : Core = (dev_set_drvdata p id none t).1 in
    let s6 : Core = record s5 { attached = at s5.attached id none } in
    let h1 : P s1 = ap (λ f. f id) (sysfs_remove-private id c) ∙ h in
    let h2 : P s2 = if_cases P (p.on_bus id) (λ _. h1) (λ _. h1) in
    let h3 : P s3 =
      if_cases P (p.on_bus id && p.bus_has_remove) (λ _. h2)
        (λ _. if_cases P (p.driver_has_remove drv) (λ _. h2) (λ _. h2)) in
    let h5 : P s5 = set_drvdata-private p id none t h3 in
    if_cases P (p.on_bus id) (λ _. h5) (λ _. h5)

release-private :
    (p : Platform) (drv id : ℕ) (c : Core)
    → c.driver id ≡ some drv
    → c.has_private id ≡ true
    → (device_release_driver p id c).has_private id ≡ true
unfolding device_release_driver
release-private p drv id c e h = let f = release_bound-private p drv id c h in ground arith

-- Private data, and nothing else without a driver.
abbrev pub Sound : ℕ → Core → Type 0
Sound id c = (c.has_private id ≡ true) × (c.driver id ≡ none → Unnamed id c)

-- A release leaves the device without a driver, in both places, and without its links and data.
released :
    (p : Platform) (id : ℕ) (c : Core) → Sound id c → Unnamed id (device_release_driver p id c)
released p id c (priv, k) = elim (Option-cases (c.driver id)) [
  | inl e ↦ subst (Unnamed id) (sym (release_none p id c e)) (k e)
  | inr (drv, e) ↦
      let b = device_release_driver-Unbound p drv id c e in
      record {
        driver = b.driver;
        attached = b.attached;
        drvdata = b.drvdata ∙ ap (λ x. if x || p.private_fits then none else c.drvdata id) priv;
        dir_link = b.dir_link;
        dev_link = b.dev_link;
        has_private = release-private p drv id c e priv;
      }
]

-- Unregistering a device that is on a bus and has private data, in any state in which the core keeps
-- nothing else of a device without a driver: the core then names no driver for it, has it in no
-- driver's list and in neither list of deferred devices, its driver data is cleared and its two links
-- with the driver are gone; its private data is still there.
pub device_unregister-Forgotten :
    (p : Platform) (d : Desc) (m : Machine)
    → d.has_bus ≡ true
    → Sound d.id m.core
    → Forgotten d.id (device_unregister p d m).core
device_unregister-Forgotten p d m h k =
    let u : Core = device_release_driver p d.id m.core in
    let core : (device_unregister p d m).core ≡ deferred_probe_del d.id u =
      unregister_core p d m ∙ ap (λ b. deferred_probe_del d.id (if b then u else m.core)) h in
    subst (Forgotten d.id) (sym core)
      (deferred_probe_del-Forgotten d.id u (released p d.id m.core k))
