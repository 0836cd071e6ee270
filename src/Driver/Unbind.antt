-- ===== src/Driver/Unbind.antt =====
-- What `__demo_device_release_driver` calls, in which order, and what it leaves of the binding.
use mathlib.Core.List.{append-nil, append_assoc}
use open_device.Base.{
  ℕ, ◌≡◌, ◌∙◌, refl, sym, subst, ap, Option, none, some, is_some, Bool, true, false, ◌&&◌, ◌||◌,
  List, [], ◌∷◌, ◌++◌, arith, if◌then◌else◌, if_cases, ℤ,
}
use open_device.Driver.State.{
  Core, Platform, Event, at, call, notify_unbind, notify_unbound, bus_removes, driver_removes,
  release_all,
}
use open_device.Driver.Deferred.{driver_sysfs_remove}
use open_device.Driver.Probe.{dev_set_drvdata}
use open_device.Driver.Attach.{release_bound, device_release_driver}

abbrev pub when : Bool → Event → List Event
when c e = if c then e ∷ [] else []

-- The remove function that is called: that of the bus, else that of the driver.
abbrev pub remove_calls : Platform → ℕ → ℕ → List Event
remove_calls p drv d =
    if p.on_bus d && p.bus_has_remove
    then bus_removes d ∷ []
    else when (p.driver_has_remove drv) (driver_removes drv d)

-- All calls of a release, in order.
abbrev pub unbind_calls : Platform → ℕ → ℕ → List Event
unbind_calls p drv d =
    when (p.on_bus d) (notify_unbind d)
    ++ remove_calls p drv d
    ++ release_all d ∷ []
    ++ when (p.on_bus d) (notify_unbound d)

abbrev called : List Event → Core → Core
called es s = record s { events = s.events ++ es }

called_none : (s : Core) → s ≡ called [] s
called_none s = ap (λ es. record s { events = es }) (sym (append-nil s.events))

called-called : (es fs : List Event) (s : Core) → called fs (called es s) ≡ called (es ++ fs) s
called-called es fs s = ap (λ x. record s { events = x }) (append_assoc s.events es fs)

call-when : (c : Bool) (e : Event) (s : Core) → (if c then call e s else s) ≡ called (when c e) s
call-when true e s = refl
call-when false e s = called_none s

call_choice :
    (b c : Bool) (e f : Event) (s : Core)
    → (if b then call e s else if c then call f s else s)
      ≡ called (if b then e ∷ [] else when c f) s
call_choice true c e f s = refl
call_choice false c e f s = call-when c f s

call_remove :
    (p : Platform) (drv d : ℕ) (s : Core)
    → (if p.on_bus d && p.bus_has_remove
        then call (bus_removes d) s
        else if p.driver_has_remove drv
        then call (driver_removes drv d) s
        else s)
      ≡ called (remove_calls p drv d) s
call_remove p drv d s =
    call_choice (p.on_bus d && p.bus_has_remove) (p.driver_has_remove drv) (bus_removes d)
      (driver_removes drv d) s

-- Nothing names the driver any more, and the calls were made in order.
pub record Unbound (p : Platform) (drv d : ℕ) (s u : Core) : Type 0 where
  pub driver : u.driver d ≡ none
  pub attached : u.attached d ≡ none
  pub dir_link : u.dir_link d ≡ false
  pub dev_link : u.dev_link d ≡ false
  pub drvdata : u.drvdata d ≡ (if s.has_private d || p.private_fits then none else s.drvdata d)
  pub events : u.events ≡ s.events ++ unbind_calls p drv d

-- From `dev->driver = NULL` on.
abbrev forget : Platform → ℕ → Core → Core
forget p d s =
    let s5 : Core = (dev_set_drvdata p d none (record s { driver = at s.driver d none })).1 in
    let s6 : Core = record s5 { attached = at s5.attached d none } in
    if p.on_bus d then call (notify_unbound d) s6 else s6

-- The links are gone before the first call.
abbrev unlinked_dirs : ℕ → Core → Core
unlinked_dirs d s = record s { dir_link = at s.dir_link d false; dev_link = at s.dev_link d false }

-- `forget` after the calls `es`.
forget-Unbound :
    (p : Platform) (drv d : ℕ) (s : Core) (es : List Event)
    → es ++ when (p.on_bus d) (notify_unbound d) ≡ unbind_calls p drv d
    → Unbound p drv d s (forget p d (called es (unlinked_dirs d s)))
unfolding dev_set_drvdata
forget-Unbound p drv d s es h =
    let t : Core = called es (unlinked_dirs d s) in
    subst (λ (u : Core). Unbound p drv d s u)
      (sym (
        call-when (p.on_bus d) (notify_unbound d) (
          let s5 : Core = (dev_set_drvdata p d none (record t { driver = at t.driver d none })).1 in
          record s5 { attached = at s5.attached d none })))
      (if_cases
        (λ (o : ℤ × Core). Unbound p drv d s (
          called (when (p.on_bus d) (notify_unbound d))
            (record o.1 { attached = at o.1.attached d none })))
        (s.has_private d || p.private_fits)
        (λ c. record {
          driver = ground arith;
          attached = ground arith;
          dir_link = ground arith;
          dev_link = ground arith;
          drvdata = ground arith;
          events =
              append_assoc s.events es (when (p.on_bus d) (notify_unbound d))
              ∙ ap (λ x. s.events ++ x) h;
        })
        (λ c. record {
          driver = ground arith;
          attached = ground arith;
          dir_link = ground arith;
          dev_link = ground arith;
          drvdata = ground arith;
          events =
              append_assoc s.events es (when (p.on_bus d) (notify_unbound d))
              ∙ ap (λ x. s.events ++ x) h;
        }))

-- The state from `demo_devres_release_all` on, by the calls so far.
before_forget :
    (p : Platform) (drv d : ℕ) (s1 : Core)
    → (let s2 : Core = if p.on_bus d then call (notify_unbind d) s1 else s1 in
        let s3 : Core =
          if p.on_bus d && p.bus_has_remove
          then call (bus_removes d) s2
          else if p.driver_has_remove drv
          then call (driver_removes drv d) s2
          else s2 in
        call (release_all d) s3
        ≡ called
            ((when (p.on_bus d) (notify_unbind d) ++ remove_calls p drv d) ++ release_all d ∷ [])
            s1)
before_forget p drv d s1 =
    let a : List Event = when (p.on_bus d) (notify_unbind d) in
    let b : List Event = remove_calls p drv d in
    let s2 : Core = if p.on_bus d then call (notify_unbind d) s1 else s1 in
    ap (called (release_all d ∷ [])) (
      call_remove p drv d s2
      ∙ ap (called b) (call-when (p.on_bus d) (notify_unbind d) s1)
      ∙ called-called a b s1)
    ∙ called-called (a ++ b) (release_all d ∷ []) s1

sysfs_remove-bound :
    (d drv : ℕ) (s : Core) → s.driver d ≡ some drv → driver_sysfs_remove d s ≡ unlinked_dirs d s
unfolding driver_sysfs_remove
sysfs_remove-bound d drv s h = ap (λ (m : Option ℕ). if is_some m then unlinked_dirs d s else s) h

release_bound-Unbound :
    (p : Platform) (drv d : ℕ) (s : Core)
    → s.driver d ≡ some drv
    → Unbound p drv d s (release_bound p drv d s)
unfolding release_bound
release_bound-Unbound p drv d s h =
    let a : List Event = when (p.on_bus d) (notify_unbind d) in
    let b : List Event = remove_calls p drv d in
    let es : List Event = (a ++ b) ++ release_all d ∷ [] in
    subst (λ t. Unbound p drv d s (forget p d t))
      (sym (
        before_forget p drv d (driver_sysfs_remove d s)
        ∙ ap (called es) (sysfs_remove-bound d drv s h)))
      (forget-Unbound p drv d s es refl)

-- Releasing the driver of a device makes the calls of `unbind_calls` in order: the bus's listeners
-- are told at both ends, one remove function is called between, the managed resources are released
-- after it. Then the links are gone, nothing names the driver, and the device is in no driver's list;
-- its data are cleared if its private part exists or fits.
pub device_release_driver-Unbound :
    (p : Platform) (drv d : ℕ) (s : Core)
    → s.driver d ≡ some drv
    → Unbound p drv d s (device_release_driver p d s)
unfolding device_release_driver
device_release_driver-Unbound p drv d s h =
    subst
      (λ (m : Option ℕ).
        let u : Core = elim m [ none ↦ s | some e ↦ release_bound p e d s ] in Unbound p drv d s u)
      (sym h) (release_bound-Unbound p drv d s h)
