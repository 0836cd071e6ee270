-- ===== src/Device/Result.antt =====
-- `demo_device_add` makes everything that the device's description names, or nothing; and
-- `demo_device_del` takes away what it made.
use open_device.Base.{
  ℕ, suc, ◌≡◌, refl, sym, subst, Option, some, Bool, true, false, not, ◌&&◌, ◌||◌, arith,
  if◌then◌else◌, is_some, if_cases, ℤ,
}
use open_device.Device.State.{Desc, Device, Name, Tried}
use open_device.Device.Add.{set_names, device_add, name_error, done}
use open_device.Device.Tables.{Settled}
use open_device.Device.OnBus.{OnBus}
use open_device.Device.Rollback.{Counts, Gone, left_behind, Undone}
use open_device.Device.Settle.{Added}
use open_device.Device.Joined.{Fresh, counts, add_kobject-Ends}

-- The reference that the call took is given back.
Fresh-Gone :
    (s : Device)
    → Fresh s
    → (n i : Option Name) (p : Bool)
    → Gone
        (counts s)
        (done (record s { name = n; init_name = i; has_private = p; refs = suc s.refs }))
unfolding done
Fresh-Gone s f n i p = record {
  links = f.links;
  attrs = f.attrs;
  bus = f.bus;
  child_listed = f.child_listed;
  class_listed = f.class_listed;
  refs = omega arith;
  parent_refs = refl;
  glue_refs = refl;
  in_sysfs = f.in_sysfs;
}

-- The call gets as far as the look-up of the directory: there is private data, or memory for it, and
-- the device has a name.
abbrev pub looked_up : Desc → Device → Bool
looked_up d s = (s.has_private || d.private_fits) && is_some (set_names d s).name

-- The references that are left by an error.
abbrev pub after_error : Desc → Device → Counts
after_error d s = if looked_up d s then left_behind d (counts s) else counts s

pub device_add-all_or_nothing :
    (answer : ℕ → ℤ) (d : Desc) (s : Device) (a : ℕ)
    → Fresh s
    → let (e, t, _) = device_add answer (some d) s a in
      Settled e (Undone (after_error d s) t) (Added d (counts s) t)
unfolding device_add set_names name_error
device_add-all_or_nothing answer d s a f =
    if_cases (λ (o : Tried Device). Settled o.0 (Undone (after_error d s) o.1) (Added d k o.1))
      (not (s.has_private || d.private_fits))
      (λ small. (
        λ e.
            at_once (ground arith) _
              (Fresh-Gone s f s.name s.init_name s.has_private, ground arith),
        λ e. cc,
      ))
      (λ fits.
        if_cases (λ (o : Tried Device). Settled o.0 (Undone (after_error d s) o.1) (Added d k o.1))
          (is_some t.name)
          (λ named.
            let h = add_kobject-Ends answer d k t a ready refl refl refl refl refl in
            (λ e. later (ground arith) _ (h.0 e), h.1))
          (λ unnamed. (
            λ e. at_once (ground arith) _ (Fresh-Gone s f t.name t.init_name false, refl),
            λ e. cc,
          )))
  where
    k : Counts
    k = counts s

    at_once : looked_up d s ≡ false → (x : Device) → Undone k x → Undone (after_error d s) x
    at_once e x h = subst (λ b. Undone (if b then left_behind d k else k) x) (sym e) h

    later :
        looked_up d s ≡ true
        → (x : Device) → Undone (left_behind d k) x
        → Undone (after_error d s) x
    later e x h = subst (λ b. Undone (if b then left_behind d k else k) x) (sym e) h

    t : Device
    t = set_names d (record s { refs = suc s.refs; has_private = true })

    ready : Fresh t
    ready = record {
      links = f.links;
      attrs = f.attrs;
      bus = f.bus;
      child_listed = f.child_listed;
      class_listed = f.class_listed;
      in_sysfs = f.in_sysfs;
      place = f.place;
    }
