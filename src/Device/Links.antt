-- ===== src/Device/Links.antt =====
-- The single files and links of a device in device.c.
use open_device.Base.{ℕ, ◌+◌, true, false, if◌then◌else◌, ℤ, ok, is_nonzero}
use open_device.Device.State.{Desc, Links, Tried}

module _ (answer : ℕ → ℤ) where
  -- A call that creates one file or link; `set` writes what it makes.
  abbrev pub create : {S : Type 0} → (S → S) → S → ℕ → Tried S
  create set s a = if is_nonzero (answer a) then (answer a, s, a + 1) else (ok, set s, a + 1)

  unfoldable pub create_sys_dev_entry : Desc → Links → ℕ → Tried Links
  create_sys_dev_entry d l a =
      if d.has_dev_dir then create (λ k. record k { sys_dev = true }) l a else (ok, l, a)

  -- From the link of the class directory on. Its two outcomes end alike, in the two removals.
  unfoldable pub link_class_entry : Links → ℕ → Tried Links
  link_class_entry l a =
      let (e, k, a') = create (λ k. record k { class_entry = true }) l a in
      (e, record k { parent = false; subsystem = false }, a')

  -- From the link to the parent on.
  unfoldable pub link_parent : Desc → Links → ℕ → Tried Links
  link_parent d l a =
      if d.has_parent
      then (let (e, k, a') = create (λ k. record k { parent = true }) l a in
          if is_nonzero e then (e, record k { subsystem = false }, a') else link_class_entry k a')
      else link_class_entry l a

  unfoldable pub add_class_symlinks : Desc → Links → ℕ → Tried Links
  add_class_symlinks d l a =
      if d.has_class
      then (let (e, k, a') = create (λ k. record k { subsystem = true }) l a in
          if is_nonzero e then (e, k, a') else link_parent d k a')
      else (ok, l, a)

unfoldable pub remove_sys_dev_entry : Desc → Links → Links
remove_sys_dev_entry d l = if d.has_dev_dir then record l { sys_dev = false } else l

unfoldable pub remove_class_symlinks : Desc → Links → Links
remove_class_symlinks d l =
    if d.has_class
    then record l {
      parent = (if d.has_parent then false else l.parent);
      subsystem = false;
      class_entry = false;
    }
    else l
