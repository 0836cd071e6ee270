-- ===== src/Device/Attrs.antt =====
-- The attribute tables of device.c: files made one after the other, taken back on an error.
use open_device.Base.{ℕ, zero, suc, ◌+◌, Bool, true, false, ◌==◌, if◌then◌else◌, ℤ, ok, is_nonzero}
use open_device.Device.State.{Desc, AttrFiles, Tried}

abbrev pub put : Bool → (ℕ → Bool) → ℕ → ℕ → Bool
put b f i j = if j == i then b else f j

-- `while (--i >= 0)`, removing file `i`.
unfoldable pub remove_down : ℕ → (ℕ → Bool) → ℕ → Bool
remove_down zero f = f
remove_down (suc i) f = remove_down i (put false f i)

-- `for (i = 0; …; i++)`, removing file `i`, on the files left.
unfoldable pub remove_up : ℕ → ℕ → (ℕ → Bool) → ℕ → Bool
remove_up zero i f = f
remove_up (suc left) i f = remove_up left (i + 1) (put false f i)

abbrev pub remove_table : ℕ → (ℕ → Bool) → ℕ → Bool
remove_table n f = remove_up n 0 f

-- `attrs`, or no table: the loops are under `if (class)` and `if (type)`.
abbrev pub rows : Bool → ℕ → ℕ
rows true n = n
rows false n = 0

module _ (answer : ℕ → ℤ) where
  -- The creation loop, from file `i` on, and the removal of what it made when one fails.
  unfoldable pub add_loop : ℕ → ℕ → (ℕ → Bool) → ℕ → Tried (ℕ → Bool)
  add_loop zero i f a = (ok, f, a)
  add_loop (suc left) i f a =
      let rest = add_loop left (i + 1) (put true f i) (a + 1) in
      if is_nonzero (answer a) then (answer a, remove_down i f, a + 1) else rest

  unfoldable pub add_table : ℕ → (ℕ → Bool) → ℕ → Tried (ℕ → Bool)
  add_table n f a = add_loop n 0 f a

  -- From the creation of the device's own groups on, with the labels that it jumps to.
  unfoldable pub add_own_groups : Desc → AttrFiles → ℕ → Tried AttrFiles
  add_own_groups d t a =
      let (e, f, a') = add_table d.groups t.groups a in
      if is_nonzero e
      then (
        e,
        record {
          class_attrs = remove_table (rows d.has_class d.class_attrs) t.class_attrs;
          class_bins = remove_table (rows d.has_class d.class_bins) t.class_bins;
          type_groups = remove_table (rows d.has_type d.type_groups) t.type_groups;
          groups = f;
        },
        a',
      )
      else (ok, record t { groups = f }, a')

  -- From `if (type)` on.
  unfoldable pub add_type_groups : Desc → AttrFiles → ℕ → Tried AttrFiles
  add_type_groups d t a =
      let (e, f, a') = add_table (rows d.has_type d.type_groups) t.type_groups a in
      if is_nonzero e
      then (
        e,
        record {
          class_attrs = remove_table (rows d.has_class d.class_attrs) t.class_attrs;
          class_bins = remove_table (rows d.has_class d.class_bins) t.class_bins;
          type_groups = f;
          groups = t.groups;
        },
        a',
      )
      else add_own_groups d (record t { type_groups = f }) a'

  -- From the creation of the class's binary attributes on.
  unfoldable pub add_class_bins : Desc → AttrFiles → ℕ → Tried AttrFiles
  add_class_bins d t a =
      let (e, f, a') = add_table (rows d.has_class d.class_bins) t.class_bins a in
      if is_nonzero e
      then (
        e,
        record {
          class_attrs = remove_table (rows d.has_class d.class_attrs) t.class_attrs;
          class_bins = f;
          type_groups = t.type_groups;
          groups = t.groups;
        },
        a',
      )
      else add_type_groups d (record t { class_bins = f }) a'

  unfoldable pub add_attrs : Desc → AttrFiles → ℕ → Tried AttrFiles
  add_attrs d t a =
      let (e, f, a') = add_table (rows d.has_class d.class_attrs) t.class_attrs a in
      if is_nonzero e
      then (e, record t { class_attrs = f }, a')
      else add_class_bins d (record t { class_attrs = f }) a'

unfoldable pub remove_attrs : Desc → AttrFiles → AttrFiles
remove_attrs d t = record {
  groups = remove_table d.groups t.groups;
  type_groups = remove_table (rows d.has_type d.type_groups) t.type_groups;
  class_attrs = remove_table (rows d.has_class d.class_attrs) t.class_attrs;
  class_bins = remove_table (rows d.has_class d.class_bins) t.class_bins;
}
