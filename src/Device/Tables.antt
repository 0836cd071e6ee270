-- ===== src/Device/Tables.antt =====
-- The attribute tables of device.c are made whole or not at all, and removed whole.
use open_device.Base.{
  ℕ, zero, suc, ◌+◌, ◌≡◌, Bool, true, false, ◌&&◌, arith, ltb, leb, if◌then◌else◌, Bool-cases, inl,
  inr, ℤ, is_nonzero,
}
use open_device.Device.State.{Desc, AttrFiles, Tried}
use open_device.Device.Attrs.{
  put, remove_down, remove_up, remove_table, rows, add_loop, add_table, add_own_groups,
  add_type_groups, add_class_bins, add_attrs, remove_attrs,
}

-- The files 0 to n - 1 of a table are there, and no other.
abbrev pub Holds : ℕ → (ℕ → Bool) → Type 0
Holds n f = (j : ℕ) → f j ≡ ltb j n

-- `P` after an error, `Q` after success.
abbrev pub Settled : ℤ → Type 0 → Type 0 → Type 0
Settled e P Q = (is_nonzero e ≡ true → P) × (is_nonzero e ≡ false → Q)

remove_down-at :
    (n : ℕ) (f : ℕ → Bool) (j : ℕ) → remove_down n f j ≡ (if ltb j n then false else f j)
unfolding remove_down
remove_down-at zero f j = ground arith
remove_down-at (suc n) f j = ground (arith, remove_down-at n (put false f n) j)

remove_up-at :
    (left i : ℕ) (f : ℕ → Bool) (j : ℕ)
    → remove_up left i f j ≡ (if leb i j && ltb j (i + left) then false else f j)
unfolding remove_up
remove_up-at zero i f j = ground arith
remove_up-at (suc left) i f j = ground (arith, remove_up-at left (i + 1) (put false f i) j)

pub remove_table-Holds : (n : ℕ) (f : ℕ → Bool) → Holds n f → Holds 0 (remove_table n f)
remove_table-Holds n f h j = ground (arith, remove_up-at n 0 f j, h j)

pub remove_table-empty : (n : ℕ) (f : ℕ → Bool) → Holds 0 f → Holds 0 (remove_table n f)
remove_table-empty n f h j = ground (arith, remove_up-at n 0 f j, h j)

module _ (answer : ℕ → ℤ) where
  add_loop-Settled :
      (left i : ℕ) (f : ℕ → Bool) (a : ℕ)
      → Holds i f
      → let (e, g, _) = add_loop answer left i f a in Settled e (Holds 0 g) (Holds (i + left) g)
  unfolding add_loop
  add_loop-Settled zero i f a h = (λ e. cc, λ e j. ground (arith, h j))
  add_loop-Settled (suc left) i f a h = elim (Bool-cases (is_nonzero (answer a))) [
    | inl bad ↦ rw bad (λ e j. ground (arith, remove_down-at i f j, h j), λ e. cc)
    | inr good ↦
        let (none_left, all) =
          add_loop-Settled left (i + 1) (put true f i) (a + 1) (λ j. ground (arith, h j)) in
        rw good (none_left, λ e j. ground (arith, all e j))
  ]

  pub add_table-Settled :
      (n : ℕ) (f : ℕ → Bool) (a : ℕ)
      → Holds 0 f
      → let (e, g, _) = add_table answer n f a in Settled e (Holds 0 g) (Holds n g)
  unfolding add_table
  add_table-Settled n f a h =
      let (none_left, all) = add_loop-Settled n 0 f a h in
      (none_left, λ e j. ground (arith, all e j))

-- The four tables with so many files each.
pub record AttrsHold (c b t g : ℕ) (x : AttrFiles) : Type 0 where
  pub class_attrs : Holds c x.class_attrs
  pub class_bins : Holds b x.class_bins
  pub type_groups : Holds t x.type_groups
  pub groups : Holds g x.groups

abbrev pub NoAttrs : AttrFiles → Type 0
NoAttrs = AttrsHold 0 0 0 0

-- All the tables that the class, the type and the device name.
abbrev pub AllAttrs : Desc → AttrFiles → Type 0
AllAttrs d =
    AttrsHold (rows d.has_class d.class_attrs) (rows d.has_class d.class_bins)
      (rows d.has_type d.type_groups) d.groups

module _ (answer : ℕ → ℤ) (d : Desc) where
  abbrev Done : Tried AttrFiles → Type 0
  Done (e, x, _) = Settled e (NoAttrs x) (AllAttrs d x)

  add_own_groups-Done :
      (x : AttrFiles) (a : ℕ)
      → AttrsHold
          (rows d.has_class d.class_attrs)
          (rows d.has_class d.class_bins)
          (rows d.has_type d.type_groups)
          0
          x
      → Done (add_own_groups answer d x a)
  unfolding add_own_groups
  add_own_groups-Done x a h =
      let (undone, made) = add_table-Settled answer d.groups x.groups a h.groups in
      elim (Bool-cases (is_nonzero (add_table answer d.groups x.groups a).0)) [
        | inl bad ↦ rw bad (
          λ e. record {
            class_attrs = remove_table-Holds _ _ h.class_attrs;
            class_bins = remove_table-Holds _ _ h.class_bins;
            type_groups = remove_table-Holds _ _ h.type_groups;
            groups = undone bad;
          },
          λ e. absurd (cc),
        )
        | inr good ↦ rw good (
          λ e. absurd (cc),
          λ e. record {
            class_attrs = h.class_attrs;
            class_bins = h.class_bins;
            type_groups = h.type_groups;
            groups = made good;
          },
        )
      ]

  add_type_groups-Done :
      (x : AttrFiles) (a : ℕ)
      → AttrsHold (rows d.has_class d.class_attrs) (rows d.has_class d.class_bins) 0 0 x
      → Done (add_type_groups answer d x a)
  unfolding add_type_groups
  add_type_groups-Done x a h =
      let n = rows d.has_type d.type_groups in
      let (undone, made) = add_table-Settled answer n x.type_groups a h.type_groups in
      let o = add_table answer n x.type_groups a in
      elim (Bool-cases (is_nonzero o.0)) [
        | inl bad ↦ rw bad (
          λ e. record {
            class_attrs = remove_table-Holds _ _ h.class_attrs;
            class_bins = remove_table-Holds _ _ h.class_bins;
            type_groups = undone bad;
            groups = h.groups;
          },
          λ e. absurd (cc),
        )
        | inr good ↦ rw good (
            add_own_groups-Done (record x { type_groups = o.1 }) o.2
              (record {
                class_attrs = h.class_attrs;
                class_bins = h.class_bins;
                type_groups = made good;
                groups = h.groups;
              }))
      ]

  add_class_bins-Done :
      (x : AttrFiles) (a : ℕ)
      → AttrsHold (rows d.has_class d.class_attrs) 0 0 0 x
      → Done (add_class_bins answer d x a)
  unfolding add_class_bins
  add_class_bins-Done x a h =
      let n = rows d.has_class d.class_bins in
      let (undone, made) = add_table-Settled answer n x.class_bins a h.class_bins in
      let o = add_table answer n x.class_bins a in
      elim (Bool-cases (is_nonzero o.0)) [
        | inl bad ↦ rw bad (
          λ e. record {
            class_attrs = remove_table-Holds _ _ h.class_attrs;
            class_bins = undone bad;
            type_groups = h.type_groups;
            groups = h.groups;
          },
          λ e. absurd (cc),
        )
        | inr good ↦ rw good (
            add_type_groups-Done (record x { class_bins = o.1 }) o.2
              (record {
                class_attrs = h.class_attrs;
                class_bins = made good;
                type_groups = h.type_groups;
                groups = h.groups;
              }))
      ]

  -- From no attribute file, `demo_device_add_attrs` makes all tables on success and none on an error.
  pub add_attrs-Done : (x : AttrFiles) (a : ℕ) → NoAttrs x → Done (add_attrs answer d x a)
  unfolding add_attrs
  add_attrs-Done x a h =
      let n = rows d.has_class d.class_attrs in
      let (undone, made) = add_table-Settled answer n x.class_attrs a h.class_attrs in
      let o = add_table answer n x.class_attrs a in
      elim (Bool-cases (is_nonzero o.0)) [
        | inl bad ↦ rw bad (
          λ e. record {
            class_attrs = undone bad;
            class_bins = h.class_bins;
            type_groups = h.type_groups;
            groups = h.groups;
          },
          λ e. absurd (cc),
        )
        | inr good ↦ rw good (
            add_class_bins-Done (record x { class_attrs = o.1 }) o.2
              (record {
                class_attrs = made good;
                class_bins = h.class_bins;
                type_groups = h.type_groups;
                groups = h.groups;
              }))
      ]

pub remove_attrs-NoAttrs : (d : Desc) (x : AttrFiles) → AllAttrs d x → NoAttrs (remove_attrs d x)
unfolding remove_attrs
remove_attrs-NoAttrs d x h = record {
  class_attrs = remove_table-Holds _ _ h.class_attrs;
  class_bins = remove_table-Holds _ _ h.class_bins;
  type_groups = remove_table-Holds _ _ h.type_groups;
  groups = remove_table-Holds _ _ h.groups;
}
