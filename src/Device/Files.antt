-- ===== src/Device/Files.antt =====
-- The attribute files of a device and what sysfs and the uevents ask of it: `demo_show_uevent` and its
-- neighbours in device.c. Functions of other code are given by their answers.
use open_device.Base.{
  ℕ, suc, ◌≡◌, Option, none, some, is_some, Bool, true, false, not, ◌||◌, List, [], ◌∷◌, ◌++◌,
  if◌then◌else◌, ℤ, pos, ok, eio, enomem, is_nonzero, Option-cases, inl, inr, arith,
}

-- `struct kset_uevent_ops`: what the filter says of the device, and what the `uevent` function returns
-- with the variables that it adds, each a text.
pub record UeventOps : Type 0 where
  pub filter : Option Bool
  pub uevent : Option (ℤ × List (List ℕ))

pub record Kset : Type 0 where
  pub uevent_ops : Option UeventOps

-- The kset of a kobject or of the first one above it that has one; the list is that of the parents.
abbrev pub top_kset : Option Kset → List (Option Kset) → Option Kset
top_kset (some k) ps = some k
top_kset none [] = none
top_kset none (p ∷ ps) = top_kset p ps

-- A result and the text in the buffer.
abbrev pub Shown : Type 0
Shown = ℤ × List ℕ

-- `sprintf(&buf[count], "%s\n", env->envp[i])` for each variable.
abbrev pub lines_of : List (List ℕ) → List ℕ
lines_of [] = []
lines_of (v ∷ vs) = v ++ 10 ∷ lines_of vs

abbrev pub length_of : List ℕ → ℕ
length_of [] = 0
length_of (c ∷ cs) = suc (length_of cs)

-- From the second label of the tests on; `fits` is the answer of the allocation.
unfoldable pub show_keys : Bool → UeventOps → ℤ × List (List ℕ) → Shown
show_keys fits o (retval, vars) =
    let refused : Bool = elim o.filter [ none ↦ false | some passes ↦ not passes ] in
    if refused
    then (ok, [])
    else if not fits
    then (enomem, [])
    else if is_nonzero retval
    then (ok, [])
    else (pos (length_of (lines_of vars)), lines_of vars)

-- The tests of the functions of the kset, the second of which is
-- `kset->uevent_ops || !kset->uevent_ops->uevent`.
unfoldable pub show_of : Bool → Kset → Shown
show_of fits k = elim k.uevent_ops [
  | none ↦ (ok, [])
  | some o ↦ elim o.uevent [
    | none ↦ (ok, [])
    | some answer ↦
        if is_some k.uevent_ops || not (is_some o.uevent) then (ok, []) else show_keys fits o answer
  ]
]

-- `demo_show_uevent`.
unfoldable pub show_uevent : Bool → Option Kset → List (Option Kset) → Shown
show_uevent fits own parents = elim (top_kset own parents) [
  | none ↦ (ok, [])
  | some k ↦ show_of fits k
]

-- `demo_store_uevent`: the action that the text names, if any, is sent; the result is the count.
unfoldable pub store_uevent : Option ℕ → ℕ → List ℕ → ℤ × List ℕ
store_uevent action count sent = (pos count, elim action [ none ↦ sent | some a ↦ sent ++ a ∷ [] ])

-- `demo_dev_attr_show` and `demo_dev_attr_store`, with the answer of the function of the attribute.
unfoldable pub dev_attr_show : Option ℤ → ℤ
dev_attr_show show = elim show [ none ↦ eio | some ret ↦ ret ]

unfoldable pub dev_attr_store : Option ℤ → ℤ
dev_attr_store store = elim store [ none ↦ eio | some ret ↦ ret ]

-- The names of the bus and the class of a device, where it has them.
pub record Belongs : Type 0 where
  pub bus : Option ℕ
  pub class : Option ℕ

-- `demo_uevent_filter`; `is_device` is whether the kobject is one of a device.
unfoldable pub uevent_filter : Bool → Belongs → ℕ
uevent_filter is_device d =
    if is_device then (if is_some d.bus then 1 else if is_some d.class then 1 else 0) else 0

unfoldable pub uevent_name : Belongs → Option ℕ
uevent_name d = elim d.bus [ some n ↦ some n | none ↦ d.class ]

-- The release functions that a device has, and what `demo_device_release` calls.
pub record Releases : Type 0 where
  pub own : Bool
  pub of_type : Bool
  pub of_class : Bool

pub data ReleaseCall : Type 0 where
  by_own : ReleaseCall
  by_type : ReleaseCall
  by_class : ReleaseCall
  warned : ReleaseCall

-- The call, and whether `dev->p` is freed behind it.
unfoldable pub device_release : Releases → ReleaseCall × Bool
device_release r = (
  if r.own then by_own else if r.of_type then by_type else if r.of_class then by_class else warned,
  true,
)

show_of_silent : (fits : Bool) (k : Kset) → show_of fits k ≡ (ok, [])
unfolding show_of
show_of_silent fits k = elim (Option-cases k.uevent_ops) [
  | inl e ↦ ground arith
  | inr (o, e) ↦ elim (Option-cases o.uevent) [
    | inl f ↦ ground arith
    | inr (answer, f) ↦ ground arith
  ]
]

-- Reading the uevent file of a device gives no text and the result 0, whatever ksets are above it,
-- whatever their functions answer and whether or not memory fits: no variable is ever shown.
pub show_uevent_silent :
    (fits : Bool) (own : Option Kset) (parents : List (Option Kset))
    → show_uevent fits own parents ≡ (ok, [])
unfolding show_uevent
show_uevent_silent fits own parents = elim (Option-cases (top_kset own parents)) [
  | inl e ↦ ground arith
  | inr (k, e) ↦ let g = show_of_silent fits k in ground arith
]
