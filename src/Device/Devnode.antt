-- ===== src/Device/Devnode.antt =====
-- The path of a device's node: what the loop over its name makes of it.
use open_device.Base.{
  ℕ, zero, suc, ◌+◌, ◌≤◌, ◌<◌, ◌≡◌, ◌∙◌, refl, sym, ap, Option, none, some, is_some, false, not,
  ◌||◌, ◌&&◌, List, [], ◌∷◌, ◌==◌, if◌then◌else◌, if_cases, has, length, arith,
}
use open_device.Device.Uevent.{
  Described, Devnode, replace_first, replace_loop, own_name, device_get_devnode, from_call,
}

-- Each '!' a '/'.
abbrev pub slashes : List ℕ → List ℕ
slashes [] = []
slashes (c ∷ cs) = (if c == 33 then 47 else c) ∷ slashes cs

abbrev pub marks : List ℕ → ℕ
marks [] = 0
marks (c ∷ cs) = if c == 33 then suc (marks cs) else marks cs

-- A turn of the loop, if it finds a '!': the rest of the work is the same, and there is one less.
record Turn (s t : List ℕ) : Type 0 where
  same : slashes t ≡ slashes s
  fewer : suc (marks t) ≡ marks s

Turn-at :
    (c : ℕ) (cs t : List ℕ) (m : Option (List ℕ))
    → (let o : Option (List ℕ) =
          if c == 33 then some (47 ∷ cs) else elim m [ none ↦ none | some ds ↦ some (c ∷ ds) ] in
        o ≡ some t)
    → ((ds : List ℕ) → m ≡ some ds → Turn cs ds)
    → Turn (c ∷ cs) t
Turn-at c cs t none h rec = record { same = ground arith; fewer = ground arith }
Turn-at c cs t (some ds) h rec =
    let r : Turn cs ds = rec ds refl in
    record { same = ground (arith, r.same); fewer = ground (arith, r.fewer) }

replace_first-Turn : (s t : List ℕ) → replace_first s ≡ some t → Turn s t
unfolding replace_first
replace_first-Turn [] t h = absurd (cc)
replace_first-Turn (c ∷ cs) t h =
    Turn-at c cs t (replace_first cs) h (λ ds e. replace_first-Turn cs ds e)

replace_first-none : (s : List ℕ) → replace_first s ≡ none → slashes s ≡ s
unfolding replace_first
replace_first-none [] h = refl
replace_first-none (c ∷ cs) h = ground (arith, replace_first-none cs)

loop_turn :
    (fuel : ℕ) (s : List ℕ) (m : Option (List ℕ))
    → replace_first s ≡ m
    → marks s < suc fuel
    → ((t : List ℕ) → marks t < fuel → replace_loop fuel t ≡ some (slashes t))
    → (let o : Option (List ℕ) = elim m [ none ↦ some s | some t ↦ replace_loop fuel t ] in
        o ≡ some (slashes s))
loop_turn fuel s none e h rec = ap some (sym (replace_first-none s e))
loop_turn fuel s (some t) e h rec =
    let r : Turn s t = replace_first-Turn s t e in rec t (omega (arith, r.fewer)) ∙ ap some r.same

replace_loop-slashes :
    (fuel : ℕ) (s : List ℕ) → marks s < fuel → replace_loop fuel s ≡ some (slashes s)
unfolding replace_loop
replace_loop-slashes zero s h = ground arith
replace_loop-slashes (suc fuel) s h =
    loop_turn fuel s (replace_first s) refl h (λ t l. replace_loop-slashes fuel t l)

marks-length : (s : List ℕ) → marks s ≤ length s
marks-length [] = omega arith
marks-length (c ∷ cs) = ground (arith, marks-length cs)

slashes-has : (s : List ℕ) → has 33 s ≡ false → slashes s ≡ s
slashes-has [] h = refl
slashes-has (c ∷ cs) h = ground (arith, slashes-has cs)

-- The path by the device's own name.
pub record OwnNode (d : Described) (n : Devnode) : Type 0 where
  pub name :
      n.name ≡ (if not (has 33 d.dev_name) || d.copy_fits then some (slashes d.dev_name) else none)
  pub tmp : is_some n.tmp ≡ (has 33 d.dev_name && d.copy_fits)

own_name-OwnNode : (d : Described) (mode : ℕ) → OwnNode d (own_name d mode)
unfolding own_name
own_name-OwnNode d mode =
    let l : replace_loop (length d.dev_name + 1) d.dev_name ≡ some (slashes d.dev_name) =
      replace_loop-slashes (length d.dev_name + 1) d.dev_name
        (omega (arith, marks-length d.dev_name)) in
    if_cases (λ n. OwnNode d n) (not (has 33 d.dev_name))
      (λ h. record { name = ground (arith, slashes-has d.dev_name); tmp = ground arith })
      (λ h.
        if_cases (λ n. OwnNode d n) (not d.copy_fits)
          (λ k. record { name = ground arith; tmp = ground arith })
          (λ k. record { name = l ∙ ground arith; tmp = ap is_some l ∙ ground arith }))

-- A device whose type and class give no name has its own name for the path of its node, with each
-- '!' a '/': the loop over it ends. If memory for the copy is short, a name with a '!' gives no path.
-- The pointer to be freed is set just when a copy was made.
pub device_get_devnode-OwnNode :
    (d : Described) (mode : ℕ)
    → (from_call d.type_devnode mode).0 ≡ none
    → (from_call d.class_devnode (from_call d.type_devnode mode).1).0 ≡ none
    → OwnNode d (device_get_devnode d mode)
unfolding device_get_devnode
device_get_devnode-OwnNode d mode h k =
    let mode1 : ℕ = (from_call d.type_devnode mode).1 in
    let mode2 : ℕ = (from_call d.class_devnode mode1).1 in
    if_cases (λ n. OwnNode d n) (is_some (from_call d.type_devnode mode).0) (λ e. absurd (cc))
      (λ _.
        if_cases (λ n. OwnNode d n) (is_some (from_call d.class_devnode mode1).0) (λ e. absurd (cc))
          (λ _. own_name-OwnNode d mode2))
