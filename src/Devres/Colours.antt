-- ===== src/Devres/Colours.antt =====
-- The second pass of `demo_remove_nodes` over a well-marked list.
use mathlib.Core.List.{append_assoc, append-nil, map, map-append}
use open_device.Base.{
  ℕ, ◌≡◌, refl, sym, ap, ◌∙◌, Option, some, true, false, ◌||◌, List, [], ◌∷◌, ◌++◌, arith,
  Bool-cases, inl, inr, has, has-append,
}
use open_device.Devres.Nodes.{
  Node, res, group_open, group_close, close_linked, open_linked, set_colour, drop_group, Scan,
  colour_round, second_pass,
}
use open_device.Devres.Markers.{
  mentions, without, IsMarked, opened, close_linked-opened, open_linked-opened,
  drop_group-unmentioned, drop_group-opened, without-absent, has-without,
}

-- The second pass under the cursor: the groups `os` are open with colour 1, those still to be opened
-- have colour 0.
pub record Ready (os : List ℕ) (ns : List Node) (s : Scan) : Type 0 where
  pub linked : s.linked ≡ opened os ns
  pub ones : (g : ℕ) → has g os ≡ true → s.colour g ≡ 1
  pub zeros : (g : ℕ) → open_linked g ns ≡ true → s.colour g ≡ 0

-- The scan after a round that colours a group, and after one that removes it.
abbrev pub coloured : Scan → ℕ → ℕ → Scan
coloured s g c = record s { colour = set_colour s.colour g c }

abbrev pub dropped : Scan → ℕ → Scan
dropped s g = record {
  linked = drop_group g s.linked;
  todo = s.todo ++ group_open g ∷ [];
  colour = set_colour s.colour g 2;
}

module _ (s : Scan) (g : ℕ) (here : open_linked g s.linked ≡ true) where
  colour_round-open :
      close_linked g s.linked ≡ true
      → s.colour g ≡ 0
      → colour_round s (group_open g) ≡ some (coloured s g 1)
  unfolding colour_round
  colour_round-open c z = rw (here, c, z)

  colour_round-open_only :
      close_linked g s.linked ≡ false
      → s.colour g ≡ 0
      → colour_round s (group_open g) ≡ some (dropped s g)
  unfolding colour_round
  colour_round-open_only c z = rw (here, c, z)

  colour_round-close :
      close_linked g s.linked ≡ true
      → s.colour g ≡ 1
      → colour_round s (group_close g) ≡ some (dropped s g)
  unfolding colour_round
  colour_round-close c z = rw (here, c, z)

pub drop-opened :
    (g : ℕ) (os : List ℕ) (n : Node) (ns : List Node)
    → (drop_group g (n ∷ ns) ≡ drop_group g ns)
    → mentions g ns ≡ false
    → drop_group g (opened os (n ∷ ns)) ≡ opened (without g os) ns
drop-opened g os n ns head none_left =
    drop_group-opened g os (n ∷ ns)
    ∙ ap (opened (without g os)) (head ∙ drop_group-unmentioned g ns none_left)

module _ (os : List ℕ) (g : ℕ) (ns : List Node) (s : Scan) where
  Ready-open :
      Ready os (group_open g ∷ ns) s
      → open_linked g ns ≡ false
      → Ready (os ++ g ∷ []) ns (coloured s g 1)
  Ready-open r once = record {
    linked =
        r.linked
        ∙ sym (
            ap (λ x. x ++ ns) (map-append group_open os (g ∷ []))
            ∙ append_assoc (map group_open os) (group_open g ∷ []) ns);
    ones = λ h m. ground (arith, has-append h os (g ∷ []), r.ones h);
    zeros = λ h m. ground (arith, r.zeros h);
  }

  Ready-open_only :
      Ready os (group_open g ∷ ns) s
      → has g os ≡ false
      → mentions g ns ≡ false
      → Ready os ns (dropped s g)
  Ready-open_only r new once = record {
    linked =
        ap (drop_group g) r.linked
        ∙ drop-opened g os (group_open g) ns (ground arith) once
        ∙ ap (λ x. opened x ns) (without-absent g os new);
    ones = λ h m. ground (arith, r.ones h);
    zeros = λ h m. ground (arith, r.zeros h);
  }

  Ready-close :
      Ready os (group_close g ∷ ns) s
      → mentions g ns ≡ false
      → Ready (without g os) ns (dropped s g)
  Ready-close r once = record {
    linked = ap (drop_group g) r.linked ∙ drop-opened g os (group_close g) ns (ground arith) once;
    ones = λ h m. ground (arith, has-without h g os, r.ones h);
    zeros = λ h m. ground (arith, r.zeros h);
  }

-- What the second pass leaves, from a scan with `todo` and the open groups `os`.
abbrev pub Cleared : List ℕ → List Node → List Node → Option Scan → Type 0
Cleared os ns todo o =
    (t : Scan) × (gs : List ℕ) × (o ≡ some t)
    × (t.linked ≡ [])
    × (t.todo ≡ todo ++ map group_open gs)
    × ((h : ℕ) → has h gs ≡ (has h os || open_linked h ns))

pub second_pass-step :
    (s t : Scan) (n : Node) (ns : List Node)
    → colour_round s n ≡ some t
    → second_pass s (n ∷ ns) ≡ second_pass t ns
unfolding second_pass
second_pass-step s t n ns h = rw (h, second_pass)

pub second_pass-Cleared :
    (os : List ℕ) (ns : List Node) (s : Scan)
    → Ready os ns s
    → IsMarked os ns
    → Cleared os ns s.todo (second_pass s ns)
unfolding second_pass
second_pass-Cleared os [] s r w =
    (s, [], refl, r.linked ∙ ap (λ x. opened x []) w, sym (append-nil s.todo), λ h. ground arith)
second_pass-Cleared os (res k ∷ ns) s r w = absurd w
second_pass-Cleared os (group_open g ∷ ns) s r (new, once, w) =
    let here : open_linked g s.linked ≡ true =
      rw (r.linked, open_linked-opened g os (group_open g ∷ ns)) (ground arith) in
    let closes : close_linked g s.linked ≡ close_linked g ns =
      rw (r.linked, close_linked-opened g os (group_open g ∷ ns)) in
    let zero_at : s.colour g ≡ 0 = r.zeros g (ground arith) in
    elim (Bool-cases (close_linked g ns)) [
      | inl later ↦
          let (t, gs, e, l, td, m) =
            second_pass-Cleared (os ++ g ∷ []) ns (coloured s g 1) (Ready-open os g ns s r once)
              (rw later at w) in
          let step = colour_round-open s g here (closes ∙ later) zero_at in
          (
            t,
            gs,
            second_pass-step _ _ (group_open g) ns step ∙ e,
            l,
            td,
            λ h. ground (arith, m h, has-append h os (g ∷ [])),
          )
      | inr never ↦
          let (t, gs, e, l, td, m) =
            second_pass-Cleared os ns (dropped s g) (Ready-open_only os g ns s r new (ground arith))
              (rw never at w) in
          let step = colour_round-open_only s g here (closes ∙ never) zero_at in
          (
            t,
            g ∷ gs,
            second_pass-step _ _ (group_open g) ns step ∙ e,
            l,
            td ∙ append_assoc s.todo (group_open g ∷ []) (map group_open gs),
            λ h. ground (arith, m h),
          )
    ]
second_pass-Cleared os (group_close g ∷ ns) s r (in_os, once, w) =
    let here : open_linked g s.linked ≡ true =
      rw (r.linked, open_linked-opened g os (group_close g ∷ ns)) (ground arith) in
    let closes : close_linked g s.linked ≡ true =
      rw (r.linked, close_linked-opened g os (group_close g ∷ ns)) (ground arith) in
    let (t, gs, e, l, td, m) =
      second_pass-Cleared (without g os) ns (dropped s g) (Ready-close os g ns s r once) w in
    let step = colour_round-close s g here closes (r.ones g in_os) in
    (
      t,
      g ∷ gs,
      second_pass-step _ _ (group_close g) ns step ∙ e,
      l,
      td ∙ append_assoc s.todo (group_open g ∷ []) (map group_open gs),
      λ h. ground (arith, m h, has-without h g os),
    )

pub second_pass-start :
    (ns : List Node) (s : Scan)
    → IsMarked [] ns
    → s.linked ≡ ns
    → ((g : ℕ) → s.colour g ≡ 0)
    → Cleared [] ns s.todo (second_pass s ns)
second_pass-start ns s w l z =
    second_pass-Cleared [] ns s (record { linked = l; ones = λ g h. cc; zeros = λ g h. z g }) w
