-- ===== src/Devres/Release.antt =====
-- The release of a well-marked node list of devres.c is complete and in reverse order.
use mathlib.Core.List.{append-nil, map, map-append, reverse-append, reverse-reverse}
use open_device.Base.{
  ℕ, suc, ◌≡◌, refl, sym, ap, ap₂, ◌∙◌, Option, some, false, List, [], ◌∷◌, ◌++◌, reverse, arith,
  ◌==◌, if◌then◌else◌, length, has, pos,
}
use open_device.Devres.Nodes.{
  Node, group_open, open_linked, Scan, second_pass, Removed, remove_nodes, devres_release_all,
  removed_after, release_todo,
}
use open_device.Devres.Markers.{resources, markers, IsMarked, first_pass-split}
use open_device.Devres.Colours.{second_pass-start}

-- What `demo_remove_nodes` builds from the list that the first pass leaves.
abbrev Emptied : List Node → List Node → Option Removed → Type 0
Emptied ms rs o =
    (gs : List ℕ) × (o
      ≡ some (record { linked = []; todo = rs ++ map group_open gs; cnt = length rs }))
    × ((h : ℕ) → has h gs ≡ open_linked h ms)

test_nonempty : (n : ℕ) → (suc n == 0) ≡ false
test_nonempty n = ground arith

after_first-Emptied :
    (ms rs : List Node)
    → IsMarked [] ms
    → Emptied ms rs (
        if length ms == 0
        then some (record { linked = ms; todo = rs; cnt = length rs })
        else removed_after
            (length rs)
            (second_pass (record { linked = ms; todo = rs; colour = λ g. 0 }) ms))
after_first-Emptied [] rs w = (
  [],
  ap (λ x. some (record { linked = []; todo = x; cnt = length rs })) (sym (append-nil rs)),
  λ h. refl,
)
after_first-Emptied (m ∷ ms) rs w =
    let start : Scan = record { linked = m ∷ ms; todo = rs; colour = λ g. 0 } in
    let (t, gs, e, l, td, has_gs) = second_pass-start (m ∷ ms) start w refl (λ g. refl) in
    rw (test_nonempty (length ms)) (
      gs,
      ap (removed_after (length rs)) e
          ∙ ap₂ (λ x y. some (record { linked = x; todo = y; cnt = length rs })) l td,
      has_gs,
    )

remove_nodes-Emptied :
    (ns : List Node)
    → IsMarked [] (markers ns)
    → Emptied (markers ns) (resources ns) (remove_nodes ns)
unfolding remove_nodes
remove_nodes-Emptied ns w =
    let (k, t, c, n) = first_pass-split [] ns in
    rw (k, t, c, n) (after_first-Emptied (markers ns) (resources ns) w)

reverse-groups : (gs : List ℕ) → reverse (map group_open gs) ≡ map group_open (reverse gs)
reverse-groups [] = refl
reverse-groups (g ∷ gs) =
    reverse-append (group_open g ∷ []) (map group_open gs)
    ∙ ap (λ x. x ++ group_open g ∷ []) (reverse-groups gs)
    ∙ sym (
        ap (map group_open) (reverse-append (g ∷ []) gs)
        ∙ map-append group_open (reverse gs) (g ∷ []))

-- For a device whose list is well marked (each group opened once; closed, if at all, once and
-- later), the release never stops at a `BUG_ON` and empties the list. It calls the release function
-- of every resource once, the last added first, behind those of the group markers, one for each
-- group that was opened, and returns the number of resources.
pub devres_release_all-reverse :
    (ns : List Node)
    → IsMarked [] (markers ns)
    → (gs : List ℕ) × (devres_release_all (some ns)
        ≡ some (record {
          linked = [];
          calls = map group_open gs ++ reverse (resources ns);
          ret = pos (length (resources ns));
        }))
      × ((h : ℕ) → has h (reverse gs) ≡ open_linked h (markers ns))
unfolding devres_release_all
devres_release_all-reverse ns w =
    let (gs, e, m) = remove_nodes-Emptied ns w in
    (
      reverse gs,
      ap release_todo e
          ∙ ap (λ x. some (record { linked = []; calls = x; ret = pos (length (resources ns)) }))
              (reverse-append (resources ns) (map group_open gs)
                ∙ ap (λ x. x ++ reverse (resources ns)) (reverse-groups gs)),
      λ h. rw (reverse-reverse gs) (m h),
    )
