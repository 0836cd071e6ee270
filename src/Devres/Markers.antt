-- ===== src/Devres/Markers.antt =====
-- Well-marked node lists of devres.c, and what unlinking a group does to one.
use mathlib.Core.List.{append_assoc, append-nil, map}
use open_device.Base.{
  ℕ, suc, ◌≡◌, refl, sym, ap, ◌∙◌, Bool, true, false, ◌||◌, List, [], ◌∷◌, ◌++◌, arith, ◌==◌,
  if◌then◌else◌, length, has,
}
use open_device.Devres.Nodes.{
  Node, res, group_open, group_close, close_linked, open_linked, first_pass, drop_group,
}

-- The resources and the markers of a list, each in order.
abbrev pub resources : List Node → List Node
resources [] = []
resources (res r ∷ ns) = res r ∷ resources ns
resources (_ ∷ ns) = resources ns

abbrev pub markers : List Node → List Node
markers [] = []
markers (res r ∷ ns) = markers ns
markers (n ∷ ns) = n ∷ markers ns

abbrev pub mentions : ℕ → List Node → Bool
mentions g ns = open_linked g ns || close_linked g ns

abbrev pub without : ℕ → List ℕ → List ℕ
without g [] = []
without g (h ∷ hs) = if h == g then without g hs else h ∷ without g hs

-- Markers `ns` behind open groups `os`: a group is opened once; a closing marker stands behind its
-- opening one, once; a group that has both is open in between.
abbrev pub IsMarked : List ℕ → List Node → Type 0
IsMarked os [] = os ≡ []
IsMarked os (res r ∷ ns) = ⊥
IsMarked os (group_open g ∷ ns) =
    (has g os ≡ false)
    × (open_linked g ns ≡ false)
    × IsMarked (if close_linked g ns then os ++ g ∷ [] else os) ns
IsMarked os (group_close g ∷ ns) =
    (has g os ≡ true) × (mentions g ns ≡ false) × IsMarked (without g os) ns

pub first_pass-split :
    (todo ns : List Node)
    → ((first_pass todo ns).kept ≡ markers ns)
      × ((first_pass todo ns).todo ≡ todo ++ resources ns)
      × ((first_pass todo ns).cnt ≡ length (resources ns))
      × ((first_pass todo ns).nr_groups ≡ length (markers ns))
unfolding first_pass
first_pass-split todo [] = (refl, sym (append-nil todo), refl, refl)
first_pass-split todo (res r ∷ ns) =
    let (k, t, c, n) = first_pass-split (todo ++ res r ∷ []) ns in
    (k, t ∙ append_assoc todo (res r ∷ []) (resources ns), ap suc c, n)
first_pass-split todo (group_open g ∷ ns) =
    let (k, t, c, n) = first_pass-split todo ns in (ap (λ x. group_open g ∷ x) k, t, c, ap suc n)
first_pass-split todo (group_close g ∷ ns) =
    let (k, t, c, n) = first_pass-split todo ns in (ap (λ x. group_close g ∷ x) k, t, c, ap suc n)

abbrev pub opened : List ℕ → List Node → List Node
opened os ns = map group_open os ++ ns

pub close_linked-opened :
    (g : ℕ) (os : List ℕ) (ns : List Node) → close_linked g (opened os ns) ≡ close_linked g ns
close_linked-opened g [] ns = refl
close_linked-opened g (h ∷ os) ns = close_linked-opened g os ns

pub open_linked-opened :
    (g : ℕ) (os : List ℕ) (ns : List Node)
    → open_linked g (opened os ns) ≡ (has g os || open_linked g ns)
open_linked-opened g [] ns = refl
open_linked-opened g (h ∷ os) ns = ground (arith, open_linked-opened g os ns)

pub drop_group-unmentioned : (g : ℕ) (ns : List Node) → mentions g ns ≡ false → drop_group g ns ≡ ns
drop_group-unmentioned g [] h = refl
drop_group-unmentioned g (res r ∷ ns) h = ap (λ x. res r ∷ x) (drop_group-unmentioned g ns h)
drop_group-unmentioned g (group_open k ∷ ns) h = ground (arith, drop_group-unmentioned g ns)
drop_group-unmentioned g (group_close k ∷ ns) h = ground (arith, drop_group-unmentioned g ns)

pub drop_group-opened :
    (g : ℕ) (os : List ℕ) (ns : List Node)
    → drop_group g (opened os ns) ≡ opened (without g os) (drop_group g ns)
drop_group-opened g [] ns = refl
drop_group-opened g (h ∷ os) ns = ground (arith, drop_group-opened g os ns)

pub without-absent : (g : ℕ) (os : List ℕ) → has g os ≡ false → without g os ≡ os
without-absent g [] h = refl
without-absent g (k ∷ os) h = ground (arith, without-absent g os)

pub has-without :
    (h g : ℕ) (os : List ℕ) → has h (without g os) ≡ (if h == g then false else has h os)
has-without h g [] = ground arith
has-without h g (k ∷ os) = ground (arith, has-without h g os)
