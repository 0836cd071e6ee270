-- ===== src/Devres/Nodes.antt =====
-- The node list of a device and the two passes over it, from devres.c. A node is a resource or one
-- of the two markers of a group; which it is the code reads from the release function.
use open_device.Base.{
  ℕ, suc, ◌+◌, Option, none, some, Bool, false, not, ◌||◌, List, [], ◌∷◌, ◌++◌, reverse, ◌==◌, leb,
  if◌then◌else◌, ℤ, pos, enodev,
}

pub data Node : Type 0 where
  res : ℕ → Node
  group_open : ℕ → Node
  group_close : ℕ → Node

-- The group that a marker belongs to.
unfoldable pub node_to_group : Node → Option ℕ
node_to_group (res r) = none
node_to_group (group_open g) = some g
node_to_group (group_close g) = some g

-- `!list_empty(&grp->node[1].entry)`: the closing marker is linked into some list.
abbrev pub close_linked : ℕ → List Node → Bool
close_linked g [] = false
close_linked g (group_close h ∷ ns) = (g == h) || close_linked g ns
close_linked g (_ ∷ ns) = close_linked g ns

-- What the passes build: the nodes that stay linked, those moved to `todo`, the number of resources
-- moved and of group markers met.
pub record Pass : Type 0 where
  pub kept : List Node
  pub todo : List Node
  pub cnt : ℕ
  pub nr_groups : ℕ

-- The first pass: a resource moves to the end of `todo`, a marker stays. (Its colour is cleared; the
-- second pass starts from colour 0.)
unfoldable pub first_pass : List Node → List Node → Pass
first_pass todo [] = record { kept = []; todo = todo; cnt = 0; nr_groups = 0 }
first_pass todo (res r ∷ ns) =
    let p = first_pass (todo ++ res r ∷ []) ns in record p { cnt = suc p.cnt }
first_pass todo (n ∷ ns) =
    let p = first_pass todo ns in record p { kept = n ∷ p.kept; nr_groups = suc p.nr_groups }

abbrev pub open_linked : ℕ → List Node → Bool
open_linked g [] = false
open_linked g (group_open h ∷ ns) = (g == h) || open_linked g ns
open_linked g (_ ∷ ns) = open_linked g ns

abbrev pub set_colour : (ℕ → ℕ) → ℕ → ℕ → ℕ → ℕ
set_colour c g v h = if h == g then v else c h

-- `list_del` of the markers of a group that has colour 2. The opening one goes to `todo`.
abbrev pub drop_group : ℕ → List Node → List Node
drop_group g [] = []
drop_group g (group_open h ∷ ns) =
    if h == g then drop_group g ns else group_open h ∷ drop_group g ns
drop_group g (group_close h ∷ ns) =
    if h == g then drop_group g ns else group_close h ∷ drop_group g ns
drop_group g (res r ∷ ns) = res r ∷ drop_group g ns

-- The state of the second pass: every node that is linked, the nodes moved, the colours.
pub record Scan : Type 0 where
  pub linked : List Node
  pub todo : List Node
  pub colour : ℕ → ℕ

-- The new colour of the group of the marker under the cursor.
unfoldable pub next_colour : Scan → ℕ → ℕ
next_colour s g = let c = s.colour g + 1 in if close_linked g s.linked then c else c + 1

-- One round of the second pass; `none` is `BUG_ON`: a node of no group, a group whose opening marker
-- is in no list, or a colour above 2.
unfoldable pub colour_round : Scan → Node → Option Scan
unfolding node_to_group next_colour
colour_round s n = elim (node_to_group n) [
  | none ↦ none
  | some g ↦
      let c = next_colour s g in
      if not (open_linked g s.linked || open_linked g s.todo) || leb 3 c
      then none
      else if c == 2
      then some (record {
        linked = drop_group g s.linked;
        todo = s.todo ++ group_open g ∷ [];
        colour = set_colour s.colour g c;
      })
      else some (record s { colour = set_colour s.colour g c })
]

-- The cursor runs over the markers that the first pass left.
unfoldable pub second_pass : Scan → List Node → Option Scan
second_pass s [] = some s
second_pass s (n ∷ ns) = elim (colour_round s n) [ none ↦ none | some t ↦ second_pass t ns ]

-- `demo_remove_nodes` over the whole list of a device: the nodes still linked, `todo`, the count.
pub record Removed : Type 0 where
  pub linked : List Node
  pub todo : List Node
  pub cnt : ℕ

abbrev pub removed_after : ℕ → Option Scan → Option Removed
removed_after n none = none
removed_after n (some s) = some (record { linked = s.linked; todo = s.todo; cnt = n })

unfoldable pub remove_nodes : List Node → Option Removed
unfolding first_pass second_pass colour_round
remove_nodes ns =
    let p = first_pass [] ns in
    if p.nr_groups == 0
    then some (record { linked = p.kept; todo = p.todo; cnt = p.cnt })
    else removed_after p.cnt
        (second_pass (record { linked = p.kept; todo = p.todo; colour = λ g. 0 }) p.kept)

-- What the release leaves: the list, the nodes in the order of their release calls, the result.
pub record Released : Type 0 where
  pub linked : List Node
  pub calls : List Node
  pub ret : ℤ

abbrev pub release_todo : Option Removed → Option Released
release_todo none = none
release_todo (some r) = some (record { linked = r.linked; calls = reverse r.todo; ret = pos r.cnt })

unfoldable pub release_nodes : List Node → Option Released
unfolding remove_nodes
release_nodes ns = release_todo (remove_nodes ns)

-- `none` here is a device whose list head was never initialised.
unfoldable pub devres_release_all : Option (List Node) → Option Released
unfolding release_nodes
devres_release_all none = some (record { linked = []; calls = []; ret = enodev })
devres_release_all (some ns) = release_nodes ns
