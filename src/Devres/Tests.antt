-- ===== src/Devres/Tests.antt =====
-- The release of devres.c on a list with a closed group, an open one, and resources around them.
use mathlib.Core.List.{map}
use open_device.Base.{ℕ, ◌≡◌, refl, some, List, [], ◌∷◌, ◌++◌, reverse, length, has, pos}
use open_device.Devres.Nodes.{Node, res, group_open, group_close, open_linked, devres_release_all}
use open_device.Devres.Markers.{resources, markers}
use open_device.Devres.Release.{devres_release_all-reverse}

abbrev nodes : List Node
nodes = res 1 ∷ group_open 7 ∷ res 2 ∷ group_open 8 ∷ res 3 ∷ group_close 7 ∷ res 4 ∷ []

release_calls :
    devres_release_all (some nodes)
    ≡ some (record {
      linked = [];
      calls = group_open 7 ∷ group_open 8 ∷ res 4 ∷ res 3 ∷ res 2 ∷ res 1 ∷ [];
      ret = pos 4;
    })
unfolding devres_release_all
release_calls = refl

devres_release_all-reverse_example :
    (gs : List ℕ) × (devres_release_all (some nodes)
      ≡ some (record {
        linked = [];
        calls = map group_open gs ++ reverse (resources nodes);
        ret = pos (length (resources nodes));
      }))
    × ((h : ℕ) → has h (reverse gs) ≡ open_linked h (markers nodes))
devres_release_all-reverse_example =
    devres_release_all-reverse nodes (refl, refl, (refl, refl, (refl, refl, refl)))
