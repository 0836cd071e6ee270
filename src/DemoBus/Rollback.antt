-- ===== src/DemoBus/Rollback.antt =====
-- A device whose addition to the demonstration bus fails holds no resource of it.
use open_device.Base.{ℕ, ◌≡◌, none, some, Bool, false, List, [], ◌∷◌}
use open_device.DemoBus.State.{Resource, is_released}
use open_device.DemoBus.Claim.{Kernel, Claimed, claim_parent, release_resources}

module _ (k : Kernel) (adopts : ℕ → ℕ → k.Tree → Bool) where
  open k use {Tree, parent, insert, release}

  -- A resource that is not in memory or in port space has no parent, so it is never claimed.
  abbrev pub IsPlain : List Resource → Type 0
  IsPlain [] = Unit
  IsPlain (r ∷ rs) = ((t : Tree) → is_released r ≡ false → parent r.addr t ≡ none) × IsPlain rs

  -- No claim of the loop adopts a resource that is there.
  abbrev pub AdoptsNone : List Resource → Tree → Type 0
  AdoptsNone [] t = Unit
  AdoptsNone (r ∷ rs) t =
      (claim_parent k r t ≡ none → AdoptsNone rs t)
      × ((p : ℕ)
          → claim_parent k r t ≡ some p
          → (adopts p r.addr t ≡ false) × AdoptsNone rs (insert p r.addr t).1)

  abbrev Unclaimed : Claimed Tree → Tree → Type 0
  Unclaimed c t0 = release_resources k c.passed c.tree ≡ t0
