-- ===== src/Driver/Lists.antt =====
-- The lists of deferred devices: what unlinking a device and moving the lists does to them.
use open_device.Base.{
  ℕ, ◌≤◌, ◌≡◌, refl, sym, ap₂, true, false, List, [], ◌∷◌, ◌++◌, arith, ◌==◌, if◌then◌else◌, has,
  length, if_cases,
}
use open_device.Driver.State.{Core}
use open_device.Driver.Deferred.{unlink, is_deferred, deferred_probe_del, next_count}

pub has-unlink :
    (e d : ℕ) (xs : List ℕ) → has e (unlink d xs) ≡ (if e == d then false else has e xs)
has-unlink e d [] = ground arith
has-unlink e d (x ∷ xs) = ground (arith, has-unlink e d xs)

pub unlink-absent : (d : ℕ) (xs : List ℕ) → has d xs ≡ false → unlink d xs ≡ xs
unlink-absent d [] h = refl
unlink-absent d (x ∷ xs) h = ground (arith, unlink-absent d xs)

pub length-unlink : (d : ℕ) (xs : List ℕ) → length (unlink d xs) ≤ length xs
length-unlink d [] = omega arith
length-unlink d (x ∷ xs) = ground (arith, length-unlink d xs)

-- Unlinking is made only for a device that is deferred, and changes nothing for another.
abbrev pub unlinked : ℕ → Core → Core
unlinked d s = record s { pending = unlink d s.pending; active = unlink d s.active }

pub deferred_probe_del_lem : (d : ℕ) (s : Core) → deferred_probe_del d s ≡ unlinked d s
unfolding deferred_probe_del
deferred_probe_del_lem d s =
    if_cases (λ t. t ≡ unlinked d s) (is_deferred d s) (λ h. refl)
      (λ h. sym (
        ap₂ {C = Core} (λ x y. record s { pending = x; active = y })
          (unlink-absent d s.pending (ground arith)) (unlink-absent d s.active (ground arith))))

abbrev pub spliced : Core → Core
spliced s = record s {
  triggers = next_count s.triggers;
  active = s.active ++ s.pending;
  pending = [];
  work_queued = true;
}
