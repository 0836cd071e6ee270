-- ===== src/Driver/Queue.antt =====
-- The two lists of deferred devices seen as one queue: those to be retried now, then those that wait.
use mathlib.Core.List.{append-nil, append_assoc}
use open_device.Base.{
  ℕ, ◌+◌, ◌≤◌, ◌≡◌, ◌∙◌, refl, sym, ap, Bool, true, false, not, List, [], ◌∷◌, ◌++◌, arith, ◌==◌,
  if◌then◌else◌, has, has-append, if_cases,
}
use open_device.Driver.State.{Core}
use open_device.Driver.Deferred.{
  unlink, is_deferred, deferred_probe_add, deferred_probe_del, deferred_probe_trigger,
}
use open_device.Driver.Lists.{deferred_probe_del_lem}

abbrev pub queue : Core → List ℕ
queue s = s.active ++ s.pending

-- How often a number stands in a list.
abbrev pub times : ℕ → List ℕ → ℕ
times d [] = 0
times d (e ∷ es) = (if e == d then 1 else 0) + times d es

-- No device stands in the queue twice.
abbrev pub Once : List ℕ → Type 0
Once xs = (d : ℕ) → times d xs ≤ 1

-- A device joins the queue at its end, if it is not in it.
abbrev pub enqueue : ℕ → List ℕ → List ℕ
enqueue d xs = if has d xs then xs else xs ++ d ∷ []

unlink-append : (d : ℕ) (xs ys : List ℕ) → unlink d (xs ++ ys) ≡ unlink d xs ++ unlink d ys
unlink-append d [] ys = refl
unlink-append d (x ∷ xs) ys = ground (arith, unlink-append d xs ys)

times-append : (d : ℕ) (xs ys : List ℕ) → times d (xs ++ ys) ≡ times d xs + times d ys
times-append d [] ys = omega arith
times-append d (x ∷ xs) ys = ground (arith, times-append d xs ys)

times-unlink : (e d : ℕ) (xs : List ℕ) → times e (unlink d xs) ≤ times e xs
times-unlink e d [] = omega arith
times-unlink e d (x ∷ xs) = ground (arith, times-unlink e d xs)

times_absent : (d : ℕ) (xs : List ℕ) → has d xs ≡ false → times d xs ≡ 0
times_absent d [] h = refl
times_absent d (x ∷ xs) h = ground (arith, times_absent d xs)

pub enqueue-Once : (d : ℕ) (xs : List ℕ) → Once xs → Once (enqueue d xs)
enqueue-Once d xs h e =
    if_cases (λ ys. times e ys ≤ 1) (has d xs) (λ _. h e)
      (λ g. ground (arith, times-append e xs (d ∷ []), times_absent d xs g, h e))

pub unlink-Once : (d : ℕ) (xs : List ℕ) → Once xs → Once (unlink d xs)
unlink-Once d xs h e = omega (arith, h e, times-unlink e d xs)

-- What each function does to the queue.
pub record Queued (d : ℕ) (s : Core) : Type 0 where
  pub add : queue (deferred_probe_add d s) ≡ enqueue d (queue s)
  pub del : queue (deferred_probe_del d s) ≡ unlink d (queue s)
  pub trigger : queue (deferred_probe_trigger s) ≡ queue s
  pub ready : s.enabled ≡ true → (deferred_probe_trigger s).active ≡ queue s

has-queue : (d : ℕ) (s : Core) → has d (queue s) ≡ is_deferred d s
has-queue d s = ground (arith, has-append d s.active s.pending)

add_queue : (d : ℕ) (s : Core) → queue (deferred_probe_add d s) ≡ enqueue d (queue s)
unfolding deferred_probe_add
add_queue d s =
    let e = has-queue d s in
    let f = append_assoc s.active s.pending (d ∷ []) in
    let choice : Bool → List ℕ = λ b. if b then queue s else queue s ++ d ∷ [] in
    if_cases (λ t. queue t ≡ enqueue d (queue s)) (not (is_deferred d s))
      (λ g. let absent : has d (queue s) ≡ false = ground arith in sym f ∙ sym (ap choice absent))
      (λ g. let present : has d (queue s) ≡ true = ground arith in sym (ap choice present))

-- For any state: an addition puts the device at the end of the queue, if it is not in it; a removal takes it
-- out; a trigger leaves the queue as it is and, where retries are enabled, makes all of it active.
pub queue-Queued : (d : ℕ) (s : Core) → Queued d s
unfolding deferred_probe_trigger
queue-Queued d s = record {
  add = add_queue d s;
  del = ap queue (deferred_probe_del_lem d s) ∙ sym (unlink-append d s.active s.pending);
  trigger = if_cases (λ t. queue t ≡ queue s) s.enabled (λ _. append-nil (queue s)) (λ _. refl);
  ready = λ h. ground arith;
}
