-- ===== src/Can/Reached.antt =====
-- What the CAN device can do between two opens.
use open_device.Base.{
  ℕ, ◌+◌, ◌≤◌, ◌<◌, ◌≡◌, ◌≢◌, ◌⊎◌, inl, inr, refl, ap, Option, none, some, is_some, Bool, false,
  not, ◌||◌, [], ◌∷◌, ◌++◌, ◌==◌, if◌then◌else◌, if_cases, arith, length, ℤ, ok,
}
use open_device.Can.Handlers.{
  Can, Step, transmit, work, restart, Reach, here, next, hard_start_xmit, tx_work_handler,
  restart_work_handler, demo_open, netdev_tx_busy, clamped_dlc,
}

-- No frame was sent, or one was and none is waiting.
pub record OneFrame (s : Can) : Type 0 where
  pub phase :
      ((s.tx_len ≡ 0) × (s.echoed ≡ []))
      ⊎ ((0 < s.tx_len) × (s.tx_skb ≡ none) × (length s.echoed ≡ 1))
  pub bound : s.tx_len ≤ 9

transmit-OneFrame :
    (dropped : Bool) (skb : ℕ) (s : Can) → OneFrame s → OneFrame (hard_start_xmit dropped skb s).1
unfolding hard_start_xmit
transmit-OneFrame dropped skb s w =
    if_cases (λ (o : ℤ × Can). OneFrame o.1) (is_some s.tx_skb || not (s.tx_len == 0)) (λ _. w)
      (λ idle.
        if_cases (λ (o : ℤ × Can). OneFrame o.1) dropped (λ _. w)
          (λ _. record {
            phase = elim (w.phase) [
              | inl e ↦ inl e
              | inr (l, f, g) ↦ let z : s.tx_len ≡ 0 = ground arith in absurd (omega arith)
            ];
            bound = w.bound;
          }))

work_on :
    (s : Can) (m : Option ℕ)
    → s.tx_skb ≡ m
    → OneFrame s
    → (let t : Can = elim m [
      | none ↦ s
      | some dlc ↦ if s.bus_off then s else record s {
        tx_len = 1 + clamped_dlc dlc;
        echoed = s.echoed ++ clamped_dlc dlc ∷ [];
        tx_skb = none;
      }
    ] in
        OneFrame t)
work_on s none e w = w
work_on s (some dlc) e w =
    if_cases (λ u. OneFrame u) s.bus_off (λ _. w)
      (λ _. record {
        phase = elim (w.phase) [
          | inl (z, f) ↦ inr (omega arith, refl, ap (λ es. length (es ++ clamped_dlc dlc ∷ [])) f)
          | inr (l, f, g) ↦ absurd (cc)
        ];
        bound = ground arith;
      })

work-OneFrame : (s : Can) → OneFrame s → OneFrame (tx_work_handler s)
unfolding tx_work_handler
work-OneFrame s w = work_on s s.tx_skb refl w

restart-OneFrame : (s : Can) → OneFrame s → OneFrame (restart_work_handler s)
unfolding restart_work_handler
restart-OneFrame s w =
    let t : Can =
      if s.after_suspend then record s { after_suspend = false; force_quit = false } else s in
    let v : OneFrame t =
      if_cases (λ u. OneFrame u) s.after_suspend (λ _. record { phase = w.phase; bound = w.bound })
        (λ _. w) in
    if_cases (λ u. OneFrame u) t.restart_tx (λ _. record { phase = v.phase; bound = v.bound })
      (λ _. v)

Step-OneFrame : (s t : Can) → Step s t → OneFrame s → OneFrame t
Step-OneFrame _ _ (transmit dropped skb s) w = transmit-OneFrame dropped skb s w
Step-OneFrame _ _ (work s) w = work-OneFrame s w
Step-OneFrame _ _ (restart s) w = restart-OneFrame s w

Reach-OneFrame : (s t : Can) → Reach s t → OneFrame s → OneFrame t
Reach-OneFrame _ _ (here s) w = w
Reach-OneFrame _ _ (next s t u r e) w = Step-OneFrame t u e (Reach-OneFrame s t r w)

opened-OneFrame : (s : Can) → s.echoed ≡ [] → OneFrame (demo_open ok s).1
unfolding demo_open
opened-OneFrame s h = record { phase = inl (refl, h); bound = omega arith }

-- A device that sends no second frame.
pub record Refusing (t : Can) : Type 0 where
  pub sent : length t.echoed ≤ 1
  pub bound : t.tx_len ≤ 9
  pub busy :
      (dropped : Bool) (skb : ℕ)
      → t.echoed ≢ []
      → hard_start_xmit dropped skb t ≡ (netdev_tx_busy, t)

OneFrame-Refusing : (t : Can) → OneFrame t → Refusing t
unfolding hard_start_xmit
OneFrame-Refusing t w = record {
  sent = elim (w.phase) [ inl (z, f) ↦ ground (arith, ap length f) | inr (l, f, g) ↦ omega arith ];
  bound = w.bound;
  busy = λ dropped skb ne. elim (w.phase) [
    | inl (z, f) ↦ absurd (ne f)
    | inr (l, f, g) ↦ ground arith
  ];
}

-- From an open that succeeds with nothing sent before, whatever is handed to the device and whenever
-- its work runs: at most one frame is sent, the length kept of it is at most 9, and once it is sent
-- each further frame is refused as busy.
pub Reach-Refusing : (s t : Can) → s.echoed ≡ [] → Reach (demo_open ok s).1 t → Refusing t
Reach-Refusing s t h r =
    OneFrame-Refusing t (Reach-OneFrame (demo_open ok s).1 t r (opened-OneFrame s h))
