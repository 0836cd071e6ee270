-- ===== src/Arisc/Frames.antt =====
-- The message frames that the requests of demo_hwmessagebox.c take and give back.
use open_device.Base.{
  ℕ, suc, ◌+◌, ◌≡◌, refl, Option, none, some, List, [], ◌∷◌, arith, ◌==◌, eq_ret, if◌then◌else◌,
  Bool-cases, inl, inr, ℤ, ok, enomem, einval, ◌⊎◌,
}
use open_device.Arisc.Box.{Message, Box, Reply, Request, finish, with_frame, perform}
use open_device.Arisc.Requests.{Indeterminate, init_requests, perform_all, hwmessagebox_init}

-- What the platform documents of its pool: an allocation that succeeds hands out one frame, one
-- that fails none, a transfer keeps them, and a release takes one back.
pub record Pool (b : Box) : Type 0 where
  pub frames : b.World → ℕ
  pub allocate_some :
      (a : ℕ) (w : b.World) (q : ℕ × Message)
      → (b.allocate a w).0 ≡ some q
      → frames (b.allocate a w).1 ≡ suc (frames w)
  pub allocate_none :
      (a : ℕ) (w : b.World) → (b.allocate a w).0 ≡ none → frames (b.allocate a w).1 ≡ frames w
  pub frames-send : (p : ℕ) (m : Message) (w : b.World) → frames (b.send p m w).1 ≡ frames w
  pub frames-free : (p : ℕ) (w : b.World) (n : ℕ) → frames w ≡ suc n → frames (b.free p w) ≡ n

-- 1 for a request that was refused.
abbrev pub refused : Reply → ℕ
refused a = if eq_ret a.ret einval then 1 else 0

abbrev pub count_refused : List Reply → ℕ
count_refused [] = 0
count_refused (a ∷ rest) = refused a + count_refused rest

-- The three results that a request can have.
abbrev pub IsResult : ℤ → Type 0
IsResult r = (r ≡ ok) ⊎ (r ≡ enomem) ⊎ (r ≡ einval)

module _ (b : Box) (l : Pool b) where
  open b use {World, allocate, send}
  open l use {frames, allocate_some, allocate_none, frames-send, frames-free}

  -- Of `n` frames handed out before, a call leaves `n`, and one more if it was refused.
  abbrev Settles : ℕ → Reply × World → Type 0
  Settles n (a, w) = (frames w ≡ n + refused a) × IsResult a.ret

  finish-Settles :
      (r : Request) (p n : ℕ) (m : Message) (w : World)
      → frames w ≡ suc n
      → Settles n (finish b r p (m, w))
  unfolding finish
  finish-Settles r p n m w h = elim (Bool-cases (m.result == 0)) [
    | inl good ↦ rw good (omega (arith, frames-free p w n h), inl refl)
    | inr bad ↦ rw bad (omega arith, inr (inr refl))
  ]

  with_frame-Settles :
      (r : Request) (n : ℕ) (o : Option (ℕ × Message)) (w : World)
      → (o ≡ none → frames w ≡ n)
      → ((q : ℕ × Message) → o ≡ some q → frames w ≡ suc n)
      → Settles n (with_frame b r (o, w))
  unfolding with_frame
  with_frame-Settles r n none w h k = (omega (arith, h refl), inr (inl refl))
  with_frame-Settles r n (some (p, m)) w h k =
      finish-Settles r p n (send p (r.fill m) w).0 (send p (r.fill m) w).1
        (omega (arith, frames-send p (r.fill m) w, k (p, m) refl))

  pub perform-Settles : (r : Request) (w : World) → Settles (frames w) (perform b r w)
  unfolding perform
  perform-Settles r w =
      with_frame-Settles r (frames w) (allocate r.attr w).0 (allocate r.attr w).1
        (allocate_none r.attr w) (allocate_some r.attr w)

  perform_all-frames :
      (rs : List Request) (w : World)
      → let (xs, w') = perform_all b rs w in frames w' ≡ frames w + count_refused xs
  unfolding perform_all
  perform_all-frames [] w = omega arith
  perform_all-frames (r ∷ rs) w =
      omega (arith, perform-Settles r w, perform_all-frames rs (perform b r w).1)

  -- After the init call the pool has handed out exactly as many frames more than before as there
  -- are requests that the coprocessor refused: a frame is lost with each, and with nothing else.
  pub init-frames :
      (u : Indeterminate) (w : World)
      → let (xs, w') = hwmessagebox_init b u w in frames w' ≡ frames w + count_refused xs
  unfolding hwmessagebox_init
  init-frames u w = perform_all-frames (init_requests u) w
