-- ===== src/Tty/Sent.antt =====
-- What `dummy_start_tx` moves from the circular buffer into the FIFO.
use open_device.Base.{
  ℕ, zero, suc, ◌+◌, ◌-◌, ◌%◌, ◌≤◌, ◌<◌, ◌≡◌, ◌≢◌, ◌∙◌, ◌⊎◌, inl, inr, refl, sym, subst, ap, ap₂,
  Option, none, some, false, ◌==◌, ltb, leb, ==_iff, Bool-cases, if◌then◌else◌, if_cases, arith,
}
use open_device.Tty.State.{Uart, push_char, tx_loop, start_tx}

-- The indices are in the circular buffer.
pub record InRange (u : Uart) : Type 0 where
  pub head : u.head < 4096
  pub tail : u.tail < 4096

-- The bytes that wait in the circular buffer.
abbrev pub waiting : Uart → ℕ
waiting u = (u.head + 4096 - u.tail) % 4096

abbrev pub smaller : ℕ → ℕ → ℕ
smaller a b = if leb a b then a else b

-- `k` bytes were moved, in order, behind those that the FIFO held.
pub record Sent (k : ℕ) (u v : Uart) : Type 0 where
  pub tx_len : v.tx_len ≡ u.tx_len + k
  pub tail : v.tail ≡ (u.tail + k) % 4096
  pub head : v.head ≡ u.head
  pub buf : v.buf ≡ u.buf
  pub size : v.tx_fifo_size ≡ u.tx_fifo_size
  pub moved : (j : ℕ) → j < k → v.tx_fifo (u.tx_len + j) ≡ u.buf ((u.tail + j) % 4096)
  pub kept : (j : ℕ) → j < u.tx_len → v.tx_fifo j ≡ u.tx_fifo j

push_char-Sent : (u : Uart) → InRange u → Sent 1 u (push_char u)
unfolding push_char
push_char-Sent u r = record {
  tx_len = refl;
  tail = refl;
  head = refl;
  buf = refl;
  size = refl;
  moved = λ j h.
      let e : (u.tail + j) % 4096 ≡ u.tail = omega (arith, r.tail) in ground (arith, ap u.buf e);
  kept = λ j h. ground arith;
}

moved-twice :
    (a b : ℕ) (u v w : Uart)
    → Sent a u v
    → Sent b v w
    → (j : ℕ) → j < a + b
    → w.tx_fifo (u.tx_len + j) ≡ u.buf ((u.tail + j) % 4096)
moved-twice a b u v w s t j h = elim (Bool-cases (ltb j a)) [
  | inl first ↦
      let l : j < a = ground arith in t.kept (u.tx_len + j) (omega (arith, s.tx_len)) ∙ s.moved j l
  | inr second ↦
      let l : a ≤ j = ground arith in
      let e : u.tx_len + j ≡ v.tx_len + (j - a) = omega (arith, s.tx_len) in
      let i : (v.tail + (j - a)) % 4096 ≡ (u.tail + j) % 4096 = omega (arith, s.tail) in
      ap w.tx_fifo e
      ∙ t.moved (j - a) (omega arith)
      ∙ ap (λ (f : ℕ → ℕ). f ((v.tail + (j - a)) % 4096)) s.buf
      ∙ ap u.buf i
]

Sent-Sent : (a b : ℕ) (u v w : Uart) → Sent a u v → Sent b v w → Sent (a + b) u w
Sent-Sent a b u v w s t = record {
  tx_len = omega (arith, s.tx_len, t.tx_len);
  tail = omega (arith, s.tail, t.tail);
  head = t.head ∙ s.head;
  buf = t.buf ∙ s.buf;
  size = t.size ∙ s.size;
  moved = λ j h. moved-twice a b u v w s t j h;
  kept = λ j h. t.kept j (omega (arith, s.tx_len)) ∙ s.kept j h;
}

waiting-turn :
    (u v : Uart)
    → InRange u
    → u.head ≢ u.tail
    → Sent 1 u v
    → u.head ≢ v.tail
    → waiting u ≡ 1 + waiting v
waiting-turn u v r full s ne =
    let e : v.tail ≡ (u.tail + 1) % 4096 = s.tail in
    let f : v.head ≡ u.head = s.head in omega (arith, r.head, r.tail)

smaller-suc : (a b : ℕ) → smaller (1 + a) (1 + b) ≡ 1 + smaller a b
smaller-suc a b = ground arith

-- One turn less: what the loop has left to move after a byte.
smaller-turn :
    (u v : Uart)
    → InRange u
    → u.head ≢ u.tail
    → Sent 1 u v
    → u.head ≢ v.tail
    → v.tx_len < u.tx_fifo_size
    → smaller (waiting u) (u.tx_fifo_size - u.tx_len)
      ≡ 1 + smaller (waiting v) (v.tx_fifo_size - v.tx_len)
smaller-turn u v r full s ne l =
    let w : waiting u ≡ 1 + waiting v = waiting-turn u v r full s ne in
    let e : u.tx_fifo_size - u.tx_len ≡ 1 + (v.tx_fifo_size - v.tx_len) =
      omega (arith, s.size, s.tx_len) in
    ap₂ smaller w e ∙ smaller-suc (waiting v) (v.tx_fifo_size - v.tx_len)

-- The loop on a buffer with bytes in it and a FIFO with room: enough fuel, and what it moves.
abbrev pub Moves : Uart → Option Uart → Type 0
Moves u o = (v : Uart) × (o ≡ some v) × Sent (smaller (waiting u) (u.tx_fifo_size - u.tx_len)) u v

Moves-Sent :
    (k : ℕ) (u v : Uart)
    → smaller (waiting u) (u.tx_fifo_size - u.tx_len) ≡ k
    → Sent k u v
    → Moves u (some v)
Moves-Sent k u v e s = (v, refl, subst (λ n. Sent n u v) (sym e) s)

smaller-one : (a b : ℕ) → 0 < a → 0 < b → (a ≡ 1) ⊎ (b ≡ 1) → smaller a b ≡ 1
smaller-one a b h k e = ground arith

last_byte :
    (u v : Uart)
    → InRange u
    → u.head ≢ u.tail
    → u.tx_len < u.tx_fifo_size
    → Sent 1 u v
    → (v.head ≡ v.tail) ⊎ (v.tx_fifo_size ≤ v.tx_len)
    → smaller (waiting u) (u.tx_fifo_size - u.tx_len) ≡ 1
last_byte u v r full room s e =
    let f : v.tail ≡ (u.tail + 1) % 4096 = s.tail in
    let w : 0 < waiting u = omega (arith, r.head, r.tail) in
    smaller-one (waiting u) (u.tx_fifo_size - u.tx_len) w (omega arith) (elim e [
      | inl h ↦ inl (omega (arith, r.head, r.tail, s.head))
      | inr h ↦ inr (omega (arith, s.size, s.tx_len))
    ])

Sent-InRange : (u v : Uart) → InRange u → Sent 1 u v → InRange v
Sent-InRange u v r s = record { head = omega (arith, r.head, s.head); tail = omega (arith, s.tail) }

-- What the rest of the loop moves, after a byte.
Moves-on :
    (u v : Uart) (o : Option Uart)
    → InRange u
    → u.head ≢ u.tail
    → Sent 1 u v
    → u.head ≢ v.tail
    → v.tx_len < u.tx_fifo_size
    → Moves v o
    → Moves u o
Moves-on u v o r full s ne l (w, e, t) = (
  w,
  e,
  subst (λ n. Sent n u w) (sym (smaller-turn u v r full s ne l))
      (Sent-Sent 1 (smaller (waiting v) (v.tx_fifo_size - v.tx_len)) u v w s t),
)

tx_loop-Moves :
    (fuel : ℕ) (u : Uart)
    → InRange u
    → u.head ≢ u.tail
    → u.tx_len < u.tx_fifo_size
    → u.tx_fifo_size - u.tx_len < fuel
    → Moves u (tx_loop fuel u)
unfolding tx_loop
tx_loop-Moves zero u r full room h = ground arith
tx_loop-Moves (suc fuel) u r full room h =
    let v : Uart = push_char u in
    let s : Sent 1 u v = push_char-Sent u r in
    if_cases (λ o. Moves u o) (v.head == v.tail)
      (λ e. Moves-Sent 1 u v (last_byte u v r full room s (inl ((==_iff v.head v.tail).0 e))) s)
      (λ e.
        if_cases (λ o. Moves u o) (ltb v.tx_len v.tx_fifo_size)
          (λ l.
            let ne : v.head ≢ v.tail = ground arith in
            let lt : v.tx_len < v.tx_fifo_size = ground arith in
            Moves-on u v (tx_loop fuel v) r full s (λ q. ne (s.head ∙ q)) (omega (arith, s.size))
              (tx_loop-Moves fuel v (Sent-InRange u v r s) ne lt (omega (arith, s.size, s.tx_len))))
          (λ l. Moves-Sent 1 u v (last_byte u v r full room s (inr (ground arith))) s))

Moves-start :
    (u : Uart) (o : Option Uart)
    → Moves u o
    → (let p : Option Uart = elim o [
      | none ↦ none
      | some v ↦ some (record v { write_ok = false })
    ] in
        Moves u p)
Moves-start u none (v, e, s) = absurd (cc)
Moves-start u (some w) (v, e, s) =
    let t : Sent (smaller (waiting u) (u.tx_fifo_size - u.tx_len)) u w =
      subst (λ x. Sent (smaller (waiting u) (u.tx_fifo_size - u.tx_len)) u x) (cc) s in
    (
      record w { write_ok = false },
      refl,
      record {
        tx_len = t.tx_len;
        tail = t.tail;
        head = t.head;
        buf = t.buf;
        size = t.size;
        moved = t.moved;
        kept = t.kept;
      },
    )

-- With bytes waiting and room in the FIFO, a transmission ends, and moves as many bytes as wait or
-- as fit, whichever is fewer, in order behind those that the FIFO holds, which stay.
pub start_tx-Moves :
    (u : Uart) → InRange u → u.head ≢ u.tail → u.tx_len < u.tx_fifo_size → Moves u (start_tx u)
unfolding start_tx
start_tx-Moves u r full room =
    Moves-start u (tx_loop (u.tx_fifo_size - u.tx_len + 1) u)
      (tx_loop-Moves (u.tx_fifo_size - u.tx_len + 1) u r full room (omega arith))
