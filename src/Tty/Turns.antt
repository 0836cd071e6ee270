-- ===== src/Tty/Turns.antt =====
-- The transmission and the program at the other side of the port as two threads: `dummy_start_tx` fills
-- the FIFO and wakes the pollers, and only then initialises the completion that it waits for.
use open_device.Base.{
  ℕ, ◌+◌, ◌-◌, ◌≤◌, ◌<◌, ◌≡◌, ◌≢◌, refl, ap, some, Option-cases, inl, inr, true, false, arith,
}
use open_device.Tty.State.{Uart, tx_loop, start_tx, dummy_read, poll}
use open_device.Tty.Sent.{InRange, waiting, smaller, start_tx-Moves}

-- Where the thread of `dummy_start_tx` is: outside, behind the loop, or in the wait.
pub data Writer : Type 0 where
  outside : Writer
  filled : Writer
  asleep : Writer

-- One turn of a thread. The other program reads when `dummy_poll` reports something to read.
pub data Turn : Writer → Uart → Writer → Uart → Type 0 where
  fill : {u v : Uart} → tx_loop (u.tx_fifo_size - u.tx_len + 1) u ≡ some v → Turn outside u filled v
  init_completion : {u : Uart} → Turn filled u asleep (record u { write_ok = false })
  wake : {u : Uart} → u.write_ok ≡ true → Turn asleep u outside (record u { write_ok = false })
  manage : (size : ℕ) {w : Writer} {u : Uart} → poll u ≢ 0 → Turn w u w (dummy_read size u).1

pub data Turns : Writer → Uart → Writer → Uart → Type 0 where
  no_turn : {w : Writer} {u : Uart} → Turns w u w u
  turn : {w x y : Writer} {u v z : Uart} → Turns w u x v → Turn x v y z → Turns w u y z

-- The thread sleeps, and no thread has a turn any more.
pub record LostWakeup (u : Uart) : Type 0 where
  pub last : Uart
  pub reached : Turns outside u asleep last
  pub stuck : (w : Writer) (v : Uart) → Turn asleep last w v → ⊥

-- What the loop of a transmission leaves.
loop_of :
    (u v : Uart)
    → start_tx u ≡ some v
    → (t : Uart) × ((tx_loop (u.tx_fifo_size - u.tx_len + 1) u ≡ some t)
        × (v ≡ record t { write_ok = false }))
unfolding start_tx
loop_of u v e = elim (Option-cases (tx_loop (u.tx_fifo_size - u.tx_len + 1) u)) [
  | inl f ↦ absurd (ground arith)
  | inr (t, f) ↦ (t, (f, ground arith))
]

-- A read of everything behind the loop.
read_all : (n : ℕ) (t : Uart) → t.tx_len ≤ n → (dummy_read n t).1.tx_len ≡ 0
unfolding dummy_read
read_all n t h = ground arith

asleep_stuck :
    (u : Uart) → u.tx_len ≡ 0 → u.write_ok ≡ false → (w : Writer) (v : Uart) → Turn asleep u w v → ⊥
unfolding poll
asleep_stuck u h g w v (wake e) = ground arith
asleep_stuck u h g w v (manage size e) = e (ground arith)

positive :
    (u : Uart)
    → InRange u
    → u.head ≢ u.tail
    → u.tx_len ≡ 0
    → 0 < u.tx_fifo_size
    → 0 < smaller (waiting u) (u.tx_fifo_size - u.tx_len)
positive u r full empty room =
    let h = r.head in let t = r.tail in let w : 0 < waiting u = ground arith in ground arith

-- Whenever bytes wait and the FIFO is empty, the turns can come so that the other program reads all of it
-- after the pollers were woken and before the completion is initialised: then the thread sleeps, no byte
-- is left that the poll would report, and no thread has a turn any more.
pub start_tx-LostWakeup :
    (u : Uart) → InRange u → u.head ≢ u.tail → u.tx_len ≡ 0 → 0 < u.tx_fifo_size → LostWakeup u
unfolding poll
start_tx-LostWakeup u r full empty room =
    let (v, e, s) = start_tx-Moves u r full (omega arith) in
    let (t, (f, g)) = loop_of u v e in
    let n : ℕ = t.tx_len in
    let k : 0 < smaller (waiting u) (u.tx_fifo_size - u.tx_len) = positive u r full empty room in
    let some_sent : 0 < n = omega (arith, s.tx_len, ap (λ (x : Uart). x.tx_len) g) in
    let read : Uart = (dummy_read n t).1 in
    let end : Uart = record read { write_ok = false } in
    record {
      last = end;
      reached = turn (turn (turn no_turn (fill f)) (manage n (λ h. ground arith))) init_completion;
      stuck = asleep_stuck end (read_all n t (omega arith)) refl;
    }
