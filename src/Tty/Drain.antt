-- ===== src/Tty/Drain.antt =====
-- What a program reads from the FIFO.
use open_device.Base.{
  ℕ, zero, suc, ◌+◌, ◌-◌, ◌*◌, ◌%◌, ◌≤◌, ◌<◌, ◌≡◌, ◌≢◌, ◌∙◌, refl, sym, subst, ap, ap₂, some, true,
  List, [], ◌∷◌, ltb, if◌then◌else◌, arith,
}
use open_device.Tty.State.{Uart, bytes_at, dummy_read, start_tx}
use open_device.Tty.Sent.{InRange, waiting, smaller, Sent, start_tx-Moves}

-- The `n` bytes of a circular buffer from index `t` on.
abbrev pub ring_bytes : (ℕ → ℕ) → ℕ → ℕ → List ℕ
ring_bytes f t zero = []
ring_bytes f t (suc n) = f (t % 4096) ∷ ring_bytes f (t + 1) n

bytes_at-ring_bytes :
    (f g : ℕ → ℕ) (i t k : ℕ)
    → ((j : ℕ) → j < k → f (i + j) ≡ g ((t + j) % 4096))
    → bytes_at f i k ≡ ring_bytes g t k
bytes_at-ring_bytes f g i t zero h = refl
bytes_at-ring_bytes f g i t (suc k) h =
    let a : i + 0 ≡ i = omega arith in
    let b : (t + 0) % 4096 ≡ t % 4096 = omega arith in
    ap₂ (λ x xs. x ∷ xs) (ap f (sym a) ∙ h 0 (omega arith) ∙ ap g b)
      (bytes_at-ring_bytes f g (i + 1) (t + 1) k (λ j l.
        let c : (i + 1) + j ≡ i + suc j = omega arith in
        let d : (t + suc j) % 4096 ≡ (t + 1 + j) % 4096 = omega arith in
        ap f c ∙ h (suc j) (omega arith) ∙ ap g d))

-- A read that has room for the whole FIFO.
pub record Drained (bytes : List ℕ) (o : List ℕ × Uart) : Type 0 where
  pub bytes_read : o.0 ≡ bytes
  pub emptied : o.1.tx_len ≡ 0
  pub completed : o.1.write_ok ≡ true

read-Drained :
    (n : ℕ) (v : Uart) → v.tx_len ≤ n → Drained (bytes_at v.tx_fifo 0 v.tx_len) (dummy_read n v)
unfolding dummy_read
read-Drained n v h =
    let m : ℕ = if ltb v.tx_len n then v.tx_len else n in
    let e : m ≡ v.tx_len = ground arith in
    let z : v.tx_len - m ≡ 0 = omega arith in
    record { bytes_read = ap (bytes_at v.tx_fifo 0) e; emptied = z; completed = ground (arith, z) }

smaller_bound : (a b : ℕ) → smaller a b ≤ b
smaller_bound a b = ground arith

Drained-Sent :
    (u v : Uart) (n : ℕ)
    → u.tx_len ≡ 0
    → u.tx_fifo_size ≤ n
    → Sent (smaller (waiting u) (u.tx_fifo_size - u.tx_len)) u v
    → Drained (ring_bytes u.buf u.tail (smaller (waiting u) u.tx_fifo_size)) (dummy_read n v)
Drained-Sent u v n empty big s =
    let z : u.tx_fifo_size - u.tx_len ≡ u.tx_fifo_size = omega arith in
    let k : ℕ = smaller (waiting u) u.tx_fifo_size in
    let ke : smaller (waiting u) (u.tx_fifo_size - u.tx_len) ≡ k = ap (smaller (waiting u)) z in
    let t : Sent k u v = subst (λ m. Sent m u v) ke s in
    let c : k ≤ u.tx_fifo_size = smaller_bound (waiting u) u.tx_fifo_size in
    let l : v.tx_len ≡ k = omega (arith, t.tx_len) in
    let d : Drained (bytes_at v.tx_fifo 0 v.tx_len) (dummy_read n v) =
      read-Drained n v (omega arith) in
    let b : bytes_at v.tx_fifo 0 k ≡ ring_bytes u.buf u.tail k =
      bytes_at-ring_bytes v.tx_fifo u.buf 0 u.tail k
        (λ j h. let i : 0 + j ≡ u.tx_len + j = omega arith in ap v.tx_fifo i ∙ t.moved j h) in
    record {
      bytes_read = d.bytes_read ∙ ap (bytes_at v.tx_fifo 0) l ∙ b;
      emptied = d.emptied;
      completed = d.completed;
    }

-- A transmission into an empty FIFO ends in a state in which one read with room for all of it gets
-- the bytes from the circular buffer's tail on, as many as waited or fitted, empties the FIFO and
-- completes the writer's wait.
pub dummy_read-start_tx :
    (u : Uart) (n : ℕ)
    → InRange u
    → u.head ≢ u.tail
    → u.tx_len ≡ 0
    → 0 < u.tx_fifo_size
    → u.tx_fifo_size ≤ n
    → (v : Uart) × (start_tx u ≡ some v)
      × Drained (ring_bytes u.buf u.tail (smaller (waiting u) u.tx_fifo_size)) (dummy_read n v)
dummy_read-start_tx u n r full empty room big =
    let (v, e, s) = start_tx-Moves u r full (omega arith) in (v, e, Drained-Sent u v n empty big s)

-- A read does not move what is left to the front of the FIFO: a second read of the same size gets the
-- bytes of the first again, when the FIFO holds enough for both.
pub dummy_read-dummy_read :
    (size : ℕ) (u : Uart)
    → 2 * size ≤ u.tx_len
    → (dummy_read size (dummy_read size u).1).0 ≡ (dummy_read size u).0
unfolding dummy_read
dummy_read-dummy_read size u h =
    let first : ℕ = if ltb u.tx_len size then u.tx_len else size in
    let e : first ≡ size = ground arith in
    let left : size ≤ u.tx_len - first = omega arith in
    let second : ℕ = if ltb (u.tx_len - first) size then u.tx_len - first else size in
    let f : second ≡ size = ground arith in ap (bytes_at u.tx_fifo 0) (f ∙ sym e)
