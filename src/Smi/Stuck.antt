-- ===== src/Smi/Stuck.antt =====
-- What happens when the switch does not come back: the counter that both loops of mdio.c share.
use open_device.Base.{ℕ, zero, suc, ◌+◌, ◌≡◌, refl, false, ◌==◌, bit_and, arith}
use open_device.Smi.Serdes.{
  SmiBus, global2, cmd, data_reg, command, minus_one, poll_busy, poll_clearing, serdes_read,
  poll_for, sketch_command, sketch_read,
}

-- A switch whose busy flag is never seen to fall. `polls` counts the reads of its command register.
pub record StuckLaws (b : SmiBus) (polls : b.World → ℕ) : Type 0 where
  pub flag : (w : b.World) → (bit_and (b.read_smi global2 cmd w).0 0x8000 == 0) ≡ false
  pub read-polls : (w : b.World) → polls (b.read_smi global2 cmd w).1 ≡ polls w + 1
  pub data-polls : (w : b.World) → polls (b.read_smi global2 data_reg w).1 ≡ polls w
  pub write-polls : (reg v : ℕ) (w : b.World) → polls (b.write_smi global2 reg v w) ≡ polls w

module _ (b : SmiBus) (polls : b.World → ℕ) (laws : StuckLaws b polls) where
  -- A loop that never sees the flag fall leaves -1 in the counter.
  record Exhausted (i : ℕ) (w : b.World) (o : ℕ × b.World) : Type 0 where
    counter : o.0 ≡ minus_one
    counted : polls o.1 ≡ polls w + i

  poll_busy-Exhausted : (i : ℕ) (w : b.World) → Exhausted i w (poll_busy b i w)
  unfolding poll_busy
  poll_busy-Exhausted zero w = record { counter = refl; counted = omega arith }
  poll_busy-Exhausted (suc i) w =
      let w1 : b.World = (b.read_smi global2 cmd w).1 in
      let e : Exhausted i w1 (poll_busy b i w1) = poll_busy-Exhausted i w1 in
      rw (laws.flag w)
        (record { counter = e.counter; counted = omega (arith, e.counted, laws.read-polls w) })

  poll_clearing-Exhausted : (i : ℕ) (w : b.World) → Exhausted i w (poll_clearing b i w)
  unfolding poll_clearing
  poll_clearing-Exhausted zero w = record { counter = refl; counted = omega arith }
  poll_clearing-Exhausted (suc i) w =
      let w0 : b.World = b.write_smi global2 data_reg 0 w in
      let w1 : b.World = (b.read_smi global2 cmd w0).1 in
      let e : Exhausted i w1 (poll_clearing b i w1) = poll_clearing-Exhausted i w1 in
      rw (laws.flag w0) (record {
        counter = e.counter;
        counted = omega (arith, e.counted, laws.read-polls w0, laws.write-polls data_reg 0 w);
      })

  poll_for_counted : (n : ℕ) (w : b.World) → polls (poll_for b n w) ≡ polls w + n
  unfolding poll_for
  poll_for_counted zero w = omega arith
  poll_for_counted (suc n) w =
      let w1 : b.World = (b.read_smi global2 cmd w).1 in
      rw (laws.flag w) (omega (arith, poll_for_counted n w1, laws.read-polls w))

  -- On a switch whose busy flag is never seen to fall, aup_SERDES_read of mdio.c polls 65635 times:
  -- the first loop leaves -1 in the counter that the second goes on with, on a board whose int has
  -- 16 bits and wraps around. The sketch, where each loop has its own counter, polls 200 times. Both
  -- end, and read the data register of the switch all the same.
  pub serdes_read_polls :
      (dev reg : ℕ) (w : b.World)
      → (polls (serdes_read b dev reg w).1 ≡ polls w + (100 + minus_one))
        × (polls (sketch_read b dev reg w).1 ≡ polls w + (100 + 100))
  unfolding serdes_read sketch_read
  serdes_read_polls dev reg w =
      let o : ℕ × b.World = poll_clearing b 100 w in
      let e : Exhausted 100 w o = poll_clearing-Exhausted 100 w in
      let w2 : b.World = b.write_smi global2 cmd (command 0x800 dev reg) o.1 in
      let f : Exhausted o.0 w2 (poll_busy b o.0 w2) = poll_busy-Exhausted o.0 w2 in
      let s : b.World = poll_for b 100 w in
      let s2 : b.World = b.write_smi global2 cmd (sketch_command 0x9800 dev reg) s in
      (
        omega (
          arith,
          laws.data-polls (poll_busy b o.0 w2).1,
          f.counted,
          e.counter,
          e.counted,
          laws.write-polls cmd (command 0x800 dev reg) o.1,
        ),
        omega (
          arith,
          laws.data-polls (poll_for b 100 s2),
          poll_for_counted 100 s2,
          poll_for_counted 100 w,
          laws.write-polls cmd (sketch_command 0x9800 dev reg) s,
        ),
      )
