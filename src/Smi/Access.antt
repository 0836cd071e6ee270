-- ===== src/Smi/Access.antt =====
-- Reads and writes of the registers behind the switch, whole.
use open_device.Base.{
  ℕ, suc, ◌+◌, ◌%◌, ◌^◌, ◌<◌, ◌≡◌, ◌∙◌, sym, ap, subst, true, ◌&&◌, ◌==◌, if◌then◌else◌, bit_and,
  arith,
}
use open_device.Smi.Serdes.{
  SmiBus, global2, cmd, data_reg, command, poll_busy, poll_clearing, serdes_read, serdes_write,
  poll_for, sketch_command, sketch_read, sketch_write,
}
use open_device.Smi.Indirect.{
  Switch, SwitchLaws, is_plain, read_command-fields, write_command-fields, sketch_read_fields,
  sketch_write_fields,
}
use open_device.Smi.Behind.{
  Polled, Fetched, Given, round_last, poll_busy-Polled, poll_busy-counter, poll_for-Polled, fetched,
  given,
}

module _ (b : SmiBus) (c : Switch b) (laws : SwitchLaws b c) where
  -- The first loop of `serdes_read` on an idle switch: one round.
  abbrev cleared : b.World → b.World
  cleared w = b.write_smi global2 data_reg 0 w

  cleared_idle : (w : b.World) → c.left w ≡ 0 → c.left (cleared w) ≡ 0
  cleared_idle w h = laws.put-left 0 w ∙ h

  poll_clearing-idle :
      (i : ℕ) (w : b.World)
      → c.left w ≡ 0
      → poll_clearing b (suc i) w ≡ (i, (b.read_smi global2 cmd (cleared w)).1)
  unfolding poll_clearing
  poll_clearing-idle i w h =
      let e : (bit_and (b.read_smi global2 cmd (cleared w)).0 0x8000 == 0) ≡ true =
        laws.poll_busy-flag (cleared w) ∙ ap (λ n. n == 0) (cleared_idle w h) in
      rw e

  -- On a switch that is idle and whose operations take less than 99 polls, aup_SERDES_read of mdio.c
  -- returns what the register of the device holds, whose numbers count modulo 32; it changes no
  -- register behind the switch, and leaves the switch idle.
  pub serdes_read-Fetched :
      (dev reg : ℕ) (w : b.World)
      → c.left w ≡ 0
      → c.turns < 99
      → Fetched b c dev reg w (serdes_read b dev reg w)
  unfolding serdes_read
  serdes_read-Fetched dev reg w h short =
      let w1 : b.World = (b.read_smi global2 cmd (cleared w)).1 in
      let v : ℕ = command 0x800 dev reg in
      let w2 : b.World = b.write_smi global2 cmd v w1 in
      let p : Polled b c (cleared w) w1 = round_last b c laws (cleared w) (cleared_idle w h) in
      let q : Polled b c w2 (poll_busy b 99 w2).1 =
        poll_busy-Polled b c laws 99 w2 (omega (arith, laws.start-left v w1)) in
      let f : Fetched b c dev reg (cleared w) (b.read_smi global2 data_reg (poll_busy b 99 w2).1) =
        fetched b c laws v dev reg (cleared w) w1 (poll_busy b 99 w2).1
          (read_command-fields dev reg) p q in
      let kept : (a r : ℕ) → c.behind a r (cleared w) ≡ c.behind a r w = laws.put-behind 0 w h in
      subst
        (λ (o : ℕ × b.World).
          Fetched b c dev reg w
            (b.read_smi global2 data_reg (poll_busy b o.0 (b.write_smi global2 cmd v o.1)).1))
        (sym (poll_clearing-idle 99 w h))
        (record {
          value = f.value ∙ kept (dev % 32) (reg % 32);
          idle = f.idle;
          behind = λ a r. f.behind a r ∙ kept a r;
        })

  -- On a switch that is idle within 98 polls, aup_SERDES_write of mdio.c gives it the write: the
  -- registers behind the switch are what the write of the value makes of them, and the switch is left
  -- with the operation, which the function does not wait for.
  pub serdes_write-Given :
      (dev reg value : ℕ) (w : b.World)
      → c.left w < 99
      → Given b c dev reg value w (serdes_write b dev reg value w)
  unfolding serdes_write
  serdes_write-Given dev reg value w h =
      let o : ℕ × b.World = poll_busy b 100 w in
      let p : Polled b c w o.1 = poll_busy-Polled b c laws 100 w (omega arith) in
      let n : o.0 + c.left w + 1 ≡ 100 = poll_busy-counter b c laws 100 w (omega arith) in
      let w2 : b.World = b.write_smi global2 data_reg value o.1 in
      let q : Polled b c w2 (poll_busy b o.0 w2).1 =
        poll_busy-Polled b c laws o.0 w2 (omega (arith, laws.put-left value o.1, p.idle)) in
      given b c laws (command 0x400 dev reg) dev reg value w o.1 (poll_busy b o.0 w2).1
        (write_command-fields dev reg) p q

  -- The write of the sketch also waits for the operation.
  sketch_write-Given :
      (port reg value : ℕ) (w : b.World)
      → port < 32
      → reg < 32
      → c.left w < 100
      → c.turns < 100
      → (c.left (sketch_write b port reg value w) ≡ 0)
        × ((a r : ℕ)
            → c.behind a r (sketch_write b port reg value w)
              ≡ c.effect (port % 32) (reg % 32) (value % 2 ^ 16) (λ x y. c.behind x y w) a r)
  unfolding sketch_write
  sketch_write-Given port reg value w hp hr h short =
      let w1 : b.World = poll_for b 100 w in
      let p : Polled b c w w1 = poll_for-Polled b c laws 100 w h in
      let w2 : b.World = b.write_smi global2 data_reg value w1 in
      let q : Polled b c w2 (poll_for b 100 w2) =
        poll_for-Polled b c laws 100 w2 (omega (arith, laws.put-left value w1, p.idle)) in
      let v : ℕ = sketch_command 0x9400 port reg in
      let g : Given b c port reg value w (b.write_smi global2 cmd v (poll_for b 100 w2)) =
        given b c laws v port reg value w w1 (poll_for b 100 w2)
          (sketch_write_fields port reg hp hr) p q in
      let w3 : b.World = b.write_smi global2 cmd v (poll_for b 100 w2) in
      let t : Polled b c w3 (poll_for b 100 w3) =
        poll_for-Polled b c laws 100 w3 (omega (arith, g.busy)) in
      (t.idle, λ a r. t.same.behind a r ∙ g.behind a r)

  sketch_read-Fetched :
      (port reg : ℕ) (w : b.World)
      → port < 32
      → reg < 32
      → c.left w < 100
      → c.turns < 100
      → Fetched b c port reg w (sketch_read b port reg w)
  unfolding sketch_read
  sketch_read-Fetched port reg w hp hr h short =
      let w1 : b.World = poll_for b 100 w in
      let v : ℕ = sketch_command 0x9800 port reg in
      let w2 : b.World = b.write_smi global2 cmd v w1 in
      fetched b c laws v port reg w w1 (poll_for b 100 w2) (sketch_read_fields port reg hp hr)
        (poll_for-Polled b c laws 100 w h)
        (poll_for-Polled b c laws 100 w2 (omega (arith, laws.start-left v w1)))

  -- In sketch_mar28b.ino, on a switch that is idle within 99 polls now and after each operation: a
  -- read behind a write returns what the write of the sixteen digits of the value makes of that
  -- register, all registers behind the switch are what it makes of them, and the switch is idle.
  -- Unless the write selects a page or resets, that is the value, if the read is of the same register
  -- of the same device, and what the register held before, if it is of another.
  pub sketch_write-sketch_read :
      (port reg value port' reg' : ℕ) (w : b.World)
      → port < 32
      → reg < 32
      → port' < 32
      → reg' < 32
      → c.left w < 100
      → c.turns < 100
      → let after : ℕ → ℕ → ℕ =
          c.effect (port % 32) (reg % 32) (value % 2 ^ 16) (λ x y. c.behind x y w) in
        let o : ℕ × b.World = sketch_read b port' reg' (sketch_write b port reg value w) in
        (o.0 ≡ after (port' % 32) (reg' % 32))
        × ((a r : ℕ) → c.behind a r o.1 ≡ after a r)
        × (c.left o.1 ≡ 0)
        × (is_plain (reg % 32) (value % 2 ^ 16) ≡ true
            → (a r : ℕ)
            → after a r
              ≡ (if (a == port % 32) && (r == reg % 32) then value % 2 ^ 16 else c.behind a r w))
  sketch_write-sketch_read port reg value port' reg' w hp hr hp' hr' h short =
      let g = sketch_write-Given port reg value w hp hr h short in
      let f =
        sketch_read-Fetched port' reg' (sketch_write b port reg value w) hp' hr'
          (omega (arith, g.0)) short in
      (
        f.value ∙ g.1 (port' % 32) (reg' % 32),
        (λ a r. f.behind a r ∙ g.1 a r),
        f.idle,
        laws.effect-plain (port % 32) (reg % 32) (value % 2 ^ 16) (λ x y. c.behind x y w),
      )
