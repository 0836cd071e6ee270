-- ===== src/Smi/Guarded.antt =====
-- Which addresses the menu lets through to the bus.
use open_device.Base.{ℕ, zero, suc, ◌+◌, ◌%◌, ◌^◌, ◌<◌, ◌≤◌, ◌==◌, ltb, if_cases, bit_and, arith}
use open_device.Smi.Serdes.{
  SmiBus, global2, cmd, data_reg, command, poll_busy, poll_clearing, serdes_read, serdes_write,
}
use open_device.Smi.Indirect.{read_command-fields, write_command-fields}
use open_device.Smi.Menu.{Session, parse_int, ask, show, ask_address, dump_port, dump_ports}

-- A property of the world that every access with five digits of the PHY and of the register keeps,
-- and sixteen of a value.
pub record Keeps (b : SmiBus) (P : b.World → Type 0) : Type 0 where
  pub read : (phy reg : ℕ) (w : b.World) → phy < 32 → reg < 32 → P w → P (b.read_smi phy reg w).1
  pub write :
      (phy reg v : ℕ) (w : b.World)
      → phy < 32
      → reg < 32
      → v < 2 ^ 16
      → P w
      → P (b.write_smi phy reg v w)

module _ (b : SmiBus) (P : b.World → Type 0) (keeps : Keeps b P) where
  poll_busy-Keeps : (i : ℕ) (w : b.World) → P w → P (poll_busy b i w).1
  unfolding poll_busy
  poll_busy-Keeps zero w h = h
  poll_busy-Keeps (suc i) w h =
      let w1 : b.World = (b.read_smi global2 cmd w).1 in
      let h1 : P w1 = keeps.read global2 cmd w (omega arith) (omega arith) h in
      if_cases (λ (o : ℕ × b.World). P o.1) (bit_and (b.read_smi global2 cmd w).0 0x8000 == 0)
        (λ _. h1) (λ _. poll_busy-Keeps i w1 h1)

  poll_clearing-Keeps : (i : ℕ) (w : b.World) → P w → P (poll_clearing b i w).1
  unfolding poll_clearing
  poll_clearing-Keeps zero w h = h
  poll_clearing-Keeps (suc i) w h =
      let w0 : b.World = b.write_smi global2 data_reg 0 w in
      let w1 : b.World = (b.read_smi global2 cmd w0).1 in
      let h0 : P w0 =
        keeps.write global2 data_reg 0 w (omega arith) (omega arith) (omega arith) h in
      let h1 : P w1 = keeps.read global2 cmd w0 (omega arith) (omega arith) h0 in
      if_cases (λ (o : ℕ × b.World). P o.1) (bit_and (b.read_smi global2 cmd w0).0 0x8000 == 0)
        (λ _. h1) (λ _. poll_clearing-Keeps i w1 h1)

  pub serdes_read-Keeps : (dev reg : ℕ) (w : b.World) → P w → P (serdes_read b dev reg w).1
  unfolding serdes_read
  serdes_read-Keeps dev reg w h =
      let o : ℕ × b.World = poll_clearing b 100 w in
      let v : ℕ = command 0x800 dev reg in
      let w2 : b.World = b.write_smi global2 cmd v o.1 in
      let h2 : P w2 =
        keeps.write global2 cmd v o.1 (omega arith) (omega arith)
          (omega (arith, read_command-fields dev reg)) (poll_clearing-Keeps 100 w h) in
      keeps.read global2 data_reg (poll_busy b o.0 w2).1 (omega arith) (omega arith)
        (poll_busy-Keeps o.0 w2 h2)

  pub serdes_write-Keeps :
      (dev reg v : ℕ) (w : b.World) → v < 2 ^ 16 → P w → P (serdes_write b dev reg v w)
  unfolding serdes_write
  serdes_write-Keeps dev reg v w few h =
      let o : ℕ × b.World = poll_busy b 100 w in
      let w2 : b.World = b.write_smi global2 data_reg v o.1 in
      let h2 : P w2 =
        keeps.write global2 data_reg v o.1 (omega arith) (omega arith) few
          (poll_busy-Keeps 100 w h) in
      keeps.write global2 cmd (command 0x400 dev reg) (poll_busy b o.0 w2).1 (omega arith)
        (omega arith) (omega (arith, write_command-fields dev reg)) (poll_busy-Keeps o.0 w2 h2)

  pub ask_address-Keeps :
      (k : ℕ → ℕ → Session b → Session b)
      → ((phy reg : ℕ) (s : Session b) → phy < 32 → reg < 32 → P s.world → P (k phy reg s).world)
      → (s : Session b) → P s.world
      → P (ask_address b k s).world
  unfolding ask_address ask
  ask_address-Keeps k each s h =
      let phy : ℕ = (parse_int s.input).0 % 2 ^ 8 in
      let t : Session b = record s { input = (parse_int s.input).1 } in
      let reg : ℕ = (parse_int t.input).0 % 2 ^ 8 in
      if_cases (λ (u : Session b). P u.world) (ltb 31 phy) (λ _. h)
        (λ p.
          if_cases (λ (u : Session b). P u.world) (ltb 31 reg) (λ _. h)
            (λ r.
              each phy reg (record t { input = (parse_int t.input).1 }) (ground arith)
                (ground arith) h))

  -- A dump whose reads keep the property for the ports below `top`.
  module _ (read : ℕ → ℕ → b.World → ℕ × b.World) (top : ℕ)
      (each : (phy reg : ℕ) (w : b.World) → phy < top → reg < 32 → P w → P (read phy reg w).1) where
    dump_port-Keeps :
        (n phy reg : ℕ) (s : Session b)
        → phy < top
        → n + reg ≤ 32
        → P s.world
        → P (dump_port b read n phy reg s).world
    unfolding dump_port show
    dump_port-Keeps zero phy reg s p r h = h
    dump_port-Keeps (suc n) phy reg s p r h =
        dump_port-Keeps n phy (reg + 1) _ p (omega arith) (each phy reg s.world p (omega arith) h)

    pub dump_ports-Keeps :
        (n phy : ℕ) (s : Session b)
        → n + phy ≤ top
        → P s.world
        → P (dump_ports b read n phy s).world
    unfolding dump_ports
    dump_ports-Keeps zero phy s p h = h
    dump_ports-Keeps (suc n) phy s p h =
        dump_ports-Keeps n (phy + 1) (dump_port b read 32 phy 0 s) (omega arith)
          (dump_port-Keeps 32 phy 0 s (omega arith) (omega arith) h)
