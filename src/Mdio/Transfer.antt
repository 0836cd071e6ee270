-- ===== src/Mdio/Transfer.antt =====
-- A transfer over a controller that keeps its laws ends, and reads or writes the register of the PHY.
use open_device.Base.{
  ℕ, zero, suc, ◌-◌, ◌/◌, ◌%◌, ◌^◌, ◌≤◌, ◌<◌, ◌≡◌, ◌∙◌, refl, ap, ap₂, Option, some, not, ◌&&◌,
  ◌==◌, if◌then◌else◌, if_cases, bit_and, arith,
}
use open_device.Mdio.Command.{geth_mdio_addr, geth_mdio_data, mii_busy, read_command, write_command}
use open_device.Mdio.Fields.{read_command_lem, write_command_lem}
use open_device.Mdio.Bus.{
  Registers, wait_idle, legacy_mdio_read, legacy_mdio_write, Controller, ControllerLaws, Same,
}

-- The fields the controller reads in a command.
read_fields :
    (div phyaddr phyreg : ℕ)
    → let v : ℕ = read_command div phyaddr phyreg in
      (v % 4 ≡ 1) × ((v / 2 ^ 12 % 32 ≡ phyaddr % 32) × (v / 2 ^ 4 % 128 ≡ phyreg % 128))
read_fields div phyaddr phyreg =
    let e = read_command_lem div phyaddr phyreg in (omega arith, (omega arith, omega arith))

write_fields :
    (old div phyaddr phyreg : ℕ)
    → div < 8
    → let v : ℕ = write_command old div phyaddr phyreg in
      (v % 4 ≡ 3) × ((v / 2 ^ 12 % 32 ≡ phyaddr % 32) × (v / 2 ^ 4 % 128 ≡ phyreg % 128))
write_fields old div phyaddr phyreg h =
    let e = write_command_lem old div phyaddr phyreg h in (omega arith, (omega arith, omega arith))

module _ (r : Registers) (c : Controller r) where
  open r use {World, readl, writel}

  Same-trans : (u v w : World) → Same r c u v → Same r c v w → Same r c u w
  Same-trans u v w s t = record {
    phy = λ a b. t.phy a b ∙ s.phy a b;
    latched = t.latched ∙ s.latched;
  }

  -- A wait that ended.
  record Waited (w : World) (o : Option World) : Type 0 where
    after : World
    ended : o ≡ some after
    idle : c.left after ≡ 0
    same : Same r c w after

  -- A read that ended with what register `b` of PHY `a` holds.
  pub record Fetched (a b : ℕ) (w : World) (o : Option (ℕ × World)) : Type 0 where
    pub after : World
    pub ended : o ≡ some (c.phy a b w, after)
    pub idle : c.left after ≡ 0
    pub phy : (a' b' : ℕ) → c.phy a' b' after ≡ c.phy a' b' w

  -- A write that ended: register `b` of PHY `a` holds `value`, the others what they held.
  pub record Stored (a b value : ℕ) (w : World) (o : Option World) : Type 0 where
    pub after : World
    pub ended : o ≡ some after
    pub idle : c.left after ≡ 0
    pub phy :
        (a' b' : ℕ) → c.phy a' b' after ≡ (if (a' == a) && (b' == b) then value else c.phy a' b' w)

module _ (r : Registers) (c : Controller r) (laws : ControllerLaws r c) where
  open r use {World, readl, writel}

  wait_idle-Waited : (fuel : ℕ) (w : World) → c.left w < fuel → Waited r c w (wait_idle r fuel w)
  unfolding wait_idle
  wait_idle-Waited zero w h = absurd (omega arith)
  wait_idle-Waited (suc fuel) w h =
      let v : World = (readl geth_mdio_addr w).1 in
      let b : (bit_and (readl geth_mdio_addr w).0 mii_busy == 1) ≡ not (c.left w == 0) =
        laws.poll-busy w in
      let l : c.left v ≡ c.left w - 1 = laws.poll-left w in
      if_cases (λ o. Waited r c w o) (bit_and (readl geth_mdio_addr w).0 mii_busy == 1)
        (λ e.
          let n : 0 < c.left w = ground arith in
          let t : Waited r c v (wait_idle r fuel v) = wait_idle-Waited fuel v (omega arith) in
          record {
            after = t.after;
            ended = t.ended;
            idle = t.idle;
            same = Same-trans r c w v t.after (laws.poll-Same w) t.same;
          })
        (λ e.
          let n : c.left w ≡ 0 = ground arith in
          record { after = v; ended = refl; idle = omega arith; same = laws.poll-Same w })

  -- The two waits of a read that end.
  read_waits :
      (fuel div phyaddr phyreg : ℕ) (w w1 w2 : World)
      → wait_idle r fuel w ≡ some w1
      → wait_idle r fuel (writel geth_mdio_addr (read_command div phyaddr phyreg) w1) ≡ some w2
      → legacy_mdio_read r fuel div phyaddr phyreg w ≡ some (readl geth_mdio_data w2)
  unfolding legacy_mdio_read
  read_waits fuel div phyaddr phyreg w w1 w2 e f = ground arith

  -- Over a controller that keeps its laws, with fuel above the reads for which it is or gets busy: a
  -- read ends, with what the register holds, of the PHY and the register that the addresses give modulo
  -- 32 and 128; no register changes, and the controller is idle.
  pub legacy_mdio_read-Fetched :
      (fuel div phyaddr phyreg : ℕ) (w : World)
      → c.left w < fuel
      → c.turns < fuel
      → Fetched r c (phyaddr % 32) (phyreg % 128) w (legacy_mdio_read r fuel div phyaddr phyreg w)
  legacy_mdio_read-Fetched fuel div phyaddr phyreg w h g =
      let v : ℕ = read_command div phyaddr phyreg in
      let (kind, (isphy, isreg)) = read_fields div phyaddr phyreg in
      let first : Waited r c w (wait_idle r fuel w) = wait_idle-Waited fuel w h in
      let started : World = writel geth_mdio_addr v first.after in
      let second : Waited r c started (wait_idle r fuel started) =
        wait_idle-Waited fuel started (omega (arith, laws.start-left v first.after)) in
      let idle : World = second.after in
      let value : (readl geth_mdio_data idle).0 ≡ c.phy (phyaddr % 32) (phyreg % 128) w =
        laws.data-value idle second.idle
        ∙ second.same.latched
        ∙ laws.read-latched v first.after first.idle kind
        ∙ ap₂ (λ a b. c.phy a b first.after) isphy isreg
        ∙ first.same.phy (phyaddr % 32) (phyreg % 128) in
      record {
        after = (readl geth_mdio_data idle).1;
        ended =
            read_waits fuel div phyaddr phyreg w first.after idle first.ended second.ended
            ∙ ap (λ n. some (n, (readl geth_mdio_data idle).1)) value;
        idle = laws.data-left idle ∙ second.idle;
        phy = λ a b.
            (laws.data-Same idle).phy a b
            ∙ second.same.phy a b
            ∙ laws.read-phy a b v first.after first.idle kind
            ∙ first.same.phy a b;
      }

  write_waits :
      (fuel div phyaddr phyreg value : ℕ) (w w1 w2 : World)
      → let v : ℕ = write_command (readl geth_mdio_addr w).0 div phyaddr phyreg in
        wait_idle r fuel (readl geth_mdio_addr w).1 ≡ some w1
        → wait_idle r fuel (writel geth_mdio_addr v (writel geth_mdio_data value w1)) ≡ some w2
        → legacy_mdio_write r fuel div phyaddr phyreg value w ≡ some w2
  unfolding legacy_mdio_write
  write_waits fuel div phyaddr phyreg value w w1 w2 e f = ground arith

  -- Over a controller that keeps its laws, with a divider of three digits and fuel that is no less than
  -- the reads for which it is busy and above those for which it gets busy: a write ends, the register
  -- of the PHY that the addresses give modulo 32 and 128 holds the low 16 digits of the value, every
  -- other register is what it was, and the controller is idle.
  pub legacy_mdio_write-Stored :
      (fuel div phyaddr phyreg value : ℕ) (w : World)
      → div < 8
      → c.left w ≤ fuel
      → c.turns < fuel
      → Stored r c
          (phyaddr % 32)
          (phyreg % 128)
          (value % 2 ^ 16)
          w
          (legacy_mdio_write r fuel div phyaddr phyreg value w)
  legacy_mdio_write-Stored fuel div phyaddr phyreg value w d h g =
      let v : ℕ = write_command (readl geth_mdio_addr w).0 div phyaddr phyreg in
      let (kind, (isphy, isreg)) = write_fields (readl geth_mdio_addr w).0 div phyaddr phyreg d in
      let w0 : World = (readl geth_mdio_addr w).1 in
      let first : Waited r c w0 (wait_idle r fuel w0) =
        wait_idle-Waited fuel w0 (omega (arith, laws.poll-left w)) in
      let put : World = writel geth_mdio_data value first.after in
      let quiet : c.left put ≡ 0 = laws.put-left value first.after ∙ first.idle in
      let started : World = writel geth_mdio_addr v put in
      let second : Waited r c started (wait_idle r fuel started) =
        wait_idle-Waited fuel started (omega (arith, laws.start-left v put)) in
      record {
        after = second.after;
        ended =
            write_waits fuel div phyaddr phyreg value w first.after second.after first.ended
              second.ended;
        idle = second.idle;
        phy = λ a b.
            second.same.phy a b
            ∙ laws.write-phy a b v put quiet kind
            ∙ ap₂ (λ x y. if (a == x) && (b == y) then c.latched put else c.phy a b put) isphy isreg
            ∙ ap₂ (λ x y. if (a == phyaddr % 32) && (b == phyreg % 128) then x else y)
                (laws.put-latched value first.after)
                (laws.put-phy a b value first.after
                  ∙ first.same.phy a b
                  ∙ (laws.poll-Same w).phy a b);
      }
