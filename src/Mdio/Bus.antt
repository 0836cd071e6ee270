-- ===== src/Mdio/Bus.antt =====
-- The transfers over the controller, `legacy_mdio_read` and `legacy_mdio_write`. The registers are
-- memory of the controller: a read may change it.
use open_device.Base.{
  ℕ, zero, suc, ◌-◌, ◌/◌, ◌%◌, ◌^◌, ◌≤◌, ◌≡◌, Option, none, some, not, ◌&&◌, ◌==◌, if◌then◌else◌,
  bit_and,
}
use open_device.Mdio.Command.{geth_mdio_addr, geth_mdio_data, mii_busy, read_command, write_command}

pub record Registers : Type 1 where
  pub World : Type 0
  pub readl : ℕ → World → ℕ × World
  pub writel : ℕ → ℕ → World → World

module _ (r : Registers) where
  open r use {World, readl, writel}

  -- `while ((readl(iobase + GETH_MDIO_ADDR) & MII_BUSY) == 1);` on fuel; `none` is fuel that ran out.
  unfoldable pub wait_idle : ℕ → World → Option World
  wait_idle zero w = none
  wait_idle (suc fuel) w =
      let further = wait_idle fuel (readl geth_mdio_addr w).1 in
      if bit_and (readl geth_mdio_addr w).0 mii_busy == 1
      then further
      else some (readl geth_mdio_addr w).1

  -- `legacy_mdio_read`; the fuel is that of each wait.
  unfoldable pub legacy_mdio_read : ℕ → ℕ → ℕ → ℕ → World → Option (ℕ × World)
  legacy_mdio_read fuel div phyaddr phyreg w = elim (wait_idle fuel w) [
    | none ↦ none
    | some w1 ↦ elim (wait_idle fuel (writel geth_mdio_addr (read_command div phyaddr phyreg) w1)) [
      | none ↦ none
      | some w2 ↦ some (readl geth_mdio_data w2)
    ]
  ]

  -- `legacy_mdio_write`: the command is made from the address register before the first wait.
  unfoldable pub legacy_mdio_write : ℕ → ℕ → ℕ → ℕ → ℕ → World → Option World
  legacy_mdio_write fuel div phyaddr phyreg value w =
      let (old, w0) = readl geth_mdio_addr w in
      elim (wait_idle fuel w0) [
        | none ↦ none
        | some w1 ↦ wait_idle fuel (
            writel geth_mdio_addr (write_command old div phyaddr phyreg)
              (writel geth_mdio_data value w1))
      ]

-- What is documented of the controller. `phy a b` is register `b` of PHY `a`, `left` the number of
-- reads of the address register that still show it busy, `latched` its data register.
pub record Controller (r : Registers) : Type 0 where
  pub phy : ℕ → ℕ → r.World → ℕ
  pub left : r.World → ℕ
  pub latched : r.World → ℕ
  pub turns : ℕ

-- Nothing but the time has changed.
pub record Same (r : Registers) (c : Controller r) (w w' : r.World) : Type 0 where
  pub phy : (a b : ℕ) → c.phy a b w' ≡ c.phy a b w
  pub latched : c.latched w' ≡ c.latched w

-- The laws of the controller: the busy digit shows what is left of a transfer, and a read of it lets
-- time pass; a command that is written with the busy digit set starts a transfer, of `turns` reads at
-- most, whose result is there when it is idle again.
pub record ControllerLaws (r : Registers) (c : Controller r) : Type 0 where
  pub poll-busy :
      (w : r.World) → (bit_and (r.readl geth_mdio_addr w).0 mii_busy == 1) ≡ not (c.left w == 0)
  pub poll-left : (w : r.World) → c.left (r.readl geth_mdio_addr w).1 ≡ c.left w - 1
  pub poll-Same : (w : r.World) → Same r c w (r.readl geth_mdio_addr w).1
  pub data-value : (w : r.World) → c.left w ≡ 0 → (r.readl geth_mdio_data w).0 ≡ c.latched w
  pub data-left : (w : r.World) → c.left (r.readl geth_mdio_data w).1 ≡ c.left w
  pub data-Same : (w : r.World) → Same r c w (r.readl geth_mdio_data w).1
  pub put-latched : (v : ℕ) (w : r.World) → c.latched (r.writel geth_mdio_data v w) ≡ v % 2 ^ 16
  pub put-left : (v : ℕ) (w : r.World) → c.left (r.writel geth_mdio_data v w) ≡ c.left w
  pub put-phy : (a b v : ℕ) (w : r.World) → c.phy a b (r.writel geth_mdio_data v w) ≡ c.phy a b w
  pub start-left : (v : ℕ) (w : r.World) → c.left (r.writel geth_mdio_addr v w) ≤ c.turns
  pub read-latched :
      (v : ℕ) (w : r.World)
      → c.left w ≡ 0
      → v % 4 ≡ 1
      → c.latched (r.writel geth_mdio_addr v w) ≡ c.phy (v / 2 ^ 12 % 32) (v / 2 ^ 4 % 128) w
  pub read-phy :
      (a b v : ℕ) (w : r.World)
      → c.left w ≡ 0
      → v % 4 ≡ 1
      → c.phy a b (r.writel geth_mdio_addr v w) ≡ c.phy a b w
  pub write-phy :
      (a b v : ℕ) (w : r.World)
      → c.left w ≡ 0
      → v % 4 ≡ 3
      → c.phy a b (r.writel geth_mdio_addr v w)
        ≡ (if (a == v / 2 ^ 12 % 32) && (b == v / 2 ^ 4 % 128) then c.latched w else c.phy a b w)
