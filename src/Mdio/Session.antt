-- ===== src/Mdio/Session.antt =====
-- Calls of the user program one after the other, up to its `main`.
use open_device.Base.{ℕ, ◌%◌, ◌<◌, ◌≡◌, true, false, ◌&&◌, ◌==◌, if◌then◌else◌, ℤ}
use open_device.Mdio.Bus.{Registers, Controller, ControllerLaws}
use open_device.Mdio.Misc.{UserAccess, Sys, Call, back, demo_misc_open, demo_misc_ioctl}
use open_device.Mdio.User.{UserMemory, Stack}
use open_device.Mdio.Api.{UserLaws, reads}

-- The registers of the PHYs, one of them written.
abbrev pub written : ℕ → ℕ → ℕ → (ℕ → ℕ → ℕ) → ℕ → ℕ → ℕ
written id reg value regs a b = if (a == id % 32) && (b == reg % 128) then value % 256 else regs a b

module _ (r : Registers) (u : UserAccess) (c : Controller r) where
  -- The device before `open`: its driver is set up.
  pub record SetUp (fuel : ℕ) (s : Sys r u) : Type 0 where
    pub private : s.module_state.misc_priv ≡ true
    pub has_mdio : s.module_state.has_mdio ≡ true
    pub div : s.module_state.mdc_div < 8
    pub left : c.left s.module_state.world < fuel
    pub turns : c.turns < fuel

  -- The end of `main`: it prints `n`, the registers are `regs`, the file is closed.
  pub record Done (n : ℤ) (regs : ℕ → ℕ → ℕ) (o : Call (Sys r u)) : Type 0 where
    pub last : Sys r u
    pub ended : o ≡ back n last
    pub phy : (a b : ℕ) → reads r u c a b last ≡ regs a b
    pub closed : last.file.private_data ≡ false

module _ (r : Registers) (u : UserAccess) (p : UserMemory u) (at : Stack) (c : Controller r)
    (laws : ControllerLaws r c) (user : UserLaws u p at) where
  -- The file is open, and the driver has PHY `id`.
  opened : ℕ → Sys r u → Sys r u
  opened id s =
      let t : Sys r u = (demo_misc_open r u s).1 in
      (demo_misc_ioctl r u 1 at.id (record t { memory = p.store_int at.id id t.memory })).1
