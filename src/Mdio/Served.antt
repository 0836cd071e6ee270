-- ===== src/Mdio/Served.antt =====
-- What a read and a write of the `mdio` device do over a controller that keeps its laws.
use open_device.Base.{
  ℕ, ◌^◌, ◌%◌, ◌<◌, ◌≤◌, ◌≡◌, true, false, ◌&&◌, ◌==◌, if◌then◌else◌, some, arith,
}
use open_device.Mdio.Bus.{
  Registers, Controller, ControllerLaws, legacy_mdio_read, legacy_mdio_write,
}
use open_device.Mdio.Transfer.{legacy_mdio_read-Fetched, legacy_mdio_write-Stored}
use open_device.Mdio.Misc.{
  UserAccess, Module, Sys, Call, demo_misc_read, demo_misc_write, deliver, moved,
}

module _ (r : Registers) (u : UserAccess) (c : Controller r) where
  -- The device is open, its driver is set up, and the fuel is enough for a transfer.
  pub record Serving (fuel : ℕ) (s : Sys r u) : Type 0 where
    pub opened : s.file.private_data ≡ true
    pub set_up : s.module_state.has_mdio ≡ true
    pub div : s.module_state.mdc_div < 8
    pub left : c.left s.module_state.world < fuel
    pub turns : c.turns < fuel

  -- The state with another controller.
  abbrev pub with_world : Sys r u → r.World → Sys r u
  with_world s w = record s { module_state = record s.module_state { world = w } }

  -- A read that gave the user the low byte of the selected register.
  pub record ReadServed (buffer count : ℕ) (s : Sys r u) (o : Call (Sys r u)) : Type 0 where
    pub after : r.World
    pub idle : c.left after ≡ 0
    pub phy : (a b : ℕ) → c.phy a b after ≡ c.phy a b s.module_state.world
    pub served :
        let v = s.module_state in
        o
        ≡ deliver r u
            (c.phy (v.ioc_phy_id % 32) (v.ioc_reg_id % 128) v.world % 256)
            buffer
            count
            (with_world s after)

  -- A write of one byte of the user to the selected register.
  pub record WriteServed (buffer count : ℕ) (s : Sys r u) (o : Call (Sys r u)) : Type 0 where
    pub after : r.World
    pub idle : c.left after ≡ 0
    pub phy :
        let v = s.module_state in
        (a b : ℕ)
        → c.phy a b after ≡ (
            if (a == v.ioc_phy_id % 32) && (b == v.ioc_reg_id % 128)
            then (u.copy_from_user buffer s.memory).1 % 2 ^ 16
            else c.phy a b v.world)
    pub served : o ≡ moved r u count (with_world s after)

module _ (r : Registers) (u : UserAccess) (c : Controller r) (laws : ControllerLaws r c) where
  -- The guards of a read that all pass.
  demo_misc_read-deliver :
      (fuel buffer count value : ℕ) (s : Sys r u) (w : r.World)
      → Serving r u c fuel s
      → s.module_state.ioc_phy_id ≤ 32
      → let v = s.module_state in
        legacy_mdio_read r fuel v.mdc_div v.ioc_phy_id v.ioc_reg_id v.world ≡ some (value, w)
        → demo_misc_read r u fuel buffer count s
          ≡ deliver r u (value % 256) buffer count (with_world r u c s w)
  unfolding demo_misc_read
  demo_misc_read-deliver fuel buffer count value s w h g e =
      let o = h.opened in let m = h.set_up in ground arith

  pub demo_misc_read-ReadServed :
      (fuel buffer count : ℕ) (s : Sys r u)
      → Serving r u c fuel s
      → s.module_state.ioc_phy_id ≤ 32
      → ReadServed r u c buffer count s (demo_misc_read r u fuel buffer count s)
  demo_misc_read-ReadServed fuel buffer count s h g =
      let v : Module r = s.module_state in
      let f =
        legacy_mdio_read-Fetched r c laws fuel v.mdc_div v.ioc_phy_id v.ioc_reg_id v.world h.left
          h.turns in
      record {
        after = f.after;
        idle = f.idle;
        phy = f.phy;
        served =
            demo_misc_read-deliver fuel buffer count
              (c.phy (v.ioc_phy_id % 32) (v.ioc_reg_id % 128) v.world) s f.after h g f.ended;
      }

  demo_misc_write-moved :
      (fuel buffer count : ℕ) (s : Sys r u) (w : r.World)
      → Serving r u c fuel s
      → s.module_state.ioc_phy_id ≤ 32
      → (u.copy_from_user buffer s.memory).0 ≡ false
      → let v = s.module_state in
        legacy_mdio_write r fuel v.mdc_div v.ioc_phy_id v.ioc_reg_id
            (u.copy_from_user buffer s.memory).1
            v.world
          ≡ some w
        → demo_misc_write r u fuel buffer count s ≡ moved r u count (with_world r u c s w)
  unfolding demo_misc_write
  demo_misc_write-moved fuel buffer count s w h g f e =
      let o = h.opened in let m = h.set_up in ground arith

  pub demo_misc_write-WriteServed :
      (fuel buffer count : ℕ) (s : Sys r u)
      → Serving r u c fuel s
      → s.module_state.ioc_phy_id ≤ 32
      → (u.copy_from_user buffer s.memory).0 ≡ false
      → WriteServed r u c buffer count s (demo_misc_write r u fuel buffer count s)
  demo_misc_write-WriteServed fuel buffer count s h g k =
      let v : Module r = s.module_state in
      let f =
        legacy_mdio_write-Stored r c laws fuel v.mdc_div v.ioc_phy_id v.ioc_reg_id
          (u.copy_from_user buffer s.memory).1 v.world h.div (omega (arith, h.left)) h.turns in
      record {
        after = f.after;
        idle = f.idle;
        phy = f.phy;
        served = demo_misc_write-moved fuel buffer count s f.after h g k f.ended;
      }
