-- ===== src/Mdio/Api.antt =====
-- The functions of the user program over a controller and a memory that keep their laws.
use open_device.Base.{
  ℕ, ◌+◌, ◌^◌, ◌%◌, ◌<◌, ◌≤◌, ◌≡◌, ◌∙◌, refl, ap, none, false, ◌&&◌, ◌==◌, if◌then◌else◌, some, ℤ,
  pos, ok, arith,
}
use open_device.Mdio.Bus.{Registers, Controller, ControllerLaws}
use open_device.Mdio.Misc.{
  UserAccess, Module, Sys, Call, back, ioctl_call, demo_misc_read, demo_misc_write, deliver, moved,
}
use open_device.Mdio.Served.{
  Serving, demo_misc_read-ReadServed, demo_misc_write-WriteServed, with_world,
}
use open_device.Mdio.User.{
  UserMemory, Stack, assign, set_regid, mdio_read, mdio_write, mdio_ioc_set_phyid,
  mdio_ioc_set_regid,
}

-- What the program relies on of its memory and of the kernel: its variables can be accessed, and what was
-- stored is what is read. The command 1 goes to the driver. The command 2 is `FIGETBSZ`: the kernel answers
-- it with the block size of the file system, an `int` at the address that it is given. `value` is not in
-- those four bytes.
pub record UserLaws (u : UserAccess) (p : UserMemory u) (at : Stack) : Type 0 where
  pub sized : u.Memory → u.Memory
  pub vfs-figetbsz : (m : u.Memory) → u.vfs mdio_ioc_set_regid at.reg m ≡ some (ok, sized m)
  pub vfs-passes : (m : u.Memory) → u.vfs mdio_ioc_set_phyid at.id m ≡ none
  pub get_user-id :
      (v : ℕ) (m : u.Memory) → v < 2 ^ 32 → (u.get_user at.id (p.store_int at.id v m)).1 ≡ v
  pub copy_from_user-value :
      (v b : ℕ) (m : u.Memory)
      → u.copy_from_user at.value (sized (p.store at.reg b (p.store at.value v m)))
        ≡ (false, v % 256)
  pub cleared : u.Memory → u.Memory
  pub memset-value : (m : u.Memory) → u.memset at.value 1 m ≡ some (cleared m)
  pub copy_to_user-value : (b : ℕ) (m : u.Memory) → (u.copy_to_user at.value b m).0 ≡ false
  pub load-value :
      (b : ℕ) (m : u.Memory) → p.load at.value (u.copy_to_user at.value b m).1 ≡ b % 256

module _ (r : Registers) (u : UserAccess) (c : Controller r) where
  abbrev pub reads : ℕ → ℕ → Sys r u → ℕ
  reads a b s = c.phy a b s.module_state.world

  -- A call of the program on `s` that ended with `n`: the registers of the PHYs are now `regs`, and the
  -- device is ready for the next call, with PHY `id` and register `reg` selected.
  pub record Ready (fuel id reg : ℕ) (n : ℤ) (regs : ℕ → ℕ → ℕ) (o : Call (Sys r u)) : Type 0 where
    pub after : Sys r u
    pub ended : o ≡ back n after
    pub serving : Serving r u c fuel after
    pub selected : after.module_state.ioc_phy_id ≡ id
    pub register : after.module_state.ioc_reg_id ≡ reg
    pub phy : (a b : ℕ) → reads a b after ≡ regs a b

module _ (r : Registers) (u : UserAccess) (p : UserMemory u) (at : Stack) (c : Controller r)
    (laws : ControllerLaws r c) (user : UserLaws u p at) where
  deliver-value :
      (b : ℕ) (s : Sys r u)
      → deliver r u b at.value 1 s
        ≡ moved r u 1 (record s { memory = (u.copy_to_user at.value b (user.cleared s.memory)).1 })
  unfolding deliver
  deliver-value b s =
      let e = user.memset-value s.memory in
      let f = user.copy_to_user-value b (user.cleared s.memory) in ground arith

  -- The selection of a register never comes to the driver.
  set_regid_lem : (s : Sys r u) → set_regid r u p at s ≡ record s { memory = user.sized s.memory }
  unfolding set_regid ioctl_call
  set_regid_lem s = rw (user.vfs-figetbsz s.memory, set_regid, ioctl_call) refl

  mdio_read_back :
      (fuel reg : ℕ) (s t : Sys r u) (n : ℤ)
      → demo_misc_read r u fuel at.value 1 (set_regid r u p at (assign r u p at at.reg reg s))
        ≡ back n t
      → mdio_read r u p at fuel reg s ≡ back (pos (p.load at.value t.memory)) t
  unfolding mdio_read
  mdio_read_back fuel reg s t n e = ground arith

  pub mdio_read-Ready :
      (fuel reg : ℕ) (s : Sys r u)
      → Serving r u c fuel s
      → s.module_state.ioc_phy_id ≤ 32
      → let id : ℕ = s.module_state.ioc_phy_id in
        let last : ℕ = s.module_state.ioc_reg_id in
        Ready r u c fuel id last
          (pos (reads r u c (id % 32) (last % 128) s % 256))
          (λ a b. reads r u c a b s)
          (mdio_read r u p at fuel reg s)
  mdio_read-Ready fuel reg s h g =
      let v : Module r = s.module_state in
      let t : Sys r u = record s { memory = user.sized (p.store at.reg reg s.memory) } in
      let ht : Serving r u c fuel t = record {
        opened = h.opened;
        set_up = h.set_up;
        div = h.div;
        left = h.left;
        turns = h.turns;
      } in
      let f = demo_misc_read-ReadServed r u c laws fuel at.value 1 t ht g in
      let byte : ℕ = c.phy (v.ioc_phy_id % 32) (v.ioc_reg_id % 128) v.world % 256 in
      let given : Sys r u = with_world r u c t f.after in
      let m : u.Memory = (u.copy_to_user at.value byte (user.cleared given.memory)).1 in
      let z : Sys r u = record given {
        memory = m;
        file = record given.file { offset = (given.file.offset + 1) % 2 ^ 64 };
      } in
      record {
        after = z;
        ended =
            mdio_read_back fuel reg s z (pos 1) (
              ap (demo_misc_read r u fuel at.value 1) (set_regid_lem (assign r u p at at.reg reg s))
              ∙ f.served
              ∙ deliver-value byte given)
            ∙ ap (λ n. back (pos n) z)
                (omega (arith, user.load-value byte (user.cleared given.memory)));
        serving = record {
          opened = h.opened;
          set_up = h.set_up;
          div = h.div;
          left = omega (arith, f.idle, h.turns);
          turns = h.turns;
        };
        selected = refl;
        register = refl;
        phy = f.phy;
      }

  mdio_write_back :
      (fuel reg value : ℕ) (s t : Sys r u) (n : ℤ)
      → demo_misc_write r u fuel at.value 1
          (set_regid r u p at (assign r u p at at.reg reg (assign r u p at at.value value s)))
        ≡ back n t
      → mdio_write r u p at fuel reg value s ≡ back ok t
  unfolding mdio_write
  mdio_write_back fuel reg value s t n e = ground arith

  pub mdio_write-Ready :
      (fuel reg value : ℕ) (s : Sys r u)
      → Serving r u c fuel s
      → s.module_state.ioc_phy_id ≤ 32
      → let id : ℕ = s.module_state.ioc_phy_id in
        let last : ℕ = s.module_state.ioc_reg_id in
        Ready r u c fuel id last ok
          (λ a b. if (a == id % 32) && (b == last % 128) then value % 256 else reads r u c a b s)
          (mdio_write r u p at fuel reg value s)
  mdio_write-Ready fuel reg value s h g =
      let v : Module r = s.module_state in
      let stored : Sys r u = assign r u p at at.reg reg (assign r u p at at.value value s) in
      let t : Sys r u = record stored { memory = user.sized stored.memory } in
      let ht : Serving r u c fuel t = record {
        opened = h.opened;
        set_up = h.set_up;
        div = h.div;
        left = h.left;
        turns = h.turns;
      } in
      let copied : u.copy_from_user at.value t.memory ≡ (false, value % 256) =
        user.copy_from_user-value value reg s.memory in
      let f =
        demo_misc_write-WriteServed r u c laws fuel at.value 1 t ht g (ap (λ x. x.0) copied) in
      let given : Sys r u = with_world r u c t f.after in
      let z : Sys r u = record given {
        file = record given.file { offset = (given.file.offset + 1) % 2 ^ 64 };
      } in
      record {
        after = z;
        ended =
            mdio_write_back fuel reg value s z (pos 1)
              (ap (demo_misc_write r u fuel at.value 1) (set_regid_lem stored) ∙ f.served);
        serving = record {
          opened = h.opened;
          set_up = h.set_up;
          div = h.div;
          left = omega (arith, f.idle, h.turns);
          turns = h.turns;
        };
        selected = refl;
        register = refl;
        phy = λ a b.
            f.phy a b
            ∙ ap
                (λ y.
                  if (a == v.ioc_phy_id % 32) && (b == v.ioc_reg_id % 128)
                  then y
                  else reads r u c a b s)
                (ap (λ x. x.1 % 2 ^ 16) copied ∙ omega arith);
      }
