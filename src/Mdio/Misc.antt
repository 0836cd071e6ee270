-- ===== src/Mdio/Misc.antt =====
-- The file operations of the `mdio` misc device, `demo_misc_*` of MDIO_MISC.c. An `int` or an `unsigned
-- long` is its word of 32 bits, a `char` its byte; each operation has the fuel of the busy waits.
use open_device.Base.{
  ℕ, ◌+◌, ◌^◌, ◌%◌, Bool, false, not, ◌==◌, ltb, if◌then◌else◌, Option, none, some, ℤ, pos, ok,
  einval, efault,
}
use open_device.Mdio.Bus.{Registers, legacy_mdio_read, legacy_mdio_write}

-- The accesses to the memory of the user: `__get_user` and `__put_user` of an `int`, `copy_from_user`
-- and `copy_to_user` of one byte (true: it failed), and `memset` to 0, where `none` is a fault.
-- `vfs` is what the kernel itself answers to an ioctl on a file of any kind; at `none` it calls the driver.
pub record UserAccess : Type 1 where
  pub Memory : Type 0
  pub get_user : ℕ → Memory → ℤ × ℕ
  pub put_user : ℕ → ℕ → Memory → ℤ × Memory
  pub copy_from_user : ℕ → Memory → Bool × ℕ
  pub copy_to_user : ℕ → ℕ → Memory → Bool × Memory
  pub memset : ℕ → ℕ → Memory → Option Memory
  pub vfs : ℕ → ℕ → Memory → Option (ℤ × Memory)

-- `struct file`: whether `private_data` is set, and its offset.
pub record File : Type 0 where
  pub private_data : Bool
  pub offset : ℕ

-- `enum DEMO_MDIO_IOCTRL`.
abbrev pub mdio_set_phy_id : ℕ
mdio_set_phy_id = 1

abbrev pub mdio_set_reg_id : ℕ
mdio_set_reg_id = 2

abbrev pub mdio_get_phy_id : ℕ
mdio_get_phy_id = 3

abbrev pub mdio_get_reg_id : ℕ
mdio_get_reg_id = 4

-- What becomes of a call: it returns, it follows a pointer of the driver that is not one, it faults at
-- the `memset` of a pointer of the user, or its fuel runs out.
pub data Call (A : Type 0) : Type 0 where
  back : ℤ → A → Call A
  oops : Call A
  fault : Call A
  spinning : Call A

-- The variables of the module, and the controller. `has_mdio` is `misc_priv->mdio` being set.
pub record Module (r : Registers) : Type 0 where
  pub misc_priv : Bool
  pub has_mdio : Bool
  pub ioc_phy_id : ℕ
  pub ioc_reg_id : ℕ
  pub mdc_div : ℕ
  pub world : r.World

-- All that a call can change.
pub record Sys (r : Registers) (u : UserAccess) : Type 0 where
  pub file : File
  pub module_state : Module r
  pub memory : u.Memory

module _ (r : Registers) (u : UserAccess) where
  unfoldable pub demo_misc_open : Sys r u → ℤ × Sys r u
  demo_misc_open s =
      (ok, record s { file = record s.file { private_data = s.module_state.misc_priv } })

  unfoldable pub demo_misc_release : Sys r u → ℤ × Sys r u
  demo_misc_release s = (ok, record s { file = record s.file { private_data = false } })

  unfoldable pub demo_misc_ioctl : ℕ → ℕ → Sys r u → ℤ × Sys r u
  demo_misc_ioctl cmd arg s =
      let got = u.get_user arg s.memory in
      let put_phy = u.put_user arg s.module_state.ioc_phy_id s.memory in
      let put_reg = u.put_user arg s.module_state.ioc_reg_id s.memory in
      if cmd == mdio_set_phy_id
      then (got.0, record s { module_state = record s.module_state { ioc_phy_id = got.1 } })
      else if cmd == mdio_set_reg_id
      then (got.0, record s { module_state = record s.module_state { ioc_reg_id = got.1 } })
      else if cmd == mdio_get_phy_id
      then (put_phy.0, record s { memory = put_phy.1 })
      else if cmd == mdio_get_reg_id
      then (put_reg.0, record s { memory = put_reg.1 })
      else (einval, s)

  -- An ioctl, as the kernel hands it to the driver or answers it.
  unfoldable pub ioctl_call : ℕ → ℕ → Sys r u → ℤ × Sys r u
  ioctl_call cmd arg s = elim (u.vfs cmd arg s.memory) [
    | none ↦ demo_misc_ioctl cmd arg s
    | some (n, m) ↦ (n, record s { memory = m })
  ]

  -- `*offset += count` and the return.
  abbrev pub moved : ℕ → Sys r u → Call (Sys r u)
  moved count s =
      back (pos count)
        (record s { file = record s.file { offset = (s.file.offset + count) % 2 ^ 64 } })

  -- From the check of `count` on; `reg` is what was read, cut to a byte.
  unfoldable pub deliver : ℕ → ℕ → ℕ → Sys r u → Call (Sys r u)
  deliver reg buffer count s =
      if not (count == 1) then back efault s else elim (u.memset buffer count s.memory) [
        | none ↦ fault
        | some m ↦
            let copied = u.copy_to_user buffer reg m in
            if copied.0
            then back efault (record s { memory = copied.1 })
            else moved count (record s { memory = copied.1 })
      ]

  unfoldable pub demo_misc_read : ℕ → ℕ → ℕ → Sys r u → Call (Sys r u)
  unfolding deliver
  demo_misc_read fuel buffer count s =
      let v = s.module_state in
      if not s.file.private_data
      then oops
      else if ltb 32 v.ioc_phy_id
      then back efault s
      else if not v.has_mdio
      then oops
      else elim (legacy_mdio_read r fuel v.mdc_div v.ioc_phy_id v.ioc_reg_id v.world) [
        | none ↦ spinning
        | some (value, w) ↦
            deliver (value % 256) buffer count (record s { module_state = record v { world = w } })
      ]

  unfoldable pub demo_misc_write : ℕ → ℕ → ℕ → Sys r u → Call (Sys r u)
  demo_misc_write fuel buffer count s =
      let v = s.module_state in
      let (failed, val) = u.copy_from_user buffer s.memory in
      if not s.file.private_data
      then oops
      else if failed
      then back efault s
      else if ltb 32 v.ioc_phy_id
      then back efault s
      else if not v.has_mdio
      then oops
      else elim (legacy_mdio_write r fuel v.mdc_div v.ioc_phy_id v.ioc_reg_id val v.world) [
        | none ↦ spinning
        | some w ↦ moved count (record s { module_state = record v { world = w } })
      ]
