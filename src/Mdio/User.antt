-- ===== src/Mdio/User.antt =====
-- The user program of MDIO_userspace_API.c, over the file operations of the device. Reads and writes reach
-- the operations as they are, ioctls through what the kernel answers itself; the results that the program
-- ignores are ignored here.
use open_device.Base.{ℕ, Bool, if◌then◌else◌, ℤ, pos, negsuc, ok}
use open_device.Mdio.Bus.{Registers}
use open_device.Mdio.Misc.{
  UserAccess, Sys, Call, back, oops, fault, spinning, demo_misc_open, demo_misc_release, ioctl_call,
  demo_misc_read, demo_misc_write,
}

-- What the program itself does to its memory: bytes, and words of an `int`.
pub record UserMemory (u : UserAccess) : Type 0 where
  pub load : ℕ → u.Memory → ℕ
  pub store : ℕ → ℕ → u.Memory → u.Memory
  pub store_int : ℕ → ℕ → u.Memory → u.Memory

-- Where the variables `reg`, `value` and `id` of its functions stand.
pub record Stack : Type 0 where
  pub reg : ℕ
  pub value : ℕ
  pub id : ℕ

abbrev pub mdio_ioc_set_phyid : ℕ
mdio_ioc_set_phyid = 1

abbrev pub mdio_ioc_set_regid : ℕ
mdio_ioc_set_regid = 2

module _ (r : Registers) (u : UserAccess) (p : UserMemory u) (at : Stack) where
  -- A variable of the program gets a value.
  abbrev pub assign : ℕ → ℕ → Sys r u → Sys r u
  assign a v s = record s { memory = p.store a v s.memory }

  -- `ioctl(fd, MDIO_IOC_SET_REGID, &reg)`.
  unfoldable pub set_regid : Sys r u → Sys r u
  set_regid s = (ioctl_call r u mdio_ioc_set_regid at.reg s).1

  unfoldable pub mdio_read : ℕ → ℕ → Sys r u → Call (Sys r u)
  unfolding set_regid
  mdio_read fuel reg s =
      elim (demo_misc_read r u fuel at.value 1 (set_regid (assign at.reg reg s))) [
        | oops ↦ oops
        | fault ↦ fault
        | spinning ↦ spinning
        | back _ t ↦ back (pos (p.load at.value t.memory)) t
      ]

  unfoldable pub mdio_write : ℕ → ℕ → ℕ → Sys r u → Call (Sys r u)
  unfolding set_regid
  mdio_write fuel reg value s =
      elim (demo_misc_write r u fuel at.value 1
        (set_regid (assign at.reg reg (assign at.value value s)))) [
          | oops ↦ oops
          | fault ↦ fault
          | spinning ↦ spinning
          | back _ t ↦ back ok t
        ]

  unfoldable pub mdio_set_phyid : ℕ → Sys r u → Sys r u
  mdio_set_phyid id s =
      (ioctl_call r u mdio_ioc_set_phyid at.id
        (record s { memory = p.store_int at.id id s.memory })).1

  -- A call, and what follows it.
  abbrev pub after : Call (Sys r u) → (ℤ → Sys r u → Call (Sys r u)) → Call (Sys r u)
  after (back n t) k = k n t
  after oops k = oops
  after fault k = fault
  after spinning k = spinning

  -- `main`: the second value it prints. `opens` is whether `open` gives a descriptor.
  unfoldable pub main : ℕ → Bool → Sys r u → Call (Sys r u)
  unfolding mdio_set_phyid mdio_read mdio_write
  main fuel opens s =
      if opens
      then after (mdio_read fuel 0x05 (mdio_set_phyid 0x02 (demo_misc_open r u s).1)) (λ prev s1.
        after (mdio_write fuel 0x05 0x02 s1) (λ _ s2.
          after (mdio_read fuel 0x05 s2) (λ value s3. back value (demo_misc_release r u s3).1)))
      else back (negsuc 0) s
