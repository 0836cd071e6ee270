-- ===== src/Mdio/Syscalls.antt =====
-- System calls on an open file of the `mdio` device, and what a single one comes to.
use open_device.Base.{
  ℕ, ◌+◌, ◌^◌, ◌%◌, ◌<◌, ◌≡◌, ◌∙◌, ap, Bool, true, ◌==◌, ltb, if_cases, List, [], ◌∷◌, ℤ, pos,
  efault, arith, ◌⊎◌, inl, inr, Bool-cases, Option-cases, Option, none, subst, sym,
}
use open_device.Mdio.Bus.{Registers, Controller, ControllerLaws}
use open_device.Mdio.Misc.{
  UserAccess, Module, Sys, Call, back, oops, fault, spinning, demo_misc_ioctl, ioctl_call,
  demo_misc_read, demo_misc_write, deliver,
}
use open_device.Mdio.Served.{
  Serving, demo_misc_read-ReadServed, demo_misc_write-WriteServed, with_world,
}

-- `ioctl(fd, cmd, arg)`, `read(fd, buffer, count)` and `write(fd, buffer, count)`.
pub data SystemCall : Type 0 where
  ioctl : ℕ → ℕ → SystemCall
  read : ℕ → ℕ → SystemCall
  write : ℕ → ℕ → SystemCall

module _ (r : Registers) (u : UserAccess) where
  unfoldable pub serve : ℕ → SystemCall → Sys r u → Call (Sys r u)
  serve fuel (ioctl cmd arg) s = back (ioctl_call r u cmd arg s).0 (ioctl_call r u cmd arg s).1
  serve fuel (read buffer count) s = demo_misc_read r u fuel buffer count s
  serve fuel (write buffer count) s = demo_misc_write r u fuel buffer count s

  -- The calls of a program; the results are those of the last one.
  unfoldable pub serve_all : ℕ → List SystemCall → ℤ → Sys r u → Call (Sys r u)
  unfolding serve
  serve_all fuel [] n s = back n s
  serve_all fuel (call ∷ calls) n s = elim (serve fuel call s) [
    | oops ↦ oops
    | fault ↦ fault
    | spinning ↦ spinning
    | back m t ↦ serve_all fuel calls m t
  ]

module _ (r : Registers) (u : UserAccess) (c : Controller r) where
  -- A call that returned, the device being ready for the next one.
  pub record Returned (fuel : ℕ) (o : Call (Sys r u)) : Type 0 where
    pub value : ℤ
    pub state : Sys r u
    pub ended : o ≡ back value state
    pub serving : Serving r u c fuel state

  -- A call that faulted at the `memset` of one byte that is not mapped.
  pub record Faulted (o : Call (Sys r u)) : Type 0 where
    pub ended : o ≡ fault
    pub buffer : ℕ
    pub memory : u.Memory
    pub unmapped : u.memset buffer 1 memory ≡ none

  abbrev pub Outcome : ℕ → Call (Sys r u) → Type 0
  Outcome fuel o = Returned fuel o ⊎ Faulted o

module _ (r : Registers) (u : UserAccess) (c : Controller r) (laws : ControllerLaws r c) where
  -- Readiness does not depend on the offset, the selected PHY and register, and the memory.
  pub kept :
      (fuel : ℕ) (s : Sys r u) (offset id reg : ℕ) (m : u.Memory)
      → Serving r u c fuel s
      → Serving r u c fuel (record s {
        file = record s.file { offset = offset };
        module_state = record s.module_state { ioc_phy_id = id; ioc_reg_id = reg };
        memory = m;
      })
  kept fuel s offset id reg m h = record {
    opened = h.opened;
    set_up = h.set_up;
    div = h.div;
    left = h.left;
    turns = h.turns;
  }

  -- The check of `count` lets one byte through.
  one_byte :
      (count buffer : ℕ) (m : u.Memory) (o : Option u.Memory)
      → (count == 1) ≡ true
      → u.memset buffer count m ≡ o
      → u.memset buffer 1 m ≡ o
  one_byte count buffer m o e h =
      ap (λ n. u.memset buffer n m) (let f : 1 ≡ count = ground (arith, e) in f) ∙ h

  -- The end of a read, by what the `memset` comes to.
  deliver-Outcome :
      (fuel b buffer count : ℕ) (s : Sys r u)
      → Serving r u c fuel s
      → Outcome r u c fuel (deliver r u b buffer count s)
  unfolding deliver
  deliver-Outcome fuel b buffer count s h = elim (Bool-cases (count == 1)) [
    | inr f ↦ inl (record { value = efault; state = s; ended = ground arith; serving = h })
    | inl f ↦ elim (Option-cases (u.memset buffer count s.memory)) [
      | inl e ↦ inr (record {
        ended = ground arith;
        buffer = buffer;
        memory = s.memory;
        unmapped = one_byte count buffer s.memory none f e;
      })
      | inr (m, e) ↦
          let copied : Bool × u.Memory = u.copy_to_user buffer b m in
          let t : Sys r u = record s { memory = copied.1 } in
          elim (Bool-cases copied.0) [
            | inl g ↦ inl (record {
              value = efault;
              state = t;
              ended = ground arith;
              serving = kept fuel s _ _ _ _ h;
            })
            | inr g ↦ inl (record {
              value = pos count;
              state = record t {
                file = record t.file { offset = (t.file.offset + count) % 2 ^ 64 };
              };
              ended = ground arith;
              serving = kept fuel s _ _ _ _ h;
            })
          ]
    ]
  ]

  -- What comes before the end of a call.
  pub leading :
      (fuel : ℕ) (o o' : Call (Sys r u)) → o' ≡ o → Outcome r u c fuel o → Outcome r u c fuel o'
  leading fuel o o' e h = subst (Outcome r u c fuel) (sym e) h

  world_Serving :
      (fuel : ℕ) (s : Sys r u) (w : r.World)
      → Serving r u c fuel s
      → c.left w ≡ 0
      → Serving r u c fuel (with_world r u c s w)
  world_Serving fuel s w h e = record {
    opened = h.opened;
    set_up = h.set_up;
    div = h.div;
    left = omega (arith, h.turns);
    turns = h.turns;
  }

  -- A PHY that is out of range.
  demo_misc_read_refused :
      (fuel buffer count : ℕ) (s : Sys r u)
      → Serving r u c fuel s
      → 32 < s.module_state.ioc_phy_id
      → demo_misc_read r u fuel buffer count s ≡ back efault s
  unfolding demo_misc_read
  demo_misc_read_refused fuel buffer count s h g = let e = h.opened in ground arith

  demo_misc_write_refused :
      (fuel buffer count : ℕ) (s : Sys r u)
      → Serving r u c fuel s
      → ((u.copy_from_user buffer s.memory).0 ≡ true) ⊎ (32 < s.module_state.ioc_phy_id)
      → demo_misc_write r u fuel buffer count s ≡ back efault s
  unfolding demo_misc_write
  demo_misc_write_refused fuel buffer count s h (inl g) = let e = h.opened in ground arith
  demo_misc_write_refused fuel buffer count s h (inr g) =
      let e = h.opened in
      elim (Bool-cases (u.copy_from_user buffer s.memory).0) [
        | inl f ↦ ground arith
        | inr f ↦ ground arith
      ]

  -- A read with any PHY selected.
  pub read-Outcome :
      (fuel buffer count : ℕ) (s : Sys r u)
      → Serving r u c fuel s
      → Outcome r u c fuel (demo_misc_read r u fuel buffer count s)
  read-Outcome fuel buffer count s h = elim (Bool-cases (ltb 32 s.module_state.ioc_phy_id)) [
    | inl g ↦ inl (record {
      value = efault;
      state = s;
      ended = demo_misc_read_refused fuel buffer count s h (ground arith);
      serving = h;
    })
    | inr g ↦
        let f = demo_misc_read-ReadServed r u c laws fuel buffer count s h (ground arith) in
        let v : Module r = s.module_state in
        leading fuel _ (demo_misc_read r u fuel buffer count s) f.served (
          deliver-Outcome fuel (c.phy (v.ioc_phy_id % 32) (v.ioc_reg_id % 128) v.world % 256) buffer
            count (with_world r u c s f.after) (world_Serving fuel s f.after h f.idle))
  ]

  pub write-Returned :
      (fuel buffer count : ℕ) (s : Sys r u)
      → Serving r u c fuel s
      → Returned r u c fuel (demo_misc_write r u fuel buffer count s)
  write-Returned fuel buffer count s h =
      let refused : ((u.copy_from_user buffer s.memory).0 ≡ true) ⊎ (32 < s.module_state.ioc_phy_id)
          → Returned r u c fuel (demo_misc_write r u fuel buffer count s) =
        λ g. record {
          value = efault;
          state = s;
          ended = demo_misc_write_refused fuel buffer count s h g;
          serving = h;
        } in
      elim (Bool-cases (ltb 32 s.module_state.ioc_phy_id)) [
        | inl g ↦ refused (inr (ground arith))
        | inr g ↦ elim (Bool-cases (u.copy_from_user buffer s.memory).0) [
          | inl k ↦ refused (inl k)
          | inr k ↦
              let f =
                demo_misc_write-WriteServed r u c laws fuel buffer count s h (ground arith) k in
              let t : Sys r u = with_world r u c s f.after in
              record {
                value = pos count;
                state = record t {
                  file = record t.file { offset = (t.file.offset + count) % 2 ^ 64 };
                };
                ended = f.served;
                serving = kept fuel t _ _ _ _ (world_Serving fuel s f.after h f.idle);
              }
        ]
      ]

  pub ioctl_Serving :
      (fuel cmd arg : ℕ) (s : Sys r u)
      → Serving r u c fuel s
      → Serving r u c fuel (demo_misc_ioctl r u cmd arg s).1
  unfolding demo_misc_ioctl
  ioctl_Serving fuel cmd arg s h =
      let P : ℤ × Sys r u → Type 0 = λ o. Serving r u c fuel o.1 in
      if_cases P (cmd == 1) (λ _. kept fuel s _ _ _ _ h)
        (λ _.
          if_cases P (cmd == 2) (λ _. kept fuel s _ _ _ _ h)
            (λ _.
              if_cases P (cmd == 3) (λ _. kept fuel s _ _ _ _ h)
                (λ _. if_cases P (cmd == 4) (λ _. kept fuel s _ _ _ _ h) (λ _. h))))
