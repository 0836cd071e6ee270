-- ===== src/Smi/Unbuffered.antt =====
-- aup_tools.ino beside mdio.c: the same frames, and a menu that never shows a register it reads.
use open_device.Base.{
  ℕ, zero, suc, ◌%◌, ◌^◌, ◌≤◌, ◌≡◌, ◌∙◌, refl, sym, ap, Bool, true, false, ltb, List, ◌∷◌, arith,
}
use open_device.Smi.Pins.{
  dir, mdc, mdio, Arduino, write_smi, read_smi, send_head, receive, pulse_mdc,
}
use open_device.Smi.Serdes.{SmiBus}
use open_device.Smi.Aup.{
  smi_22c_write_register, smi_22c_read_register, Run, looping, while_loop, and_then, entry,
  with_address, smi_22c_read,
}
use open_device.Smi.Boards.{smi_bus, loop}

module _ (a : Arduino) where
  -- On a board where nothing hangs on the pin DIR, SMI_22C_Write_Register and SMI_22C_Read_Register
  -- of aup_tools.ino do what write_smi and read_smi of mdio.c do, at every PHY, register and value.
  pub smi_22c-smi :
      ((v : Bool) (w : a.World) → a.digital_write dir v w ≡ w)
      → (phy reg value : ℕ) (w : a.World)
      → (smi_22c_write_register a phy reg value w ≡ write_smi a phy reg value w)
        × (smi_22c_read_register a phy reg w ≡ read_smi a phy reg w)
  unfolding smi_22c_write_register smi_22c_read_register write_smi read_smi
  smi_22c-smi unwired phy reg value w =
      let w1 : a.World = a.digital_write dir true w in
      let w2 : a.World = send_head a true false phy reg (a.pin_mode mdio true w1) in
      let heard : a.World → ℕ × a.World = λ u.
        receive a 17 0x8000 0
          (pulse_mdc a (pulse_mdc a (a.pin_mode mdc true (a.pin_mode mdio false u)))) in
      (
        ap (smi_22c_write_register a phy reg value) (sym (unwired true w))
            ∙ ap (a.pin_mode mdio false) (sym (unwired false _)),
        ap (smi_22c_read_register a phy reg) (sym (unwired true w))
            ∙ ap
                (λ u.
                  let o : ℕ × a.World =
                    ((heard u).0, a.pin_mode mdio false (pulse_mdc a (heard u).1)) in
                  o)
                (sym (unwired false w2))
            ∙ ap
                (λ u.
                  let o : ℕ × a.World =
                    ((heard (a.digital_write dir false w2)).0, a.pin_mode mdio false u) in
                  o)
                (sym (unwired false (pulse_mdc a (heard (a.digital_write dir false w2)).1))),
      )

module _ (b : SmiBus) where
  small : (n : ℕ) → n ≤ 32 → (n % 2 ^ 8 ≡ n) × (ltb 32 n ≡ false)
  small n h = (omega arith, ground arith)

  -- So many reads of a register, one after the other.
  abbrev pub read_rounds : ℕ → ℕ → ℕ → b.World → b.World
  read_rounds zero phy reg w = w
  read_rounds (suc n) phy reg w = read_rounds n phy reg (b.read_smi phy reg w).1

  -- A loop whose test always holds is in its next round, whatever it has read last.
  endless :
      (n phy reg v : ℕ) (w : b.World)
      → let turn : ℕ × b.World → ℕ × b.World =
          λ o. let r = b.read_smi phy reg o.1 in (r.0 % 2 ^ 8, r.1) in
        let o : Bool × (ℕ × b.World) = while_loop (λ _. true) turn n (v, w) in
        (o.0 ≡ false) × (o.1.1 ≡ read_rounds n phy reg w)
  unfolding while_loop
  endless zero phy reg v w = (refl, refl)
  endless (suc n) phy reg v w =
      endless n phy reg ((b.read_smi phy reg w).0 % 2 ^ 8) (b.read_smi phy reg w).1

  reads :
      (n phy reg : ℕ) (rest shown : List ℕ) (w : b.World)
      → phy ≤ 32
      → reg ≤ 32
      → smi_22c_read b n (record { input = phy ∷ reg ∷ rest; shown = shown; world = w })
        ≡ looping (record { input = rest; shown = shown; world = read_rounds n phy reg w })
  unfolding smi_22c_read with_address entry
  reads n phy reg rest shown w p r =
      let e = endless n phy reg 0 w in
      rw ((small phy p).0, (small phy p).1, (small reg r).0, (small reg r).1, e.0, e.1) refl

  -- From the main menu, who chooses the tools of the bus, there option 0, and enters a port and a
  -- register that are let through, is never shown what the register holds: whatever the number of
  -- rounds that the tool is given, it is still in the loop, has read the register in each of them, has
  -- shown nothing more and has taken no further entry.
  pub loop_stays :
      (n phy reg : ℕ) (rest shown : List ℕ) (w : b.World)
      → phy ≤ 32
      → reg ≤ 32
      → loop b (suc n) (record { input = 0 ∷ 0 ∷ phy ∷ reg ∷ rest; shown = shown; world = w })
        ≡ looping (record { input = rest; shown = shown; world = read_rounds n phy reg w })
  unfolding loop smi_bus entry
  loop_stays n phy reg rest shown w p r =
      ap (λ (o : Run b). and_then o (smi_bus b n)) (reads n phy reg rest shown w p r)
