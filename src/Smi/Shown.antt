-- ===== src/Smi/Shown.antt =====
-- What the menu does on a board whose slave keeps clause 22.
use open_device.Base.{
  ℕ, ◌%◌, ◌^◌, ◌<◌, ◌≡◌, ◌∙◌, refl, sym, ap, subst, true, false, ◌&&◌, ◌==◌, ltb, List, [], ◌∷◌,
  if◌then◌else◌, arith,
}
use open_device.Smi.Pins.{dir, mdc, mdio, Arduino, smi_init, read_smi, write_smi}
use open_device.Smi.Wiring.{Slave, Pins, moded, wrote, PinLaws}
use open_device.Smi.Clause.{Clause22, ClauseLaws, Ready, write_smi-read_smi}
use open_device.Smi.Serdes.{SmiBus, by_hand}
use open_device.Smi.Menu.{Session, ask, show, ask_address, ask_value, option, rounds, setup}

small : (n : ℕ) → n < 32 → (n % 2 ^ 8 ≡ n) × (ltb 31 n ≡ false)
small n h = (omega arith, ground arith)

same_value :
    (phy reg value other : ℕ)
    → (if (phy % 32 == phy % 32) && (reg % 32 == reg % 32) then value % 2 ^ 16 % 2 ^ 16 else other)
      ≡ value % 2 ^ 16
same_value phy reg value other = ground arith

module _ (b : SmiBus) where
  ask_address_lem :
      (k : ℕ → ℕ → Session b → Session b) (phy reg : ℕ) (ns shown : List ℕ) (w : b.World)
      → phy < 32
      → reg < 32
      → ask_address b k (record { input = phy ∷ reg ∷ ns; shown = shown; world = w })
        ≡ k phy reg (record { input = ns; shown = shown; world = w })
  unfolding ask_address ask
  ask_address_lem k phy reg ns shown w p r =
      rw ((small phy p).0, (small phy p).1, (small reg r).0, (small reg r).1)

module _ (a : Arduino) (s : Slave) (view : a.World → Pins s) (laws : PinLaws a s view)
    (c : Clause22 s) (clause : ClauseLaws s c) where
  smi_init-Ready : (w : a.World) → c.Waits (view w).slave → Ready s c (view (smi_init a w))
  unfolding smi_init
  smi_init-Ready w h =
      let e : view (smi_init a w) ≡ record (view w) {
        dir_mode = true;
        dir_level = true;
        mdc_mode = true;
        mdio_mode = true;
      } =
        laws.mode_lem mdio true _
        ∙ ap (moded s mdio true) (
            laws.mode_lem mdc true _
            ∙ ap (moded s mdc true)
                (laws.write_lem dir true _ ∙ ap (wrote s dir true) (laws.mode_lem dir true w))) in
      subst (Ready s c) (sym e)
        (record { set_up = record { dir_mode = refl; mdc_mode = refl }; waits = h })

  -- After `setup` on a board whose slave waits and keeps clause 22: who enters option 2, a port, a
  -- register and a value, and then option 1 with the same port and register, is shown the sixteen
  -- digits of the value twice, from the entry and from the line.
  pub setup_shown :
      (phy reg value : ℕ) (w : a.World)
      → phy < 32
      → reg < 32
      → c.Waits (view w).slave
      → (setup a 2 (2 ∷ phy ∷ reg ∷ value ∷ 1 ∷ phy ∷ reg ∷ []) w).shown
        ≡ value % 2 ^ 16 ∷ value % 2 ^ 16 ∷ []
  unfolding setup rounds ask option ask_value show
  setup_shown phy reg value w p r h =
      let b : SmiBus = by_hand a in
      let w0 : a.World = smi_init a w in
      let v : ℕ = value % 2 ^ 16 in
      let o = write_smi-read_smi a s view laws c clause phy reg v phy reg w0 (smi_init-Ready w h) in
      ap (λ (t : Session b). (ask b (option b) t).shown)
        (ask_address_lem b (λ q g. ask_value b (write_smi a q g)) phy reg
          (value ∷ 1 ∷ phy ∷ reg ∷ []) [] w0 p r)
      ∙ ap (λ (t : Session b). t.shown)
          (ask_address_lem b (λ q g t. show b (read_smi a q g t.world) t) phy reg [] (v ∷ [])
            (write_smi a phy reg v w0) p r)
      ∙ ap (λ n. v ∷ n ∷ [])
          (o.0 ∙ same_value phy reg value (c.holds (phy % 32) (reg % 32) (view w0).slave))
