-- ===== src/Phy/Init.antt =====
-- `demo_mdio_init` and `demo_mido_exit` of phy_basic.c.
use open_device.Base.{
  ◌≡◌, refl, Bool, true, false, not, if◌then◌else◌, List, [], ◌∷◌, ℤ, ok, is_nonzero, enomem, arith,
}
use open_device.Phy.Bus.{Phy}

-- What the kernel answers: the platform device (an error, or 0), the allocation of the bus, its
-- registration.
pub record Grants : Type 0 where
  pub pdev : ℤ
  pub bus_fits : Bool
  pub bus_register : ℤ

-- What there is: the platform device, the bus, whether it is registered, and the PHYs.
pub record Made : Type 0 where
  pub pdev : Bool
  pub bus : Bool
  pub registered : Bool
  pub phys : List Phy

-- The labels.
abbrev pub err_mdiobus_reg : Made → Made
err_mdiobus_reg m = record m { pdev = false }

abbrev pub err_mdiobus_alloc : Made → Made
err_mdiobus_alloc m = err_mdiobus_reg (record m { bus = false })

unfoldable pub demo_mdio_init : Grants → Made → ℤ × Made
demo_mdio_init g m =
    let with_pdev : Made = record m { pdev = true } in
    let with_bus : Made = record with_pdev { bus = true } in
    if is_nonzero g.pdev
    then (g.pdev, m)
    else if not g.bus_fits
    then (enomem, err_mdiobus_reg with_pdev)
    else if is_nonzero g.bus_register
    then (g.bus_register, err_mdiobus_alloc with_bus)
    else (ok, record with_bus { registered = true })

-- `list_for_each_entry_safe` with `list_del` and `kfree`.
unfoldable pub free_phys : List Phy → List Phy
free_phys [] = []
free_phys (p ∷ ps) = free_phys ps

unfoldable pub demo_mdio_exit : Made → Made
unfolding free_phys
demo_mdio_exit m = record m {
  registered = false;
  bus = false;
  pdev = false;
  phys = free_phys m.phys;
}

abbrev pub nothing_made : List Phy → Made
nothing_made ps = record { pdev = false; bus = false; registered = false; phys = ps }

free_phys_lem : (ps : List Phy) → free_phys ps ≡ []
unfolding free_phys
free_phys_lem [] = refl
free_phys_lem (p ∷ ps) = free_phys_lem ps

-- An initialization with PHYs that were added before it: it makes the platform device and the
-- registered bus if its result is 0, else nothing; the PHYs stay. An exit after it leaves nothing, and
-- no PHY.
pub demo_mdio_init-demo_mdio_exit :
    (g : Grants) (ps : List Phy)
    → let o = demo_mdio_init g (nothing_made ps) in
      (o.1 ≡ (
        if is_nonzero o.0
        then nothing_made ps
        else record { pdev = true; bus = true; registered = true; phys = ps }))
      × (demo_mdio_exit o.1 ≡ nothing_made [])
unfolding demo_mdio_init demo_mdio_exit
demo_mdio_init-demo_mdio_exit g ps = let e = free_phys_lem ps in (ground arith, ground arith)
