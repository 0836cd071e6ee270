-- ===== src/Mdio/Taken.antt =====
-- What a probe of the MDIO driver leaves, for each answer of the kernel.
use open_device.Base.{◌≡◌, Bool, true, false, not, ◌||◌, ◌&&◌, arith, is_nonzero, refl}
use open_device.Mdio.Probe.{
  Grants, Held, Course, returns, null_followed, platform_resource_request, request_clock,
  mdio_hardware_init, probe_bus, demo_probe, demo_remove,
}

-- The requests that are granted, in the order of the code.
abbrev pub mapped : Grants → Bool
mapped g = g.io_resource && (g.io_region && g.io_maps)

abbrev pub granted : Grants → Bool
granted g = mapped g && (g.extclk_resource && (g.extclk_maps && (g.clock && g.pins)))

-- The state after a course, whether it followed `NULL`, and whether it returned 0.
abbrev pub held : Course → Held
held (returns ret h) = h
held (null_followed h) = h

abbrev pub crashed : Course → Bool
crashed (returns ret h) = false
crashed (null_followed h) = true

abbrev pub succeeded : Course → Bool
succeeded (returns ret h) = not (is_nonzero ret)
succeeded (null_followed h) = false

-- Nothing of the driver; the region of the second resource may be another's.
abbrev pub nothing_held : Bool → Held
nothing_held other = record {
  priv = false;
  misc_priv = false;
  misc = false;
  io_region = false;
  extclk_region = other;
  base = false;
  extclk = false;
  clk = false;
  bus = false;
}

pub record Taken (g : Grants) (other : Bool) (c : Course) : Type 0 where
  pub crash : crashed c ≡ (g.priv_fits && (mapped g && not g.extclk_resource))
  pub success : succeeded c ≡ (held c).bus
  pub base : (held c).base ≡ (g.priv_fits && granted g)
  pub extclk : (held c).extclk ≡ (g.priv_fits && granted g)
  pub clk : (held c).clk ≡ (g.priv_fits && granted g)
  pub bus :
      (held c).bus ≡ (g.priv_fits && (granted g && (g.bus_fits && not (is_nonzero g.bus_register))))
  pub priv : (held c).priv ≡ (crashed c || ((held c).bus && g.phy_found))
  pub misc : (held c).misc ≡ (g.priv_fits && not (is_nonzero g.misc_register))
  pub misc_priv : (held c).misc_priv ≡ g.priv_fits
  pub io_region : (held c).io_region ≡ (g.priv_fits && mapped g)
  pub extclk_region :
      (held c).extclk_region
      ≡ (other && not (g.priv_fits && (mapped g && (g.extclk_resource && not (granted g)))))

-- A probe of a driver that holds nothing. It follows `NULL` exactly if the first resource was mapped and
-- there is no second one; it returns 0 exactly if the bus was made. The mappings and the clock are held
-- exactly if everything was granted. The misc device stays, and `misc_priv` points to `priv`, after any
-- error; `priv` itself is freed after any error and also when no PHY was found, where the result is 0.
-- After an error behind the second resource the region of the first one stays, and that of the second
-- one, which was not requested, is released.
pub demo_probe-Taken :
    (g : Grants) (other : Bool) → Taken g other (demo_probe g (nothing_held other))
unfolding demo_probe probe_bus mdio_hardware_init platform_resource_request request_clock
demo_probe-Taken g other = record {
  crash = ground arith;
  success = ground arith;
  base = ground arith;
  extclk = ground arith;
  clk = ground arith;
  bus = ground arith;
  priv = ground arith;
  misc = ground arith;
  misc_priv = ground arith;
  io_region = ground arith;
  extclk_region = ground arith;
}

-- What a removal leaves of it.
pub record Left (g : Grants) (h : Held) : Type 0 where
  pub base : h.base ≡ false
  pub extclk : h.extclk ≡ false
  pub clk : h.clk ≡ false
  pub bus : h.bus ≡ true
  pub io_region : h.io_region ≡ true
  pub misc : h.misc ≡ not (is_nonzero g.misc_register)

-- If a probe returned 0, the removal gives the mappings and the clock back. The bus, the region and the
-- misc device stay.
pub demo_remove-Left :
    (g : Grants) (other : Bool)
    → succeeded (demo_probe g (nothing_held other)) ≡ true
    → Left g (demo_remove (held (demo_probe g (nothing_held other))))
unfolding demo_remove
demo_remove-Left g other h =
    let t : Taken g other (demo_probe g (nothing_held other)) = demo_probe-Taken g other in
    let bus = t.success in
    let made = t.bus in
    record {
      base = refl;
      extclk = refl;
      clk = refl;
      bus = ground arith;
      io_region = ground (arith, t.io_region);
      misc = ground (arith, t.misc);
    }
