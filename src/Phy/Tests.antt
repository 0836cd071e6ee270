-- ===== src/Phy/Tests.antt =====
-- Software PHYs with statuses that the drivers use.
use open_device.Base.{
  ℕ, ◌≡◌, ◌≢◌, ◌==◌, refl, true, if◌then◌else◌, none, some, [], ◌∷◌, pos, ok, arith,
}
use open_device.Phy.Regs.{Status, full_duplex, half_duplex, status_words, update_regs}
use open_device.Phy.Decode.{Shown, update_regs-Shown}
use open_device.Phy.Bus.{
  Phydev, LinkUpdate, Bus, refresh, read_walk, demo_mdio_read, phy_set_link_update, demo_phy_add,
  Added, added, beyond,
}
use open_device.Phy.Refine.{Implements, phy_basic-Implements, shown_phy}
use open_device.Phy.Safe.{Reachable, start, next, sets, adds, Reachable-demo_mdio_read}

abbrev fast : Status
fast = record { link = 1; speed = 1000; duplex = 1; pause = 1; asym_pause = 0 }

abbrev odd : Status
odd = record { link = 1; speed = 2500; duplex = 0; pause = 0; asym_pause = 0 }

fast_registers : Shown 3 fast (update_regs 3 fast (λ n. 0xffff)).1
fast_registers = update_regs-Shown 3 fast (λ n. 0xffff) refl (omega arith)

-- An update that takes the link down.
abbrev down : LinkUpdate
down device s = (ok, record s { link = 0 })

abbrev device : Phydev
device = record { attached_dev = 9; phy_id = 3; bus = true }

abbrev empty_bus : Bus
empty_bus = record { irqs = λ n. 0; phys = [] }

-- The control register of the new PHY; a speed that is unknown leaves the interrupt set; PHY 32.
control_register :
    demo_mdio_read 3 0 (shown_phy 3 fast ∷ []) ≡ some (pos 0x0140, shown_phy 3 fast ∷ [])
unfolding demo_mdio_read read_walk refresh update_regs status_words full_duplex
control_register = refl

abbrev irq_of : Added → ℕ
irq_of (added v b) = b.irqs 3
irq_of beyond = 0

odd_speed : irq_of (demo_phy_add true 7 3 odd empty_bus) ≡ 7
unfolding demo_phy_add update_regs status_words half_duplex
odd_speed = refl

phy_32_beyond : demo_phy_add true 7 32 fast empty_bus ≡ beyond
unfolding demo_phy_add
phy_32_beyond = refl

two_phys : Implements (shown_phy 3 fast ∷ shown_phy 4 odd ∷ [])
two_phys = phy_basic-Implements (shown_phy 3 fast ∷ shown_phy 4 odd ∷ [])

abbrev one_phy : Bus
one_phy = record { irqs = λ n. if n == 3 then 7 else 0; phys = shown_phy 3 fast ∷ [] }

one_added : demo_phy_add true 7 3 fast empty_bus ≡ added ok one_phy
unfolding demo_phy_add update_regs status_words full_duplex
one_added = refl

one_watched : Reachable (phy_set_link_update (some device) (some down) (shown_phy 3 fast ∷ [])).1
one_watched =
    next (next start (adds true 7 3 fast empty_bus one_added)) (sets (some device) (some down))

watched_read :
    demo_mdio_read 3 1 (phy_set_link_update (some device) (some down) (shown_phy 3 fast ∷ [])).1
    ≢ none
watched_read =
    Reachable-demo_mdio_read
      (phy_set_link_update (some device) (some down) (shown_phy 3 fast ∷ [])).1 one_watched 3 1
