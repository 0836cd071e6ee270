-- ===== src/Phy.antt =====
-- The software PHYs, subsystem/net/phy/phy_basic.c: the registers that show a status, the list of PHYs
-- behind the MDIO bus, and the bus itself.
pub mod Regs
pub mod Bus
pub mod Decode
pub mod Table
pub mod Refine
pub mod Safe
pub mod Init
mod Tests
