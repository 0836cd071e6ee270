-- ===== src/Mdio/Calls.antt =====
-- Any calls on an open file of the `mdio` device, one after the other.
