-- ===== src/Mdio/Tests.antt =====
-- The MDIO driver and its user program on a board.
use open_device.Base.{◌≡◌, refl, Bool, true, false, List, [], ◌∷◌, ok, arith}
use open_device.Mdio.Bus.{legacy_mdio_write}
use open_device.Mdio.Command.{address_fields, read_command, write_command}
use open_device.Mdio.Transfer.{Stored, legacy_mdio_write-Stored}
use open_device.Mdio.Misc.{Sys}
use open_device.Mdio.Syscalls.{SystemCall, ioctl, read, write}
use open_device.Mdio.Probe.{Grants, demo_probe}
use open_device.Mdio.Taken.{Taken, nothing_held, demo_probe-Taken}
use open_device.Mdio.Board.{board, controller, fresh, access, board-ControllerLaws}

-- Register 5 of PHY 2, with a divider of 3.
read_word : read_command 3 2 5 ≡ 0x302051
unfolding read_command address_fields
read_word = refl

write_word : write_command 0x100000 3 2 5 ≡ 0x302053
unfolding write_command address_fields
write_word = refl

write_on_board : Stored board controller 2 5 7 fresh (legacy_mdio_write board 3 3 2 5 7 fresh)
write_on_board =
    legacy_mdio_write-Stored board controller board-ControllerLaws 3 3 2 5 7 fresh (omega arith)
      (omega arith) (omega arith)

-- A set-up driver: the file closed, PHY 2 and register 0 selected.
abbrev set_up : Bool → Sys board access
set_up is_open = record {
  file = record { private_data = is_open; offset = 0 };
  module_state = record {
    misc_priv = true;
    has_mdio = true;
    ioc_phy_id = 2;
    ioc_reg_id = 0;
    mdc_div = 3;
    world = fresh;
  };
  memory = λ x. x;
}

-- A PHY that does not exist, a read of two bytes, the block size, an unknown command, a null pointer.
abbrev odd_calls : List SystemCall
odd_calls = ioctl 1 0 ∷ read 1 2 ∷ write 3 1 ∷ ioctl 2 20 ∷ ioctl 9 0 ∷ read 1 1 ∷ read 0 1 ∷ []

-- The pins are refused.
abbrev no_pins : Grants
no_pins = record {
  priv_fits = true;
  misc_register = ok;
  io_resource = true;
  io_region = true;
  io_maps = true;
  extclk_resource = true;
  extclk_maps = true;
  clock = true;
  pins = false;
  bus_fits = true;
  bus_register = ok;
  phy_found = true;
}

no_pins_probe : Taken no_pins true (demo_probe no_pins (nothing_held true))
no_pins_probe = demo_probe-Taken no_pins true
