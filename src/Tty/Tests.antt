-- ===== src/Tty/Tests.antt =====
-- A port with a FIFO of four bytes, and five bytes that wait across the end of the circular buffer.
use open_device.Base.{ok, ebusy, true, ◌+◌, ◌≡◌, refl, some, false, [], ◌∷◌, arith}
use open_device.Tty.Create.{Grants, create_manager_device}
use open_device.Tty.Ports.{
  serial_dummy_probe, serial_dummy_remove, expected, stopped, freed,
  serial_dummy_remove-serial_dummy_probe,
}
use open_device.Tty.State.{Uart, start_tx, dummy_read}
use open_device.Tty.Sent.{InRange, waiting, smaller, Moves, start_tx-Moves}
use open_device.Tty.Turns.{LostWakeup, start_tx-LostWakeup}
use open_device.Tty.Drain.{ring_bytes, Drained, dummy_read-start_tx}

abbrev port : Uart
port = record {
  buf = λ i. i + 1;
  head = 3;
  tail = 4094;
  tx_fifo = λ i. 0;
  tx_len = 0;
  tx_fifo_size = 4;
  icount_tx = 0;
  write_ok = false;
}

port-InRange : InRange port
port-InRange = record { head = omega arith; tail = omega arith }

transmit_example : Moves port (start_tx port)
transmit_example = start_tx-Moves port port-InRange (omega arith) (omega arith)

roundtrip_example :
    (v : Uart) × (start_tx port ≡ some v)
    × Drained (ring_bytes port.buf port.tail (smaller (waiting port) 4)) (dummy_read 16 v)
roundtrip_example =
    dummy_read-start_tx port 16 port-InRange (omega arith) refl (omega arith) (omega arith)

four_bytes : ring_bytes port.buf port.tail (smaller (waiting port) 4) ≡ 4095 ∷ 4096 ∷ 1 ∷ 2 ∷ []
four_bytes = refl

abbrev holding_four : Uart
holding_four = record port { tx_len = 4; tx_fifo = λ i. i + 65 }

-- The serial core takes the port, but no device numbers are left.
abbrev no_numbers : Grants
no_numbers = record {
  platform_data = true;
  dummy_fits = true;
  tx_fits = true;
  rx_fits = true;
  add_port = ok;
  reserve = ebusy;
}

-- Two ports that find no numbers.
ports_unplugged :
    ((serial_dummy_probe (no_numbers ∷ no_numbers ∷ [])).0 ≡ ok)
    × (serial_dummy_remove (serial_dummy_probe (no_numbers ∷ no_numbers ∷ [])).1
        ≡ expected 0 (no_numbers ∷ no_numbers ∷ []) false)
ports_unplugged = serial_dummy_remove-serial_dummy_probe (no_numbers ∷ no_numbers ∷ [])

first_freed : expected 0 (no_numbers ∷ no_numbers ∷ []) false ≡ stopped 0 freed
unfolding create_manager_device
first_freed = refl

-- The bytes of `port` are read before its writer sleeps.
lost_on_port : LostWakeup port
lost_on_port = start_tx-LostWakeup port port-InRange (omega arith) refl (omega arith)
