-- ===== src/Tty/Create.antt =====
-- `create_manager_device` of tty.c: what it takes for a port, and what its labels give back.
use open_device.Base.{
  ◌≡◌, Bool, true, false, not, ◌||◌, ◌&&◌, arith, if◌then◌else◌, ℤ, ok, is_nonzero, einval, enomem,
}

-- What the kernel answers. The platform data are given or not; the three allocations; the addition of
-- the port to the serial core; the reservation of device numbers.
pub record Grants : Type 0 where
  pub platform_data : Bool
  pub dummy_fits : Bool
  pub tx_fits : Bool
  pub rx_fits : Bool
  pub add_port : ℤ
  pub reserve : ℤ

-- What exists of the port: the structure, its two FIFOs, the port in the serial core, the entry of
-- `dummy_array`, the character device; and whether `dummy_serial_major` is set.
pub record Made : Type 0 where
  pub dummy : Bool
  pub tx_fifo : Bool
  pub rx_fifo : Bool
  pub port : Bool
  pub listed : Bool
  pub cdev : Bool
  pub has_major : Bool

-- The labels.
abbrev pub fifo_err : Made → Made
fifo_err m = record m { dummy = false }

abbrev pub port_err : Made → Made
port_err m = fifo_err (record m { tx_fifo = false; rx_fifo = false })

abbrev pub dev_err : Made → Made
dev_err m = port_err (record m { port = false })

-- From the reservation of the device numbers on.
unfoldable pub make_cdev : Grants → Made → ℤ × Made
make_cdev g m =
    if not m.has_major && is_nonzero g.reserve
    then (g.reserve, dev_err m)
    else (ok, record m { has_major = true; cdev = true })

-- From the allocation of the FIFOs on.
unfoldable pub make_port : Grants → Made → ℤ × Made
unfolding make_cdev
make_port g m =
    let n : Made = record m { tx_fifo = g.tx_fits; rx_fifo = g.rx_fits } in
    if not n.tx_fifo || not n.rx_fifo
    then (enomem, fifo_err n)
    else if is_nonzero g.add_port
    then (g.add_port, port_err n)
    else make_cdev g (record n { port = true; listed = true })

unfoldable pub create_manager_device : Grants → Made → ℤ × Made
unfolding make_port
create_manager_device g m =
    if not g.platform_data
    then (einval, m)
    else if not g.dummy_fits
    then (enomem, m)
    else make_port g (record m { dummy = true })

-- A port of which nothing exists.
abbrev pub nothing_made : Bool → Made
nothing_made major = record {
  dummy = false;
  tx_fifo = false;
  rx_fifo = false;
  port = false;
  listed = false;
  cdev = false;
  has_major = major;
}

-- What exists for each result.
pub record Outcome (g : Grants) (o : ℤ × Made) : Type 0 where
  pub dummy : o.1.dummy ≡ not (is_nonzero o.0)
  pub port : o.1.port ≡ not (is_nonzero o.0)
  pub cdev : o.1.cdev ≡ not (is_nonzero o.0)
  pub tx_fifo : o.1.tx_fifo ≡ (
      not (is_nonzero o.0) || (g.platform_data && (g.dummy_fits && (g.tx_fits && not g.rx_fits))))
  pub rx_fifo : o.1.rx_fifo ≡ (
      not (is_nonzero o.0) || (g.platform_data && (g.dummy_fits && (g.rx_fits && not g.tx_fits))))
  pub listed : o.1.listed ≡ (
      g.platform_data
      && (g.dummy_fits && (g.tx_fits && (g.rx_fits && not (is_nonzero g.add_port)))))

-- Creating a port of which nothing exists. If the result is 0, the structure, the FIFOs, the port and
-- the character device exist; else none of them but one FIFO, when that one alone could be allocated.
-- The entry of `dummy_array` is set as soon as the port was added, and stays after an error.
pub create_manager_device-Outcome :
    (g : Grants) (major : Bool) → Outcome g (create_manager_device g (nothing_made major))
unfolding create_manager_device make_port make_cdev
create_manager_device-Outcome g major = record {
  dummy = ground arith;
  port = ground arith;
  cdev = ground arith;
  tx_fifo = ground arith;
  rx_fifo = ground arith;
  listed = ground arith;
}
