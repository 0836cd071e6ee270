-- ===== src/Smi/Serdes.antt =====
-- The registers behind the switch, which are read and written through its command and data
-- registers: `aup_SERDES_read` and `aup_SERDES_write`, in mdio.c and again in sketch_mar28b.ino.
use open_device.Base.{ℕ, zero, suc, ◌-◌, ◌*◌, ◌%◌, ◌^◌, ◌==◌, if◌then◌else◌, bit_and, bit_or}
use open_device.Smi.Pins
use open_device.Smi.Pins.{Arduino}

-- The two calls that these functions make of the bus.
pub record SmiBus : Type 1 where
  pub World : Type 0
  pub read_smi : ℕ → ℕ → World → ℕ × World
  pub write_smi : ℕ → ℕ → ℕ → World → World

-- The bus by hand.
abbrev pub by_hand : Arduino → SmiBus
by_hand a = record { World = a.World; read_smi = Pins.read_smi a; write_smi = Pins.write_smi a }

-- The registers of the switch: 0x18 takes a command, 0x19 the data.
abbrev pub global2 : ℕ
global2 = 0x1C

abbrev pub cmd : ℕ
cmd = 0x18

abbrev pub data_reg : ℕ
data_reg = 0x19

-- `command`; `op` is the code of the operation.
unfoldable pub command : ℕ → ℕ → ℕ → ℕ
command op dev reg =
    bit_or (bit_or (bit_or (bit_or 0x8000 0x1000) op) (bit_and dev 0x1F * 2 ^ 5)) (bit_and reg 0x1F)

-- An `int` of the board has 16 bits. This is -1, and what `while (i--)` leaves of its counter when
-- that is 0.
abbrev pub minus_one : ℕ
minus_one = 2 ^ 16 - 1

module _ (b : SmiBus) where
  open b use {World, read_smi, write_smi}

  -- `while (i--)` with the poll of the busy flag; the counter is handed on. Below 0 it is taken to
  -- wrap around.
  unfoldable pub poll_busy : ℕ → World → ℕ × World
  poll_busy zero w = (minus_one, w)
  poll_busy (suc i) w =
      let (flag, w') = read_smi global2 cmd w in
      let rest = poll_busy i w' in if bit_and flag 0x8000 == 0 then (i, w') else rest

  -- The first loop of `aup_SERDES_read`, which also writes the data register.
  unfoldable pub poll_clearing : ℕ → World → ℕ × World
  poll_clearing zero w = (minus_one, w)
  poll_clearing (suc i) w =
      let (flag, w') = read_smi global2 cmd (write_smi global2 data_reg 0 w) in
      let rest = poll_clearing i w' in if bit_and flag 0x8000 == 0 then (i, w') else rest

  -- The value goes to `*data`.
  unfoldable pub serdes_read : ℕ → ℕ → World → ℕ × World
  serdes_read dev reg w =
      let (i, w1) = poll_clearing 100 w in
      let w2 = write_smi global2 cmd (command 0x800 dev reg) w1 in
      read_smi global2 data_reg (poll_busy i w2).1

  unfoldable pub serdes_write : ℕ → ℕ → ℕ → World → World
  serdes_write dev reg value w =
      let (i, w1) = poll_busy 100 w in
      let w2 = write_smi global2 data_reg value w1 in
      write_smi global2 cmd (command 0x400 dev reg) (poll_busy i w2).1

-- `val`, as the sketch makes it, without masks.
unfoldable pub sketch_command : ℕ → ℕ → ℕ → ℕ
sketch_command code port reg = bit_or (bit_or code (port * 2 ^ 5)) reg % 2 ^ 16

-- In the sketch each loop has a counter of its own.
module _ (b : SmiBus) where
  open b use {World, read_smi, write_smi}

  -- `for (i = 0; i < n; i++)`, with `n - i` rounds to go.
  unfoldable pub poll_for : ℕ → World → World
  poll_for zero w = w
  poll_for (suc n) w =
      let (flag, w') = read_smi global2 cmd w in
      let rest = poll_for n w' in if bit_and flag 0x8000 == 0 then w' else rest

  unfoldable pub sketch_read : ℕ → ℕ → World → ℕ × World
  sketch_read port reg w =
      let w1 = poll_for 100 w in
      let w2 = write_smi global2 cmd (sketch_command 0x9800 port reg) w1 in
      read_smi global2 data_reg (poll_for 100 w2)

  unfoldable pub sketch_write : ℕ → ℕ → ℕ → World → World
  sketch_write port reg value w =
      let w1 = write_smi global2 data_reg value (poll_for 100 w) in
      let w2 = write_smi global2 cmd (sketch_command 0x9400 port reg) (poll_for 100 w1) in
      poll_for 100 w2
