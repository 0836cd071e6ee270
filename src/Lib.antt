-- ===== src/Lib.antt =====
-- OpenDevice is a collection of Linux drivers and demonstrations. Its own code of most weight is a
-- device core of the shape of the kernel's, built in bus/common/device/device_register: devices are
-- added to a hierarchy of directories, links and attribute files, joined to a bus, bound to drivers,
-- and deleted. Beside it stand drivers for single pieces of hardware.
--
-- The parts and their modules:
-- * `Device` is device.c with the calls that it makes into bus.c. The record `Device` keeps which
--   links and files of a device exist, the references held, the lists it stands in; `Desc` what
--   demo_device, its class, type and bus say. `device_add` is demo_device_add cut at its labels, each
--   `undo_...` a label with what it falls through to. `device_del` is demo_device_del. `Uevent`
--   below it is the path of a device's node and the variables of its uevents, `Files` its uevent file,
--   `Startup` the start of the core with core.c and class.c.
-- * `Driver` is driver.c with the iterator and the probing of bus.c. The record `Core` keeps the
--   driver of each device, the driver's list it stands in, and the two lists of deferred devices with
--   the trigger counter. `really_probe` is demo_really_probe, `device_attach` demo_device_attach,
--   `deferred_probe_work` the work function, `release_bound` __demo_device_release_driver.
--   `Device` records the call of demo_bus_probe_device as an event; `Driver` is what it runs.
--   `Queue` and `Once` below it see the two lists of deferred devices as one queue.
-- * `Joint` puts the two together: `Machine` is a device and the driver core, and `device_register` and
--   `device_unregister`, demo_device_register and demo_device_unregister, run the recorded calls. The
--   private data, dev->p, is that of the core: the addition finds it there, allocates and frees it.
-- * `Devres` is devres.c: the two passes that move a device's managed resources to the list of those
--   to be released, and the release.
-- * `Arisc` is soc/sunxi/arisc/hardmsgbox/demo_hwmessagebox.c: the requests to the power processor.
--   The message box of the platform is the interface `Box`, its documented laws hypotheses.
-- * `DemoBus` is bus/demo_bus/bus_resource: bus.c, whose demo_device_add claims a device's resources
--   in the kernel's tree (the interface `Kernel`, what is documented of it `TreeLaws`), and the driver
--   of resource.c, whose `Holding` is what it has taken for a device. `Register` is a device that is
--   registered, unregistered and registered again (the laws `TwiceLaws`), `Bus` the start and the end
--   of the bus and the registration of drivers.
-- * `Tty` is char/tty/tty.c: `start_tx` is dummy_start_tx, `dummy_read` what the program at the other
--   side of the port reads, `create_manager_device` what a port takes. `Turns` is the writer and the
--   reader as two threads, `Manager` the writes, signals and settings of the program at the other
--   side, `Ports` the probe, the removal and the open over all ports. The circular buffer is that of
--   the serial core.
-- * `Can` is bus/can/can_device_parse_can_frame.c: its handlers, and as `Step` and `Reach` the orders
--   in which they can run while the device is up; `Frame` the parts of an identifier, and the start.
-- * `Mdio` is bus/mdio/MDIO_MISC.c with the user program of MDIO_userspace_API.c. `Command` makes the
--   words that go to the address register, `Bus` the transfers over the interface `Registers`, whose
--   documented laws are `ControllerLaws`. `Misc` is the file operations; `Sys` is the file, the
--   variables of the driver and the memory of the user, which is the interface `UserAccess`, together
--   with what the kernel answers to an ioctl before the driver sees it: FIGETBSZ, which is 2, is the
--   command by which the program means to select a register. `User` is the
--   program over them. `Probe` is what demo_probe takes, `Clock` the words of the clock register.
-- * `Phy` is subsystem/net/phy/phy_basic.c: `Regs` is demo_phy_update_regs, `Bus` the list of PHYs
--   with the functions that walk it, `Table` the same as a table from identifiers to PHYs, `Safe`
--   the lists that calls can make, `Init` the start and the exit.
-- * `Smi` is the management interface by hand, on Arduino boards: bus/mdio/arduino/mdio.c, with what
--   bus/smi/arduino/sketch_mar28b and soc/arduino/tools/aup_tools have beside it. `Pins` is the frames
--   over the interface `Arduino`, `Serdes` the registers behind a switch, `Menu` the menu of mdio.c;
--   `Sketch` the modes of ports and the menu of the sketch; `Aup` and `Boards` the entries, the
--   initialisations and the menus of aup_tools.ino. What is documented of the pins is `PinLaws`, of a
--   slave of IEEE 802.3 `ClauseLaws`, of a switch `SwitchLaws`, with what a write makes of its registers
--   as a parameter; `Listener` and `Bench` keep them.
-- * `Base` holds what the modules share: tests on numbers, lists, the return codes, and
--   under `Bits` the laws of `&` and `|` on fields.
--
-- Conventions. A call that sysfs, kobject or an allocator answers takes its answer from a function of
-- the number of the call, so that a theorem holds whatever fails. Notifiers, user events, probe and
-- remove functions of other code are recorded as events in order, or are parameters that act on the
-- state. A result is an integer, an error a negative one, as in the source. A 32-bit counter is
-- reduced by 2 ^ 32.
--
-- Fuel. Four loops are not structural. The work on deferred devices runs on fuel, and `work_left`, a
-- number computed from the two lists, is shown to be enough; the loop of a transmission runs on the
-- room in the FIFO and one more, the loop over a device's name on its length and one more, and both
-- are enough. A busy wait of the MDIO driver runs on fuel that has to exceed the number of reads for
-- which the controller stays busy; the same fuel then serves every further wait. The loops over a mask
-- of `Smi` run on one round more than the mask has digits, and that is enough. The menus, which the
-- boards run for ever, run for a number of rounds, and so do the `while (1)` loops inside them.
--
-- Not modelled: locks and the scheduling of work (every function runs as a whole, and other code acts
-- on the core through probe functions only), the memory of a device after its last reference, the
-- text of the attribute files but the uevent file, the delays and prompts of the boards. The drivers
-- that are copies of the kernel's (cp210x, mcp251x) and the demonstrations that only call a kernel
-- facility are left out, and so is the SMI bus over GPIO pins, bus/smi/gpio/SMI_gpio.c, which uses
-- names that it does not declare.
pub mod Base
pub mod Device
pub mod Devres
pub mod Arisc
pub mod Driver
pub mod DemoBus
pub mod Tty
pub mod Can
pub mod Mdio
pub mod Phy
pub mod Smi
pub mod Joint
