-- ===== src/Smi/Tests.antt =====
-- Frames on a board with a listener.
use open_device.Base.{
  ◌+◌, ◌*◌, ◌≡◌, refl, ap, Bool, true, false, [], ◌∷◌, ◌++◌, if◌then◌else◌, arith,
}
use open_device.Smi.Aup.{smi_22c_write_register, smi_22c_read_register}
use open_device.Smi.Unbuffered.{smi_22c-smi}
use open_device.Smi.Pins.{Pin, dir, mdc, mdio, Arduino, smi_init, write_smi, read_smi}
use open_device.Smi.Wiring.{Pins, rises, moded, wrote, drives, PinLaws}
use open_device.Smi.Frames.{write_frame}
use open_device.Smi.Sent.{driven}
use open_device.Smi.Wire.{SetUp, Left, write_smi-Left}
use open_device.Smi.Clause.{Ready, write_smi-read_smi}
use open_device.Smi.Serdes.{by_hand}
use open_device.Smi.Menu.{setup}
use open_device.Smi.Shown.{setup_shown}
use open_device.Smi.Sketch.{switch_6390init}
use open_device.Smi.Modes.{
  Line, LineLaws, hand_line, hand_line-LineLaws, Moded, switch_6390init-Moded,
}
use open_device.Smi.Listener.{listener, clause_of_listener}
use open_device.Smi.Heeds.{listener-ClauseLaws}

abbrev bench : Arduino
bench = record {
  World = Pins listener;
  pin_mode = moded listener;
  digital_write = wrote listener;
  digital_read = λ _ w. if drives listener w then w.mdio_level else listener.shows w.slave;
}

abbrev seen : bench.World → Pins listener
seen w = w

bench-PinLaws : PinLaws bench listener seen
bench-PinLaws = record {
  mode_lem = λ p v w. refl;
  write_lem = λ p v w. refl;
  read_lem = λ w h. ap (λ d. if d then w.mdio_level else listener.shows w.slave) h;
}

-- All pins are inputs and low; register `b` of PHY `a` holds 100 * a + b.
abbrev powered : bench.World
powered = record {
  dir_mode = false;
  dir_level = false;
  mdc_mode = false;
  mdc_level = false;
  mdio_mode = false;
  mdio_level = false;
  slave = record { seen = 0; left = 0; word = 0; answer = 0; table = λ a b. 100 * a + b };
}

abbrev started : bench.World
started = smi_init bench powered

started-SetUp : SetUp listener started
unfolding smi_init
started-SetUp = record { dir_mode = refl; mdc_mode = refl }

started-Ready : Ready listener clause_of_listener started
unfolding smi_init
started-Ready = record { set_up = started-SetUp; waits = refl }

write_frame_sent :
    Left listener
      (rises listener (driven (write_frame 33 5 7 0xBEEF ++ true ∷ [])) started.slave)
      (write_smi bench 5 7 0xBEEF started)
unfolding smi_init
write_frame_sent = write_smi-Left bench listener seen bench-PinLaws 5 7 0xBEEF started started-SetUp

line_write_then_read :
    ((read_smi bench 5 7 (write_smi bench 5 7 0xBEEF started)).0 ≡ 0xBEEF)
    × Ready listener clause_of_listener (read_smi bench 5 7 (write_smi bench 5 7 0xBEEF started)).1
line_write_then_read =
    write_smi-read_smi bench listener seen bench-PinLaws clause_of_listener listener-ClauseLaws 5 7
      0xBEEF 5 7 started started-Ready

entered_and_shown :
    (setup bench 2 (2 ∷ 5 ∷ 7 ∷ 300 ∷ 1 ∷ 5 ∷ 7 ∷ []) powered).shown ≡ 300 ∷ 300 ∷ []
entered_and_shown =
    setup_shown bench listener seen bench-PinLaws clause_of_listener listener-ClauseLaws 5 7 300
      powered (omega arith) (omega arith) refl

abbrev line_of_bench : Line (by_hand bench)
line_of_bench = hand_line bench listener seen bench-PinLaws clause_of_listener listener-ClauseLaws

line_of_bench-LineLaws : LineLaws (by_hand bench) line_of_bench
line_of_bench-LineLaws =
    hand_line-LineLaws bench listener seen bench-PinLaws clause_of_listener listener-ClauseLaws

mode_of_port_10 :
    Moded
      (by_hand bench)
      line_of_bench
      line_of_bench-LineLaws
      10
      9
      started
      (switch_6390init (by_hand bench) started)
mode_of_port_10 =
    switch_6390init-Moded (by_hand bench) line_of_bench line_of_bench-LineLaws started started-Ready

-- The board without the buffer: nothing hangs on the pin DIR.
abbrev write_unbuffered : Pin → Bool → Pins listener → Pins listener
write_unbuffered dir v w = w
write_unbuffered mdc v w = wrote listener mdc v w
write_unbuffered mdio v w = wrote listener mdio v w

abbrev unbuffered : Arduino
unbuffered = record bench { digital_write = write_unbuffered }

same_frames :
    (smi_22c_write_register unbuffered 5 7 300 powered ≡ write_smi unbuffered 5 7 300 powered)
    × (smi_22c_read_register unbuffered 5 7 powered ≡ read_smi unbuffered 5 7 powered)
same_frames = smi_22c-smi unbuffered (λ v w. refl) 5 7 300 powered
