-- ===== src/Smi/SwitchTests.antt =====
-- The registers behind a switch, and the sessions of the menus.
use open_device.Base.{
  ℕ, ◌+◌, ◌%◌, ◌^◌, ltb, ◌||◌, ◌≡◌, refl, Bool, true, false, ◌&&◌, ◌==◌, [], ◌∷◌, if◌then◌else◌,
  arith,
}
use open_device.Smi.Serdes.{SmiBus, serdes_read, sketch_read, sketch_write}
use open_device.Smi.Indirect.{is_plain}
use open_device.Smi.Access.{sketch_write-sketch_read}
use open_device.Smi.Stuck.{serdes_read_polls}
use open_device.Smi.Menu.{Session, rounds, ask, option, ask_address}
use open_device.Smi.Guarded.{Keeps}
use open_device.Smi.Rounds.{EndsInRange, rounds-Keeps}
use open_device.Smi.Aup.{looping}
use open_device.Smi.Boards.{loop}
use open_device.Smi.Unbuffered.{read_rounds, loop_stays}
use open_device.Smi.Bench.{
  State, bench_bus, bench_switch, bench-SwitchLaws, stuck_bus, stuck-StuckLaws,
}

abbrev at_rest : State
at_rest = record { left = 1; latched = 0; behind = λ a r. a + r; line = λ a r. 0 }

far_write_then_read :
    let after : ℕ → ℕ → ℕ = bench_switch.effect (3 % 32) (4 % 32) (70000 % 2 ^ 16) (λ x y. x + y) in
    let o : ℕ × State = sketch_read bench_bus 3 4 (sketch_write bench_bus 3 4 70000 at_rest) in
    (o.0 ≡ after (3 % 32) (4 % 32))
    × ((a r : ℕ) → o.1.behind a r ≡ after a r)
    × (o.1.left ≡ 0)
    × (is_plain (4 % 32) (70000 % 2 ^ 16) ≡ true
        → (a r : ℕ)
        → after a r ≡ (if (a == 3 % 32) && (r == 4 % 32) then 70000 % 2 ^ 16 else a + r))
far_write_then_read =
    sketch_write-sketch_read bench_bus bench_switch bench-SwitchLaws 3 4 70000 3 4 at_rest
      (omega arith) (omega arith) (omega arith) (omega arith) (omega arith) (omega arith)

polls_of_a_stuck_switch :
    ((serdes_read stuck_bus 3 4 0).1 ≡ 0 + (100 + 65535))
    × ((sketch_read stuck_bus 3 4 0).1 ≡ 0 + (100 + 100))
polls_of_a_stuck_switch = serdes_read_polls stuck_bus (λ n. n) stuck-StuckLaws 3 4 0

read_and_stay :
    loop bench_bus 8 (record { input = 0 ∷ 0 ∷ 5 ∷ 7 ∷ []; shown = []; world = at_rest })
    ≡ looping (record { input = []; shown = []; world = read_rounds bench_bus 7 5 7 at_rest })
read_and_stay = loop_stays bench_bus 7 5 7 [] [] at_rest (omega arith) (omega arith)

-- A bus that remembers whether an address was out of range.
abbrev watched : SmiBus
watched = record {
  World = Bool;
  read_smi = λ phy reg w. (0, w || (ltb 31 phy || ltb 31 reg));
  write_smi = λ phy reg v w. w || (ltb 31 phy || ltb 31 reg);
}

in_range-Keeps : Keeps watched (λ w. w ≡ false)
in_range-Keeps = record {
  read = λ phy reg w p r h. ground arith;
  write = λ phy reg v w p r s h. ground arith;
}

-- A write to register 40 of port 5, and a dump of port 0.
abbrev entries : Session watched
entries = record { input = 2 ∷ 5 ∷ 40 ∷ 3 ∷ 0 ∷ 1 ∷ []; shown = []; world = false }

entries-EndsInRange : EndsInRange watched 2 entries
unfolding ask option ask_address
entries-EndsInRange = (λ e. omega arith, (λ e. omega arith, tt))

no_access_out_of_range : (rounds watched 2 entries).world ≡ false
no_access_out_of_range =
    rounds-Keeps watched (λ w. w ≡ false) in_range-Keeps 2 entries entries-EndsInRange refl
