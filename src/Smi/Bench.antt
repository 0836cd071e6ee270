-- ===== src/Smi/Bench.antt =====
-- A switch for the examples, an operation of which takes two polls; and one that stays busy.
use open_device.Base.{
  ℕ, zero, suc, ◌+◌, ◌-◌, ◌/◌, ◌%◌, ◌^◌, ◌≡◌, refl, ◌&&◌, ◌==◌, if◌then◌else◌, bit_and, arith, ltb,
}
use open_device.Smi.Serdes.{SmiBus, global2, cmd, data_reg}
use open_device.Smi.Indirect.{Switch, SwitchLaws}
use open_device.Smi.Stuck.{StuckLaws}

pub record State : Type 0 where
  pub left : ℕ
  pub latched : ℕ
  pub behind : ℕ → ℕ → ℕ
  pub line : ℕ → ℕ → ℕ

abbrev update : (ℕ → ℕ → ℕ) → ℕ → ℕ → ℕ → ℕ → ℕ → ℕ
update t a r v a' r' = if (a' == a) && (r' == r) then v else t a' r'

-- A reset clears its own digit and the other registers of the device; the page is a register.
abbrev after_write : ℕ → ℕ → ℕ → (ℕ → ℕ → ℕ) → ℕ → ℕ → ℕ
after_write d r v t a b =
    if (r == 0) && ltb 0x7fff v then (if a == d then 0 else t a b) else update t d r v a b

abbrev start : ℕ → State → State
start v x = record x {
  left = 2;
  latched = if v / 2 ^ 10 == 38 then x.behind (v / 2 ^ 5 % 32) (v % 32) else x.latched;
  behind = λ a r.
      if v / 2 ^ 10 == 37
      then after_write (v / 2 ^ 5 % 32) (v % 32) x.latched x.behind a r
      else x.behind a r;
}

abbrev read : ℕ → ℕ → State → ℕ × State
read phy reg x =
    if (phy % 32 == global2) && (reg % 32 == cmd)
    then (if x.left == 0 then 0 else 0x8000, record x { left = x.left - 1 })
    else if (phy % 32 == global2) && (reg % 32 == data_reg)
    then (x.latched, x)
    else (x.line (phy % 32) (reg % 32), x)

abbrev write : ℕ → ℕ → ℕ → State → State
write phy reg v x =
    if (phy % 32 == global2) && (reg % 32 == cmd)
    then start v x
    else if (phy % 32 == global2) && (reg % 32 == data_reg)
    then record x { latched = v % 2 ^ 16 }
    else record x { line = update x.line (phy % 32) (reg % 32) (v % 2 ^ 16) }

abbrev pub bench_bus : SmiBus
bench_bus = record { World = State; read_smi = read; write_smi = write }

abbrev pub bench_switch : Switch bench_bus
bench_switch = record {
  behind = λ a r x. x.behind a r;
  left = λ x. x.left;
  latched = λ x. x.latched;
  turns = 2;
  effect = after_write;
}

flag_of : (n : ℕ) → (bit_and (if n == 0 then 0 else 0x8000) 0x8000 == 0) ≡ (n == 0)
flag_of zero = refl
flag_of (suc n) = ground arith

pub bench-SwitchLaws : SwitchLaws bench_bus bench_switch
bench-SwitchLaws = record {
  poll_busy-flag = λ w. flag_of w.left;
  poll_busy-left = λ w. refl;
  poll_busy-Same = λ w. record { behind = λ a r. refl; latched = refl };
  data-value = λ w h. refl;
  data-left = λ w. refl;
  data-Same = λ w. record { behind = λ a r. refl; latched = refl };
  put-latched = λ v w h. refl;
  put-left = λ v w. refl;
  put-behind = λ v w h a r. refl;
  start-left = λ v w. omega arith;
  read-latched = λ v w h e. rw e refl;
  read-behind = λ v w h e a r. rw e refl;
  write-behind = λ v w h e a r. rw e refl;
  effect-plain = λ d r v t h x y. ground (arith, h);
}

-- The flag never falls; the world counts the polls.
abbrev pub stuck_bus : SmiBus
stuck_bus = record {
  World = ℕ;
  read_smi = λ phy reg n. if reg == cmd then (0x8000, n + 1) else (0, n);
  write_smi = λ phy reg v n. n;
}

pub stuck-StuckLaws : StuckLaws stuck_bus (λ n. n)
stuck-StuckLaws = record {
  flag = λ w. refl;
  read-polls = λ w. refl;
  data-polls = λ w. refl;
  write-polls = λ reg v w. refl;
}
