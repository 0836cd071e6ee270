-- ===== src/Smi/Rounds.antt =====
-- Whole sessions of the menu: what no entry can make it do.
use open_device.Base.{
  ℕ, zero, suc, ◌-◌, ◌%◌, ◌^◌, ◌<◌, ◌≤◌, ◌≡◌, sym, subst, ==_iff, ◌==◌, ltb, List, if_cases,
  Bool-cases, inl, inr, arith,
}
use open_device.Smi.Serdes.{SmiBus, serdes_read, serdes_write}
use open_device.Smi.Menu.{
  Session, parse_int, ask, show, ask_value, dump_ports, dump, option, rounds,
}
use open_device.Smi.Guarded.{
  Keeps, serdes_read-Keeps, serdes_write-Keeps, ask_address-Keeps, dump_ports-Keeps,
}

-- The second entry, as it is kept.
abbrev pub second : List ℕ → ℕ
second input = (parse_int (parse_int input).1).0 % 2 ^ 8

module _ (b : SmiBus) where
  -- In each of the next `n` rounds that choose option 3, the end port that is entered is 32 at most.
  abbrev pub EndsInRange : ℕ → Session b → Type 0
  EndsInRange zero s = Unit {0}
  EndsInRange (suc n) s =
      ((parse_int s.input).0 % 2 ^ 8 ≡ 3 → second (parse_int s.input).1 ≤ 32)
      × EndsInRange n (ask b (option b) s)

module _ (b : SmiBus) (P : b.World → Type 0) (keeps : Keeps b P) where
  dump-Keeps :
      (read : ℕ → ℕ → b.World → ℕ × b.World) (top : ℕ)
      → ((phy reg : ℕ) (w : b.World) → phy < top → reg < 32 → P w → P (read phy reg w).1)
      → (s : Session b) → second s.input ≤ top
      → P s.world
      → P (dump b read s).world
  unfolding dump ask dump_ports
  dump-Keeps read top each s e h =
      let phy : ℕ = (parse_int s.input).0 % 2 ^ 8 in
      let i : ℕ = second s.input in
      let t : Session b = record s { input = (parse_int (parse_int s.input).1).1 } in
      elim (Bool-cases (ltb phy i)) [
        | inl p ↦ dump_ports-Keeps b P keeps read top each (i - phy) phy t (ground arith) h
        | inr p ↦
            let z : i - phy ≡ 0 = ground arith in
            subst (λ n. P (dump_ports b read n phy t).world) (sym z) h
      ]

  ask_value-Keeps :
      (write : ℕ → b.World → b.World)
      → ((v : ℕ) (w : b.World) → v < 2 ^ 16 → P w → P (write v w))
      → (s : Session b) → P s.world
      → P (ask_value b write s).world
  unfolding ask_value show
  ask_value-Keeps write each s h = each ((parse_int s.input).0 % 2 ^ 16) s.world (omega arith) h

  option-Keeps :
      (sel : ℕ) (s : Session b)
      → (sel ≡ 3 → second s.input ≤ 32)
      → P s.world
      → P (option b sel s).world
  unfolding option show
  option-Keeps sel s e h =
      let M : (Session b → Session b) → Type 0 = λ f. P (f s).world in
      if_cases M (sel == 1)
        (λ _.
          ask_address-Keeps b P keeps _ (λ phy reg t p r g. keeps.read phy reg t.world p r g) s h)
        (λ _.
          if_cases M (sel == 2)
            (λ _.
              ask_address-Keeps b P keeps _
                (λ phy reg t p r g.
                  ask_value-Keeps (b.write_smi phy reg) (λ v w few. keeps.write phy reg v w p r few)
                    t g)
                s h)
            (λ _.
              if_cases M (sel == 3)
                (λ t. dump-Keeps b.read_smi 32 keeps.read s (e ((==_iff sel 3).0 t)) h)
                (λ _.
                  if_cases M (sel == 4)
                    (λ _.
                      ask_address-Keeps b P keeps _
                        (λ phy reg t p r g. serdes_read-Keeps b P keeps phy reg t.world g) s h)
                    (λ _.
                      if_cases M (sel == 5)
                        (λ _.
                          ask_address-Keeps b P keeps _
                            (λ phy reg t p r g.
                              ask_value-Keeps (serdes_write b phy reg)
                                (λ v w few i. serdes_write-Keeps b P keeps phy reg v w few i) t g)
                            s h)
                        (λ _.
                          if_cases M (sel == 6)
                            (λ _.
                              dump-Keeps (serdes_read b) 256
                                (λ phy reg w _ _ g. serdes_read-Keeps b P keeps phy reg w g) s
                                (omega arith) h)
                            (λ _. h))))))

  -- Whatever is entered, in any number of rounds, no access of the menu reaches the bus with a PHY
  -- or a register above 31 or a value of more than sixteen digits, as long as each end port that is
  -- entered for option 3, which the code does not check, is 32 at most: what every other access
  -- keeps, the session keeps.
  pub rounds-Keeps :
      (n : ℕ) (s : Session b) → EndsInRange b n s → P s.world → P (rounds b n s).world
  unfolding rounds ask
  rounds-Keeps zero s e h = h
  rounds-Keeps (suc n) s e h = rounds-Keeps n (ask b (option b) s) e.1 (
      option-Keeps ((parse_int s.input).0 % 2 ^ 8) (record s { input = (parse_int s.input).1 }) e.0
        h)
