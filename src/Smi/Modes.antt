-- ===== src/Smi/Modes.antt =====
-- The modes that the sketch gives to the ports of the switch.
use native.Mathlib.Nat.{mod-eq_of_lt}
use open_device.Base.{
  ℕ, ◌+◌, ◌*◌, ◌/◌, ◌%◌, ◌^◌, ◌<◌, ◌≡◌, ◌∙◌, refl, ap, ap₂, true, ◌&&◌, ◌==◌, if◌then◌else◌,
  if_cases, ==_iff, bit_and, bit_or, arith,
}
use open_device.Base.Bits.{bit_and_mask, bit_and_high, bit_or_disjoint}
use open_device.Smi.Pins.{Arduino}
use open_device.Smi.Wiring.{Slave, Pins, PinLaws}
use open_device.Smi.Clause.{Clause22, ClauseLaws, Ready, read_smi-Read, write_smi-Written}
use open_device.Smi.Serdes.{SmiBus, by_hand}
use open_device.Smi.Sketch.{set_c_mode, switch_6390init}

-- A bus whose reads and writes are those of registers, as the pins and a slave make it.
pub record Line (b : SmiBus) : Type 1 where
  pub Serves : b.World → Type 0
  pub holds : ℕ → ℕ → b.World → ℕ

pub record LineLaws (b : SmiBus) (l : Line b) : Type 0 where
  pub bounded : (a r : ℕ) (w : b.World) → l.holds a r w < 2 ^ 16
  pub read-value :
      (a r : ℕ) (w : b.World) → l.Serves w → (b.read_smi a r w).0 ≡ l.holds (a % 32) (r % 32) w
  pub read-Serves : (a r : ℕ) (w : b.World) → l.Serves w → l.Serves (b.read_smi a r w).1
  pub read-holds :
      (a r : ℕ) (w : b.World)
      → l.Serves w
      → (a' r' : ℕ) → l.holds a' r' (b.read_smi a r w).1 ≡ l.holds a' r' w
  pub write-Serves : (a r v : ℕ) (w : b.World) → l.Serves w → l.Serves (b.write_smi a r v w)
  pub write-holds :
      (a r v : ℕ) (w : b.World)
      → l.Serves w
      → (a' r' : ℕ)
      → l.holds a' r' (b.write_smi a r v w)
        ≡ (if (a' == a % 32) && (r' == r % 32) then v % 2 ^ 16 else l.holds a' r' w)

-- The bus by hand is such a bus.
module _ (a : Arduino) (s : Slave) (view : a.World → Pins s) (laws : PinLaws a s view)
    (c : Clause22 s) (clause : ClauseLaws s c) where
  abbrev pub hand_line : Line (by_hand a)
  hand_line = record {
    Serves = λ w. Ready s c (view w);
    holds = λ p r w. c.holds p r (view w).slave;
  }

  pub hand_line-LineLaws : LineLaws (by_hand a) hand_line
  hand_line-LineLaws = record {
    bounded = λ p r w. clause.bounded p r (view w).slave;
    read-value = λ p r w h. (read_smi-Read a s view laws c clause p r w h).value;
    read-Serves = λ p r w h. (read_smi-Read a s view laws c clause p r w h).ready;
    read-holds = λ p r w h. (read_smi-Read a s view laws c clause p r w h).holds;
    write-Serves = λ p r v w h. (write_smi-Written a s view laws c clause p r v w h).ready;
    write-holds = λ p r v w h. (write_smi-Written a s view laws c clause p r v w h).holds;
  }

-- The digits of a mode in a word.
with_mode :
    (value mode : ℕ)
    → value < 2 ^ 16
    → mode < 16
    → bit_or (bit_and value 0xFFF0) mode ≡ value / 16 * 16 + mode
with_mode value mode h m =
    let q : ℕ = value / 16 in
    let parts : value ≡ q * 2 ^ 4 + value % 16 = omega arith in
    let high : bit_and value 0xFFF0 ≡ q * 2 ^ 4 =
      ap (λ v. bit_and v (0xFFF * 2 ^ 4)) parts
      ∙ bit_and_high 4 q (value % 16) 0xFFF (omega arith)
      ∙ ap (λ d. d * 2 ^ 4) (bit_and_mask 12 q ∙ omega arith) in
    ap (λ d. bit_or d mode) high ∙ bit_or_disjoint 4 q mode (omega arith)

both : (a p r : ℕ) → ((a == p) && (r == 0)) ≡ true → (a ≡ p) × (r ≡ 0)
both a p r h = (ground arith, ground arith)

low_mode : (value : ℕ) → bit_and value 0xF ≡ value % 16
low_mode value = bit_and_mask 4 value

module _ (b : SmiBus) (l : Line b) (laws : LineLaws b l) where
  -- Register 0 of the port has the mode in its last four digits and what it had in the others; no
  -- other register has changed.
  pub record Moded (port mode : ℕ) (w w' : b.World) : Type 0 where
    pub serves : l.Serves w'
    pub holds :
        (a r : ℕ)
        → l.holds a r w'
          ≡ (if (a == port) && (r == 0) then l.holds port 0 w / 16 * 16 + mode else l.holds a r w)

  kept_mode :
      (port mode : ℕ) (w : b.World) {a r : ℕ}
      → (b.read_smi port 0 w).0 ≡ l.holds port 0 w
      → (bit_and (b.read_smi port 0 w).0 0xF == mode) ≡ true
      → (a ≡ port) × (r ≡ 0)
      → l.holds a r w ≡ l.holds port 0 w / 16 * 16 + mode
  kept_mode port mode w {a} {r} got e at =
      let m : bit_and (b.read_smi port 0 w).0 0xF ≡ mode = (==_iff _ mode).0 e in
      ap₂ (λ x y. l.holds x y w) at.0 at.1 ∙ omega (arith, low_mode (b.read_smi port 0 w).0, m, got)

  set_c_mode-Moded :
      (port mode : ℕ) (w : b.World)
      → port < 32
      → mode < 16
      → l.Serves w
      → Moded port mode w (set_c_mode b port mode w)
  unfolding set_c_mode
  set_c_mode-Moded port mode w p m h =
      let value : ℕ = l.holds port 0 w in
      let got : (b.read_smi port 0 w).0 ≡ value =
        laws.read-value port 0 w h ∙ ap (λ a. l.holds a 0 w) (mod-eq_of_lt p) in
      let w1 : b.World = (b.read_smi port 0 w).1 in
      let set : ℕ = bit_or (bit_and (b.read_smi port 0 w).0 0xFFF0) mode in
      let put : set ≡ value / 16 * 16 + mode =
        ap (λ v. bit_or (bit_and v 0xFFF0) mode) got
        ∙ with_mode value mode (laws.bounded port 0 w) m in
      if_cases (λ u. Moded port mode w u) (bit_and (b.read_smi port 0 w).0 0xF == mode)
        (λ e. record {
          serves = laws.read-Serves port 0 w h;
          holds = λ a r.
              laws.read-holds port 0 w h a r
              ∙ if_cases (λ n. l.holds a r w ≡ n) ((a == port) && (r == 0))
                  (λ t. kept_mode port mode w got e (both a port r t)) (λ _. refl);
        })
        (λ _. record {
          serves = laws.write-Serves port 0 set w1 (laws.read-Serves port 0 w h);
          holds = λ a r.
              laws.write-holds port 0 set w1 (laws.read-Serves port 0 w h) a r
              ∙ ap₂ (λ q v. if (a == q) && (r == 0) then v else l.holds a r w1) (mod-eq_of_lt p)
                  (omega (arith, put, laws.bounded port 0 w))
              ∙ ap (λ n. if (a == port) && (r == 0) then value / 16 * 16 + mode else n)
                  (laws.read-holds port 0 w h a r);
        })

  -- Switch_6390init of the sketch, on a line that serves: register 0 of port 10 has the mode 9 in
  -- its last four digits and keeps the others, and no other register has changed, whatever the
  -- identifier of the switch is.
  pub switch_6390init-Moded : (w : b.World) → l.Serves w → Moded 10 9 w (switch_6390init b w)
  unfolding switch_6390init
  switch_6390init-Moded w h =
      let w1 : b.World = (b.read_smi 10 3 w).1 in
      let e : Moded 10 9 w1 (set_c_mode b 10 9 w1) =
        set_c_mode-Moded 10 9 w1 (omega arith) (omega arith) (laws.read-Serves 10 3 w h) in
      record {
        serves = e.serves;
        holds = λ a r.
            e.holds a r
            ∙ ap₂ (λ m n. if (a == 10) && (r == 0) then m / 16 * 16 + 9 else n)
                (laws.read-holds 10 3 w h 10 0) (laws.read-holds 10 3 w h a r);
      }
