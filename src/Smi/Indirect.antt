-- ===== src/Smi/Indirect.antt =====
-- What the functions of `Serdes` do with a switch that keeps its documented laws.
use open_device.Base.{
  ℕ, ◌+◌, ◌-◌, ◌*◌, ◌/◌, ◌%◌, ◌^◌, ◌≤◌, ◌<◌, ◌≡◌, ◌∙◌, ap, ap₂, Bool, true, not, ltb, ◌&&◌, ◌==◌,
  if◌then◌else◌, bit_and, bit_or, arith,
}
use open_device.Base.Bits.{bit_and_mask, bit_or_disjoint}
use open_device.Smi.Serdes.{SmiBus, global2, cmd, data_reg, command, sketch_command}

-- `behind a c` is register `c` of the device `a` behind the switch, `left` the number of polls that
-- still find it busy, `latched` its data register, `turns` the most polls that an operation takes.
-- `effect d r v t` is what the registers `t` become by a write of `v` to register `r` of the device `d`.
pub record Switch (b : SmiBus) : Type 0 where
  pub behind : ℕ → ℕ → b.World → ℕ
  pub left : b.World → ℕ
  pub latched : b.World → ℕ
  pub turns : ℕ
  pub effect : ℕ → ℕ → ℕ → (ℕ → ℕ → ℕ) → ℕ → ℕ → ℕ

-- A write that sets its register and nothing else: not to register 22, which selects the page that the
-- others are of, and not of a reset, digit 15 of register 0.
abbrev pub is_plain : ℕ → ℕ → Bool
is_plain r v = not (r == 0x16) && not ((r == 0) && ltb 0x7fff v)

-- Nothing but the time has changed.
pub record Same (b : SmiBus) (c : Switch b) (w w' : b.World) : Type 0 where
  pub behind : (a r : ℕ) → c.behind a r w' ≡ c.behind a r w
  pub latched : c.latched w' ≡ c.latched w

-- The busy flag is digit 15 of the command register. A command is the flag, the digit of clause 22,
-- two digits of the operation and five each of the device and the register. Nothing is said of the
-- data register while an operation goes on.
pub record SwitchLaws (b : SmiBus) (c : Switch b) : Type 0 where
  pub poll_busy-flag :
      (w : b.World) → (bit_and (b.read_smi global2 cmd w).0 0x8000 == 0) ≡ (c.left w == 0)
  pub poll_busy-left : (w : b.World) → c.left (b.read_smi global2 cmd w).1 ≡ c.left w - 1
  pub poll_busy-Same : (w : b.World) → Same b c w (b.read_smi global2 cmd w).1
  pub data-value : (w : b.World) → c.left w ≡ 0 → (b.read_smi global2 data_reg w).0 ≡ c.latched w
  pub data-left : (w : b.World) → c.left (b.read_smi global2 data_reg w).1 ≡ c.left w
  pub data-Same : (w : b.World) → Same b c w (b.read_smi global2 data_reg w).1
  pub put-latched :
      (v : ℕ) (w : b.World)
      → c.left w ≡ 0
      → c.latched (b.write_smi global2 data_reg v w) ≡ v % 2 ^ 16
  pub put-left : (v : ℕ) (w : b.World) → c.left (b.write_smi global2 data_reg v w) ≡ c.left w
  pub put-behind :
      (v : ℕ) (w : b.World)
      → c.left w ≡ 0
      → (a r : ℕ) → c.behind a r (b.write_smi global2 data_reg v w) ≡ c.behind a r w
  pub start-left : (v : ℕ) (w : b.World) → c.left (b.write_smi global2 cmd v w) ≤ c.turns
  pub read-latched :
      (v : ℕ) (w : b.World)
      → c.left w ≡ 0
      → v / 2 ^ 10 ≡ 38
      → c.latched (b.write_smi global2 cmd v w) ≡ c.behind (v / 2 ^ 5 % 32) (v % 32) w
  pub read-behind :
      (v : ℕ) (w : b.World)
      → c.left w ≡ 0
      → v / 2 ^ 10 ≡ 38
      → (a r : ℕ) → c.behind a r (b.write_smi global2 cmd v w) ≡ c.behind a r w
  pub write-behind :
      (v : ℕ) (w : b.World)
      → c.left w ≡ 0
      → v / 2 ^ 10 ≡ 37
      → (a r : ℕ)
      → c.behind a r (b.write_smi global2 cmd v w)
        ≡ c.effect (v / 2 ^ 5 % 32) (v % 32) (c.latched w) (λ x y. c.behind x y w) a r
  pub effect-plain :
      (d r v : ℕ) (t : ℕ → ℕ → ℕ)
      → is_plain r v ≡ true
      → (x y : ℕ) → c.effect d r v t x y ≡ (if (x == d) && (y == r) then v else t x y)

-- The fields of a command.
abbrev pub fields : ℕ → ℕ → ℕ → ℕ
fields code dev reg = (code * 2 ^ 5 + dev % 32) * 2 ^ 5 + reg % 32

joined :
    (code dev reg : ℕ)
    → dev < 32
    → reg < 32
    → bit_or (bit_or (code * 2 ^ 10) (dev * 2 ^ 5)) reg ≡ (code * 2 ^ 5 + dev) * 2 ^ 5 + reg
joined code dev reg d r =
    ap (λ t. bit_or t reg)
      (bit_or_disjoint 10 code (dev * 2 ^ 5) (omega arith)
        ∙ (let e : code * 2 ^ 10 + dev * 2 ^ 5 ≡ (code * 2 ^ 5 + dev) * 2 ^ 5 = omega arith in e))
    ∙ bit_or_disjoint 5 (code * 2 ^ 5 + dev) reg r

pub read_command-fields : (dev reg : ℕ) → command 0x800 dev reg ≡ fields 38 dev reg
unfolding command
read_command-fields dev reg =
    ap₂ (λ x y. bit_or (bit_or 0x9800 (x * 2 ^ 5)) y) (bit_and_mask 5 dev) (bit_and_mask 5 reg)
    ∙ joined 38 (dev % 32) (reg % 32) (omega arith) (omega arith)

pub write_command-fields : (dev reg : ℕ) → command 0x400 dev reg ≡ fields 37 dev reg
unfolding command
write_command-fields dev reg =
    ap₂ (λ x y. bit_or (bit_or 0x9400 (x * 2 ^ 5)) y) (bit_and_mask 5 dev) (bit_and_mask 5 reg)
    ∙ joined 37 (dev % 32) (reg % 32) (omega arith) (omega arith)

pub sketch_read_fields :
    (port reg : ℕ) → port < 32 → reg < 32 → sketch_command 0x9800 port reg ≡ fields 38 port reg
unfolding sketch_command
sketch_read_fields port reg p r = ap (λ t. t % 2 ^ 16) (joined 38 port reg p r) ∙ omega arith

pub sketch_write_fields :
    (port reg : ℕ) → port < 32 → reg < 32 → sketch_command 0x9400 port reg ≡ fields 37 port reg
unfolding sketch_command
sketch_write_fields port reg p r = ap (λ t. t % 2 ^ 16) (joined 37 port reg p r) ∙ omega arith
