-- ===== src/Smi/Behind.antt =====
-- The polls end, and a register behind the switch is read or written.
use open_device.Base.{
  ℕ, zero, suc, ◌+◌, ◌/◌, ◌%◌, ◌^◌, ◌≤◌, ◌<◌, ◌≡◌, ◌∙◌, ap, ap₂, Bool, true, false, ◌==◌, if_cases,
  bit_and, arith,
}
use open_device.Smi.Serdes.{SmiBus, global2, cmd, data_reg, poll_busy, poll_for}
use open_device.Smi.Indirect.{Switch, Same, SwitchLaws, fields}

module _ (b : SmiBus) (c : Switch b) where
  -- A loop that found the switch idle: it has changed nothing, and `i` rounds were left of its
  -- counter before the last one.
  pub record Polled (w : b.World) (w' : b.World) : Type 0 where
    pub idle : c.left w' ≡ 0
    pub same : Same b c w w'

  -- A read that ended with what the register holds; no register has changed, and the switch is idle.
  pub record Fetched (dev reg : ℕ) (w : b.World) (o : ℕ × b.World) : Type 0 where
    pub value : o.0 ≡ c.behind (dev % 32) (reg % 32) w
    pub idle : c.left o.1 ≡ 0
    pub behind : (a r : ℕ) → c.behind a r o.1 ≡ c.behind a r w

  -- A write that was given to the switch: the registers are what it makes of them.
  pub record Given (dev reg value : ℕ) (w w' : b.World) : Type 0 where
    pub busy : c.left w' ≤ c.turns
    pub behind :
        (a r : ℕ)
        → c.behind a r w'
          ≡ c.effect (dev % 32) (reg % 32) (value % 2 ^ 16) (λ x y. c.behind x y w) a r

  Same-trans : (u v w : b.World) → Same b c u v → Same b c v w → Same b c u w
  Same-trans u v w s t = record {
    behind = λ a r. t.behind a r ∙ s.behind a r;
    latched = t.latched ∙ s.latched;
  }

module _ (b : SmiBus) (c : Switch b) (laws : SwitchLaws b c) where
  -- One more round before a loop that ends.
  round_more :
      (w : b.World) (w' : b.World) → Polled b c (b.read_smi global2 cmd w).1 w' → Polled b c w w'
  round_more w w' p = record {
    idle = p.idle;
    same = Same-trans b c w (b.read_smi global2 cmd w).1 w' (laws.poll_busy-Same w) p.same;
  }

  pub round_last : (w : b.World) → c.left w ≡ 0 → Polled b c w (b.read_smi global2 cmd w).1
  round_last w h = record {
    idle = omega (arith, laws.poll_busy-left w);
    same = laws.poll_busy-Same w;
  }

  idle_of : (w : b.World) → (bit_and (b.read_smi global2 cmd w).0 0x8000 == 0) ≡ true → c.left w ≡ 0
  idle_of w h = ground (arith, laws.poll_busy-flag w)

  busy_of :
      (w : b.World) → (bit_and (b.read_smi global2 cmd w).0 0x8000 == 0) ≡ false → 0 < c.left w
  busy_of w h = ground (arith, laws.poll_busy-flag w)

  pub poll_busy-Polled : (i : ℕ) (w : b.World) → c.left w < i → Polled b c w (poll_busy b i w).1
  unfolding poll_busy
  poll_busy-Polled zero w h = absurd (omega arith)
  poll_busy-Polled (suc i) w h =
      let w1 : b.World = (b.read_smi global2 cmd w).1 in
      let test : Bool = bit_and (b.read_smi global2 cmd w).0 0x8000 == 0 in
      if_cases (λ (o : ℕ × b.World). Polled b c w o.1) test (λ e. round_last w (idle_of w e))
        (λ e.
          round_more w (poll_busy b i w1).1
            (poll_busy-Polled i w1 (omega (arith, busy_of w e, laws.poll_busy-left w))))

  pub poll_busy-counter :
      (i : ℕ) (w : b.World) → c.left w < i → (poll_busy b i w).0 + c.left w + 1 ≡ i
  unfolding poll_busy
  poll_busy-counter zero w h = absurd (omega arith)
  poll_busy-counter (suc i) w h =
      let w1 : b.World = (b.read_smi global2 cmd w).1 in
      let test : Bool = bit_and (b.read_smi global2 cmd w).0 0x8000 == 0 in
      if_cases (λ (o : ℕ × b.World). o.0 + c.left w + 1 ≡ suc i) test
        (λ e. omega (arith, idle_of w e))
        (λ e.
          let l = laws.poll_busy-left w in
          let g = busy_of w e in omega (arith, poll_busy-counter i w1 (omega arith)))

  pub poll_for-Polled : (n : ℕ) (w : b.World) → c.left w < n → Polled b c w (poll_for b n w)
  unfolding poll_for
  poll_for-Polled zero w h = absurd (omega arith)
  poll_for-Polled (suc n) w h =
      let w1 : b.World = (b.read_smi global2 cmd w).1 in
      let test : Bool = bit_and (b.read_smi global2 cmd w).0 0x8000 == 0 in
      if_cases (λ o. Polled b c w o) test (λ e. round_last w (idle_of w e))
        (λ e.
          round_more w (poll_for b n w1)
            (poll_for-Polled n w1 (omega (arith, busy_of w e, laws.poll_busy-left w))))

  -- A command of a read to an idle switch, a wait of any kind, and the read of the data.
  pub fetched :
      (v dev reg : ℕ) (w w1 w2 : b.World)
      → v ≡ fields 38 dev reg
      → Polled b c w w1
      → Polled b c (b.write_smi global2 cmd v w1) w2
      → Fetched b c dev reg w (b.read_smi global2 data_reg w2)
  fetched v dev reg w w1 w2 e p q =
      let code : v / 2 ^ 10 ≡ 38 = omega arith in
      let d : v / 2 ^ 5 % 32 ≡ dev % 32 = omega arith in
      let r : v % 32 ≡ reg % 32 = omega arith in
      record {
        value =
            laws.data-value w2 q.idle
            ∙ q.same.latched
            ∙ laws.read-latched v w1 p.idle code
            ∙ ap₂ (λ x y. c.behind x y w1) d r
            ∙ p.same.behind (dev % 32) (reg % 32);
        idle = laws.data-left w2 ∙ q.idle;
        behind = λ x y.
            (laws.data-Same w2).behind x y
            ∙ q.same.behind x y
            ∙ laws.read-behind v w1 p.idle code x y
            ∙ p.same.behind x y;
      }

  -- The value to an idle switch, a wait, and the command of a write.
  pub given :
      (v dev reg value : ℕ) (w w1 w2 : b.World)
      → v ≡ fields 37 dev reg
      → Polled b c w w1
      → Polled b c (b.write_smi global2 data_reg value w1) w2
      → Given b c dev reg value w (b.write_smi global2 cmd v w2)
  given v dev reg value w w1 w2 e p q =
      let code : v / 2 ^ 10 ≡ 37 = omega arith in
      let d : v / 2 ^ 5 % 32 ≡ dev % 32 = omega arith in
      let r : v % 32 ≡ reg % 32 = omega arith in
      let latched : c.latched w2 ≡ value % 2 ^ 16 =
        q.same.latched ∙ laws.put-latched value w1 p.idle in
      let kept =
        λ (x y : ℕ). q.same.behind x y ∙ laws.put-behind value w1 p.idle x y ∙ p.same.behind x y in
      record {
        busy = laws.start-left v w2;
        behind = λ x y.
            laws.write-behind v w2 q.idle code x y
            ∙ ap₂ (λ m n. c.effect m n (c.latched w2) (λ a b. c.behind a b w2) x y) d r
            ∙ ap (λ m. c.effect (dev % 32) (reg % 32) m (λ a b. c.behind a b w2) x y) latched
            ∙ ap (λ t. c.effect (dev % 32) (reg % 32) (value % 2 ^ 16) t x y)
                (λ i. λ a b. kept a b i);
      }
