-- ===== src/Smi/Heeds.antt =====
-- The laws of clause 22 hold of the listener of the examples.
use mathlib.Core.List.{append_assoc}
use open_device.Base.{
  ℕ, ◌+◌, ◌*◌, ◌/◌, ◌%◌, ◌^◌, ◌≤◌, ◌≡◌, ◌∙◌, refl, sym, ap, ap₂, subst, none, Bool, true, false,
  ◌&&◌, ◌==◌, List, [], ◌∷◌, ◌++◌, if◌then◌else◌, arith,
}
use open_device.Smi.Frames.{bits, ones, address, write_frame}
use open_device.Smi.Wiring.{rises}
use open_device.Smi.Levels.{number, number-bits}
use open_device.Smi.Sent.{driven}
use open_device.Smi.Wire.{Shows, undriven}
use open_device.Smi.Heard.{asked, answered}
use open_device.Smi.Clause.{ClauseLaws}
use open_device.Smi.Listener.{field, put, begun, hear-preamble, State, listener, clause_of_listener}

number-append : (bs cs : List Bool) (c : ℕ) → number c (bs ++ cs) ≡ number (number c bs) cs
number-append [] cs c = refl
number-append (b ∷ bs) cs c = number-append bs cs (c * 2 + (if b then 1 else 0))

number-address :
    (c phy reg : ℕ) → number c (address phy reg) ≡ (c * 2 ^ 5 + phy % 2 ^ 5) * 2 ^ 5 + reg % 2 ^ 5
number-address c phy reg =
    number-append (bits 5 phy) (bits 5 reg) c
    ∙ ap (λ t. number t (bits 5 reg)) (number-bits 5 c phy)
    ∙ number-bits 5 (c * 2 ^ 5 + phy % 2 ^ 5) reg

-- The words behind the start bit.
abbrev header_code : ℕ → ℕ → ℕ → ℕ
header_code c phy reg = (c * 2 ^ 5 + phy % 2 ^ 5) * 2 ^ 5 + reg % 2 ^ 5

abbrev write_bits : ℕ → ℕ → ℕ → List Bool
write_bits phy reg value = true ∷ false ∷ true ∷ (address phy reg ++ (true ∷ false ∷ bits 16 value))

write_word :
    (phy reg value : ℕ)
    → number 0 (write_bits phy reg value)
      ≡ (header_code 5 phy reg * 4 + 2) * 2 ^ 16 + value % 2 ^ 16
write_word phy reg value =
    number-append (address phy reg) (true ∷ false ∷ bits 16 value) 5
    ∙ ap (λ t. number ((t * 2 + 1) * 2 + 0) (bits 16 value)) (number-address 5 phy reg)
    ∙ number-bits 16 ((header_code 5 phy reg * 2 + 1) * 2 + 0) value
    ∙ omega arith

-- A frame of a write ends with its word in the table.
abbrev ended : Bool → ℕ → ℕ → (ℕ → ℕ → ℕ) → State
ended b word answer table = record {
  seen = if b then 1 else 0;
  left = 0;
  word = word;
  answer = answer;
  table = put (word / 2 ^ 28 % 4 == 1) word table;
}

abbrev named : ℕ → (ℕ → ℕ → ℕ) → ℕ
named word table = table (field 5 word) (field 0 word) % 2 ^ 16

hear-write :
    (phy reg value : ℕ) (b : Bool) (answer : ℕ) (table : ℕ → ℕ → ℕ)
    → rises listener (driven (write_bits phy reg value ++ b ∷ [])) (begun answer table)
      ≡ ended b
          (number 0 (write_bits phy reg value))
          (named (number 0 (true ∷ false ∷ true ∷ address phy reg)) table)
          table
unfolding begun
hear-write phy reg value true answer table = refl
hear-write phy reg value false answer table = refl

abbrev read_bits : ℕ → ℕ → List Bool
read_bits phy reg = true ∷ true ∷ false ∷ address phy reg

-- The line shows the register that the header names, and then the listener waits.
abbrev answering : ℕ → (ℕ → ℕ → ℕ) → State
answering word table = record {
  seen = 0;
  left = 16;
  word = word * 4 + 3;
  answer = named word table;
  table = table;
}

pull_two : (word : ℕ) → (word * 2 + 1) * 2 + 1 ≡ word * 4 + 3
pull_two word = omega arith

hear-read :
    (phy reg answer : ℕ) (table : ℕ → ℕ → ℕ)
    → rises listener
        (undriven listener 2)
        (rises listener (driven (read_bits phy reg)) (begun answer table))
      ≡ answering (number 0 (read_bits phy reg)) table
unfolding begun
hear-read phy reg answer table =
    ap
      (λ w.
        let o : State = record {
          seen = 0;
          left = 16;
          word = w;
          answer = named (number 0 (read_bits phy reg)) table;
          table = table;
        } in
        o)
      (pull_two (number 0 (read_bits phy reg)))

Shows-answering :
    (word : ℕ) (table : ℕ → ℕ → ℕ)
    → Shows listener (bits 16 (named word table)) (answering word table)
Shows-answering word table = (
  refl,
  (
    refl,
    (
      refl,
      (
        refl,
        (
          refl,
          (
            refl,
            (refl, (refl, (refl, (refl, (refl, (refl, (refl, (refl, (refl, (refl, tt)))))))))),
          ),
        ),
      ),
    ),
  ),
)

-- A frame of a read stores nothing.
abbrev pulled : ℕ → ℕ
pulled word = number (word * 4 + 3) (ones 16)

read_end :
    (word : ℕ) (table : ℕ → ℕ → ℕ)
    → listener.rise none (rises listener (undriven listener 16) (answering word table))
      ≡ ended true (pulled word) (named word table) table
read_end word table = refl

pulled_code : (phy reg : ℕ) → (pulled (number 0 (read_bits phy reg)) / 2 ^ 28 % 4 == 1) ≡ false
pulled_code phy reg =
    let e : number 0 (read_bits phy reg) ≡ header_code 6 phy reg = number-address 6 phy reg in
    let f : pulled (header_code 6 phy reg) / 2 ^ 28 % 4 ≡ 2 = omega arith in
    ap (λ w. pulled w / 2 ^ 28 % 4 == 1) e ∙ ap (λ d. d == 1) f

-- A word with the code of a write and the fields `p`, `r` and `v`.
put_fields :
    (word p r v : ℕ) (table : ℕ → ℕ → ℕ) (a b : ℕ)
    → word / 2 ^ 28 % 4 ≡ 1
    → field 23 word ≡ p
    → field 18 word ≡ r
    → word % 2 ^ 16 ≡ v % 2 ^ 16
    → put (word / 2 ^ 28 % 4 == 1) word table a b % 2 ^ 16
      ≡ (if (a == p) && (b == r) then v % 2 ^ 16 else table a b % 2 ^ 16)
put_fields word p r v table a b code ep er ev = rw (code, ep, er, ev) (ground arith)

module _ (n phy reg : ℕ) (x : State) (long : 32 ≤ n) (waits : x.left ≡ 0) where
  listener_asked : asked listener n phy reg x ≡ answering (number 0 (read_bits phy reg)) x.table
  listener_asked =
      ap (rises listener (undriven listener 2)) (hear-preamble n (read_bits phy reg) x long waits)
      ∙ hear-read phy reg x.answer x.table

  listener_named :
      named (number 0 (read_bits phy reg)) x.table ≡ x.table (phy % 32) (reg % 32) % 2 ^ 16
  listener_named =
      let e : number 0 (read_bits phy reg) ≡ header_code 6 phy reg = number-address 6 phy reg in
      let p : field 5 (header_code 6 phy reg) ≡ phy % 32 = omega arith in
      let r : field 0 (header_code 6 phy reg) ≡ reg % 32 = omega arith in
      ap (λ w. named w x.table) e ∙ ap₂ (λ a b. x.table a b % 2 ^ 16) p r

  listener-Shows :
      Shows listener (bits 16 (x.table (phy % 32) (reg % 32) % 2 ^ 16)) (asked listener n phy reg x)
  listener-Shows =
      subst (Shows listener (bits 16 (x.table (phy % 32) (reg % 32) % 2 ^ 16))) (sym listener_asked)
        (subst (λ v. Shows listener (bits 16 v) (answering (number 0 (read_bits phy reg)) x.table))
          listener_named (Shows-answering (number 0 (read_bits phy reg)) x.table))

  listener-answered :
      answered listener n phy reg x
      ≡ ended true
          (pulled (number 0 (read_bits phy reg)))
          (named (number 0 (read_bits phy reg)) x.table)
          x.table
  listener-answered =
      ap (λ y. listener.rise none (rises listener (undriven listener 16) y)) listener_asked
      ∙ read_end (number 0 (read_bits phy reg)) x.table

  listener_kept : (a b : ℕ) → (answered listener n phy reg x).table a b ≡ x.table a b
  listener_kept a b =
      ap (λ (y : State). y.table a b) listener-answered
      ∙ ap (λ t. put t (pulled (number 0 (read_bits phy reg))) x.table a b) (pulled_code phy reg)

  listener_wrote :
      (value : ℕ) (b : Bool)
      → rises listener (driven (write_frame n phy reg value ++ b ∷ [])) x
        ≡ ended b
            (number 0 (write_bits phy reg value))
            (named (number 0 (true ∷ false ∷ true ∷ address phy reg)) x.table)
            x.table
  listener_wrote value b =
      ap (λ l. rises listener (driven l) x)
        (append_assoc (ones n) (false ∷ write_bits phy reg value) (b ∷ []))
      ∙ hear-preamble n (write_bits phy reg value ++ b ∷ []) x long waits
      ∙ hear-write phy reg value b x.answer x.table

  listener_put :
      (value a b : ℕ)
      → put
            (number 0 (write_bits phy reg value) / 2 ^ 28 % 4 == 1)
            (number 0 (write_bits phy reg value))
            x.table
            a
            b
          % 2 ^ 16
        ≡ (if (a == phy % 32) && (b == reg % 32) then value % 2 ^ 16 else x.table a b % 2 ^ 16)
  listener_put value a b =
      ap (λ w. put (w / 2 ^ 28 % 4 == 1) w x.table a b % 2 ^ 16) (write_word phy reg value)
      ∙ put_fields ((header_code 5 phy reg * 4 + 2) * 2 ^ 16 + value % 2 ^ 16) (phy % 32) (reg % 32)
          value x.table a b (omega arith) (omega arith) (omega arith) (omega arith)

pub listener-ClauseLaws : ClauseLaws listener clause_of_listener
listener-ClauseLaws = record {
  bounded = λ phy reg x. omega arith;
  write-Waits = λ n phy reg value b x h w.
      ap (λ (y : State). y.left) (listener_wrote n phy reg x h w value b);
  write-holds = λ n phy reg value b x h w p r.
      ap (λ (y : State). y.table p r % 2 ^ 16) (listener_wrote n phy reg x h w value b)
      ∙ listener_put n phy reg x h w value p r;
  read-Shows = λ n phy reg x h w. listener-Shows n phy reg x h w;
  read-Waits = λ n phy reg x h w. ap (λ (y : State). y.left) (listener-answered n phy reg x h w);
  read-holds = λ n phy reg x h w p r. ap (λ t. t % 2 ^ 16) (listener_kept n phy reg x h w p r);
}
