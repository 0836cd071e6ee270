-- ===== src/Smi/Listener.antt =====
-- A slave that keeps clause 22, for the examples: it counts the ones of a preamble, takes a frame
-- into a word bit by bit, and keeps a table of registers.
use open_device.Base.{
  ℕ, zero, suc, ◌+◌, ◌-◌, ◌*◌, ◌/◌, ◌%◌, ◌^◌, ◌≤◌, ◌≡◌, ◌∙◌, ap, Option, none, some, Bool, true,
  false, ◌&&◌, ◌==◌, leb, List, ◌∷◌, ◌++◌, if◌then◌else◌, arith,
}
use open_device.Smi.Frames.{ones}
use open_device.Smi.Wiring.{Slave, rises}
use open_device.Smi.Sent.{driven, driven-append, rises-append}
use open_device.Smi.Clause.{Clause22}

-- `left` is what a frame has to go, `answer` the register that its header names.
pub record State : Type 0 where
  pub seen : ℕ
  pub left : ℕ
  pub word : ℕ
  pub answer : ℕ
  pub table : ℕ → ℕ → ℕ

abbrev pub field : ℕ → ℕ → ℕ
field k word = word / 2 ^ k % 32

abbrev pub put : Bool → ℕ → (ℕ → ℕ → ℕ) → ℕ → ℕ → ℕ
put stores word table a b =
    if stores && ((a == field 23 word) && (b == field 18 word)) then word % 2 ^ 16 else table a b

-- The next bit, where the frame has `left` to go.
abbrev pub hear : ℕ → Bool → State → State
hear zero b x =
    if b
    then record x { seen = x.seen + 1 }
    else if leb 32 x.seen
    then record x { seen = 0; left = 31; word = 0 }
    else record x { seen = 0 }
hear (suc m) b x =
    let word : ℕ = x.word * 2 + (if b then 1 else 0) in
    record x {
      left = m;
      word = word;
      answer = if m == 18 then x.table (field 5 word) (field 0 word) % 2 ^ 16 else x.answer;
      table = put ((m == 0) && (word / 2 ^ 28 % 4 == 1)) word x.table;
    }

-- The line is pulled up.
abbrev pub level : Option Bool → Bool
level none = true
level (some b) = b

abbrev pub listener : Slave
listener = record {
  State = State;
  rise = λ v x. hear x.left (level v) x;
  shows = λ x. x.answer / 2 ^ (x.left - 1) % 2 == 1;
}

abbrev pub clause_of_listener : Clause22 listener
clause_of_listener = record { holds = λ a b x. x.table a b % 2 ^ 16; Waits = λ x. x.left ≡ 0 }

-- A listener that waits.
abbrev pub waiting : ℕ → ℕ → ℕ → (ℕ → ℕ → ℕ) → State
waiting seen word answer table = record {
  seen = seen;
  left = 0;
  word = word;
  answer = answer;
  table = table;
}

unfoldable pub begun : ℕ → (ℕ → ℕ → ℕ) → State
begun answer table = record { seen = 0; left = 31; word = 0; answer = answer; table = table }

pub hear-ones :
    (n seen word answer : ℕ) (table : ℕ → ℕ → ℕ)
    → rises listener (driven (ones n)) (waiting seen word answer table)
      ≡ waiting (seen + n) word answer table
hear-ones zero seen word answer table = ap (λ k. waiting k word answer table) (omega arith)
hear-ones (suc n) seen word answer table =
    hear-ones n (seen + 1) word answer table ∙ ap (λ k. waiting k word answer table) (omega arith)

-- The ones of a preamble and a zero begin a frame.
pub hear-preamble :
    (n : ℕ) (bs : List Bool) (x : State)
    → 32 ≤ n
    → x.left ≡ 0
    → rises listener (driven (ones n ++ false ∷ bs)) x
      ≡ rises listener (driven bs) (begun x.answer x.table)
unfolding begun
hear-preamble n bs x h w =
    let e : x ≡ waiting x.seen x.word x.answer x.table = ap (λ l. record x { left = l }) w in
    let long : leb 32 (x.seen + n) ≡ true = ground arith in
    ap (λ l. rises listener l x) (driven-append (ones n) (false ∷ bs))
    ∙ rises-append listener (driven (ones n)) (driven (false ∷ bs)) x
    ∙ ap (rises listener (driven (false ∷ bs)))
        (ap (rises listener (driven (ones n))) e ∙ hear-ones n x.seen x.word x.answer x.table)
    ∙ ap
        (λ b. rises listener (driven bs) (
          if b
          then begun x.answer x.table
          else record (waiting (x.seen + n) x.word x.answer x.table) { seen = 0 }))
        long
