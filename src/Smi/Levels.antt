-- ===== src/Smi/Levels.antt =====
-- The bits that a loop over masks sends or gathers, as digits of a number.
use native.Mathlib.Nat.{one-le-pow, pow-suc, div-add-mod', div-div-eq-div-mul}
use open_device.Base.{
  ℕ, zero, suc, ◌+◌, ◌*◌, ◌/◌, ◌%◌, ◌^◌, ◌<◌, ◌≡◌, ◌∙◌, sym, ap, ap₂, not, ◌==◌, bit_and, bit_or,
  Bool, true, false, List, [], ◌∷◌, if◌then◌else◌, arith,
}
use open_device.Smi.Frames.{bits}
use open_device.Base.Bits.{bit_and_comm, bit_and_high, bit_and_mask, bit_or_disjoint}

-- `mask & value`, where the mask is one digit.
bit_and_one : (k v : ℕ) → bit_and (2 ^ k) v ≡ v / 2 ^ k % 2 * 2 ^ k
bit_and_one k v =
    let split : v ≡ v / 2 ^ k * 2 ^ k + v % 2 ^ k = grind (arith, one-le-pow k 2) in
    let one : 2 ^ k ≡ 1 * 2 ^ k = omega arith in
    bit_and_comm (2 ^ k) v
    ∙ ap₂ bit_and split one
    ∙ bit_and_high k (v / 2 ^ k) (v % 2 ^ k) 1 (grind (arith, one-le-pow k 2))
    ∙ ap (λ t. t * 2 ^ k) (bit_and_mask 1 (v / 2 ^ k))

digit_test : (d p m : ℕ) → d < 2 → 0 < p → m ≡ d * p → not (m == 0) ≡ (d == 1)
digit_test zero p m h g e = ground arith
digit_test (suc zero) p m h g e = ground arith
digit_test (suc (suc d)) p m h g e = absurd (omega arith)

pub mask_bit : (k v : ℕ) → not (bit_and (2 ^ k) v == 0) ≡ (v / 2 ^ k % 2 == 1)
mask_bit k v =
    let small : v / 2 ^ k % 2 < 2 = omega arith in
    digit_test (v / 2 ^ k % 2) (2 ^ k) (bit_and (2 ^ k) v) small (one-le-pow k 2 (omega arith))
      (bit_and_one k v)

pub half_pow : (k : ℕ) → 2 ^ suc k / 2 ≡ 2 ^ k
half_pow k = omega (arith, pow-suc 2 k)

pub mod_pow_suc : (k v : ℕ) → v % 2 ^ suc k ≡ v / 2 ^ k % 2 * 2 ^ k + v % 2 ^ k
mod_pow_suc k v =
    let q : ℕ = v / 2 ^ k in
    let half : q ≡ q / 2 * 2 + q % 2 = omega arith in
    let parts : q * 2 ^ k ≡ (q / 2 * 2 + q % 2) * 2 ^ k = ap (λ (t : ℕ). t * 2 ^ k) half in
    let spread : (q / 2 * 2 + q % 2) * 2 ^ k ≡ 2 * (q / 2 * 2 ^ k) + q % 2 * 2 ^ k = grind arith in
    let deep : v / 2 ^ suc k ≡ q / 2 =
      ap (λ (t : ℕ). v / t) (pow-suc 2 k) ∙ sym (div-div-eq-div-mul v (2 ^ k) 2) in
    let wide : v / 2 ^ suc k * 2 ^ suc k ≡ 2 * (q / 2 * 2 ^ k) =
      ap₂ ◌*◌ deep (pow-suc 2 k) ∙ grind arith in
    omega (arith, div-add-mod' v (2 ^ k), div-add-mod' v (2 ^ suc k))

-- A word gets the digit of a mask below its own digits.
pub take_digit :
    (k c : ℕ) (b : Bool)
    → (if b then bit_or (c * 2 ^ suc k) (2 ^ k) else c * 2 ^ suc k)
      ≡ (c * 2 + (if b then 1 else 0)) * 2 ^ k
take_digit k c true =
    bit_or_disjoint (suc k) c (2 ^ k) (omega (arith, pow-suc 2 k, one-le-pow k 2 (omega arith)))
    ∙ ap (λ t. c * t + 2 ^ k) (pow-suc 2 k)
    ∙ grind arith
take_digit k c false = ap (λ t. c * t) (pow-suc 2 k) ∙ grind arith

-- The number whose digits follow those of `c`.
abbrev pub number : ℕ → List Bool → ℕ
number c [] = c
number c (b ∷ bs) = number (c * 2 + (if b then 1 else 0)) bs

digit_of : (d : ℕ) → d < 2 → (if d == 1 then 1 else 0) ≡ d
digit_of d h = ground arith

pub number-bits : (k c v : ℕ) → number c (bits k v) ≡ c * 2 ^ k + v % 2 ^ k
number-bits zero c v = omega arith
number-bits (suc k) c v =
    let d : ℕ = v / 2 ^ k % 2 in
    let e : (if d == 1 then 1 else 0) ≡ d = digit_of d (omega arith) in
    ap (λ t. number (c * 2 + t) (bits k v)) e
    ∙ number-bits k (c * 2 + d) v
    ∙ omega (
      arith,
      mod_pow_suc k v,
      ap (λ (t : ℕ). c * t) (pow-suc 2 k),
      let s : (c * 2 + d) * 2 ^ k ≡ c * (2 * 2 ^ k) + d * 2 ^ k = grind arith in s,
    )

pub pow-ne-zero : (k : ℕ) → (2 ^ k == 0) ≡ false
pow-ne-zero k = ground (arith, one-le-pow k 2)
