-- ===== src/Base/Bits.antt =====
-- The bit operations at variables: masks, shifted fields, and `|` of fields that do not overlap.
use Prim.Native.Nat.{
  ℕ, zero, suc, ◌+◌, ◌-◌, ◌*◌, ◌/◌, ◌%◌, ◌^◌, ◌≤◌, ◌<◌, min, max, digits, bitwise, bit_and, bit_or,
  bit_and-bitwise, bit_or-bitwise,
}
use mathlib.Core.Path.{◌≡◌, ◌∙◌, refl, ap, ap₂}
use native.Mathlib.Nat.{le_refl, mod-eq_of_lt, pow-suc, one-le-pow}
use native.Mathlib.Omega.{arith}

module _ (z : ℕ → ℕ) (f : ℕ → ℕ → ℕ) where
  -- Any fuel that the first number allows gives the same digits.
  digits_enough : (n m a b : ℕ) → a ≤ n → a ≤ m → digits z f n a b ≡ digits z f m a b
  digits_enough zero zero a b p q = refl
  digits_enough zero (suc m) zero b p q = refl
  digits_enough zero (suc m) (suc a) b p q = absurd (omega arith)
  digits_enough (suc n) zero zero b p q = refl
  digits_enough (suc n) zero (suc a) b p q = absurd (omega arith)
  digits_enough (suc n) (suc m) zero b p q = refl
  digits_enough (suc n) (suc m) (suc a) b p q =
      rw (digits_enough n m (suc a / 2) (b / 2) (omega arith) (omega arith))

  lowest_digit :
      (a b : ℕ)
      → bitwise z f (suc a) b ≡ bitwise z f (suc a / 2) (b / 2) * 2 + f (suc a % 2) (b % 2)
  lowest_digit a b =
      omega (arith, digits_enough a (suc a / 2) (suc a / 2) (b / 2) (omega arith) (le_refl _))

-- The lowest digit of `a | b` and of `a & b`.
or_low : (a b : ℕ) → bit_or a b ≡ bit_or (a / 2) (b / 2) * 2 + max (a % 2) (b % 2)
or_low zero b = simp bit_or-bitwise (omega arith)
or_low (suc a) b = simp bit_or-bitwise (lowest_digit (λ y. y) max a b)

and_low : (a b : ℕ) → bit_and a b ≡ bit_and (a / 2) (b / 2) * 2 + min (a % 2) (b % 2)
and_low zero b = simp bit_and-bitwise (omega arith)
and_low (suc a) b = simp bit_and-bitwise (lowest_digit (λ y. 0) min a b)

times_one : (a : ℕ) → a * 2 ^ 0 ≡ a
times_one a = omega arith

twice_pow : (q k : ℕ) → q * 2 ^ suc k ≡ 2 * (q * 2 ^ k)
twice_pow q k = omega (arith, ap (λ (t : ℕ). q * t) (pow-suc 2 k))

-- `a & (2 ^ k - 1)`, with a bound on `a` for the induction.
and_zero_below : (n a : ℕ) → a ≤ n → bit_and a 0 ≡ 0
and_zero_below zero zero h = refl
and_zero_below zero (suc a) h = absurd (omega arith)
and_zero_below (suc n) zero h = refl
and_zero_below (suc n) (suc a) h =
    omega (arith, and_low (suc a) 0, and_zero_below n (suc a / 2) (omega arith))

or_zero_below : (n a : ℕ) → a ≤ n → bit_or a 0 ≡ a
or_zero_below zero zero h = refl
or_zero_below zero (suc a) h = absurd (omega arith)
or_zero_below (suc n) zero h = refl
or_zero_below (suc n) (suc a) h =
    omega (arith, or_low (suc a) 0, or_zero_below n (suc a / 2) (omega arith))

and_low_digits : (k q r : ℕ) → r < 2 ^ k → bit_and (q * 2 ^ k + r) (2 ^ k - 1) ≡ r
and_low_digits zero q r h = omega (arith, and_zero_below (q * 1 + r) (q * 1 + r) (le_refl _))
and_low_digits (suc k) q r h = ground (
  arith,
  and_low (q * 2 ^ suc k + r) (2 ^ suc k - 1),
  twice_pow q k,
  pow-suc 2 k,
  one-le-pow k 2,
  and_low_digits k q (r / 2) (omega (arith, pow-suc 2 k)),
)

pub bit_and_mask : (k a : ℕ) → bit_and a (2 ^ k - 1) ≡ a % 2 ^ k
bit_and_mask k a = ground (arith, one-le-pow k 2, and_low_digits k (a / 2 ^ k) (a % 2 ^ k))

-- A mask that is shifted keeps the digits above its shift.
pub bit_and_shifted : (k a m : ℕ) → bit_and (a * 2 ^ k) (m * 2 ^ k) ≡ bit_and a m * 2 ^ k
bit_and_shifted zero a m = omega (arith, ap₂ bit_and (times_one a) (times_one m))
bit_and_shifted (suc k) a m = ground (
  arith,
  and_low (a * 2 ^ suc k) (m * 2 ^ suc k),
  twice_pow a k,
  twice_pow m k,
  twice_pow (bit_and a m) k,
  bit_and_shifted k a m,
)

pub bit_or_shifted : (k a b : ℕ) → bit_or (a * 2 ^ k) (b * 2 ^ k) ≡ bit_or a b * 2 ^ k
bit_or_shifted zero a b = omega (arith, ap₂ bit_or (times_one a) (times_one b))
bit_or_shifted (suc k) a b = ground (
  arith,
  or_low (a * 2 ^ suc k) (b * 2 ^ suc k),
  twice_pow a k,
  twice_pow b k,
  twice_pow (bit_or a b) k,
  bit_or_shifted k a b,
)

-- `(q << k) | r` adds, if `r` fits `k` digits.
pub bit_or_disjoint : (k q r : ℕ) → r < 2 ^ k → bit_or (q * 2 ^ k) r ≡ q * 2 ^ k + r
bit_or_disjoint zero q r h = ground (arith, or_zero_below q q (le_refl q))
bit_or_disjoint (suc k) q r h = ground (
  arith,
  or_low (q * 2 ^ suc k) r,
  twice_pow q k,
  pow-suc 2 k,
  bit_or_disjoint k q (r / 2) (omega (arith, pow-suc 2 k)),
)

pub bit_or_bound : (k a b : ℕ) → a < 2 ^ k → b < 2 ^ k → bit_or a b < 2 ^ k
bit_or_bound zero a b h g =
    let e : a ≡ 0 = omega arith in let f : b ≡ 0 = omega arith in omega (arith, ap₂ bit_or e f)
bit_or_bound (suc k) a b h g = omega (
  arith,
  or_low a b,
  pow-suc 2 k,
  bit_or_bound k (a / 2) (b / 2) (omega (arith, pow-suc 2 k)) (omega (arith, pow-suc 2 k)),
)

bit_and_comm_below : (n a b : ℕ) → a ≤ n → bit_and a b ≡ bit_and b a
bit_and_comm_below n zero b h = omega (arith, bit_and-bitwise 0 b, and_zero_below b b (le_refl b))
bit_and_comm_below zero (suc a) b h = absurd (omega arith)
bit_and_comm_below (suc n) (suc a) b h = omega (
  arith,
  and_low (suc a) b,
  and_low b (suc a),
  bit_and_comm_below n (suc a / 2) (b / 2) (omega arith),
)

pub bit_and_comm : (a b : ℕ) → bit_and a b ≡ bit_and b a
bit_and_comm a b = bit_and_comm_below a a b (le_refl a)

-- A shifted mask drops the digits below its shift.
pub bit_and_high :
    (k q r m : ℕ) → r < 2 ^ k → bit_and (q * 2 ^ k + r) (m * 2 ^ k) ≡ bit_and q m * 2 ^ k
bit_and_high zero q r m h =
    let e : q * 2 ^ 0 + r ≡ q = omega arith in omega (arith, ap₂ bit_and e (times_one m))
bit_and_high (suc k) q r m h = ground (
  arith,
  and_low (q * 2 ^ suc k + r) (m * 2 ^ suc k),
  twice_pow q k,
  twice_pow m k,
  twice_pow (bit_and q m) k,
  bit_and_high k q (r / 2) m (omega (arith, pow-suc 2 k)),
)

-- The digits below `k` and those above it are masked apart.
pub bit_and_split :
    (k q r m n : ℕ)
    → r < 2 ^ k
    → n < 2 ^ k
    → bit_and (q * 2 ^ k + r) (m * 2 ^ k + n) ≡ bit_and q m * 2 ^ k + bit_and r n
bit_and_split zero q r m n h g =
    let e : q * 2 ^ 0 + r ≡ q = omega arith in
    let f : m * 2 ^ 0 + n ≡ m = omega arith in
    let z : r ≡ 0 = omega arith in
    let y : n ≡ 0 = omega arith in omega (arith, ap₂ bit_and e f, ap₂ bit_and z y)
bit_and_split (suc k) q r m n h g = ground (
  arith,
  and_low (q * 2 ^ suc k + r) (m * 2 ^ suc k + n),
  and_low r n,
  twice_pow q k,
  twice_pow m k,
  twice_pow (bit_and q m) k,
  bit_and_split k q (r / 2) m (n / 2) (omega (arith, pow-suc 2 k)) (omega (arith, pow-suc 2 k)),
)

-- `a & ~((2 ^ w - 1) << k)`, where `n` is the width above the field: the field is cleared.
pub bit_and_hole :
    (k w n q f r : ℕ)
    → r < 2 ^ k
    → f < 2 ^ w
    → q < 2 ^ n
    → bit_and ((q * 2 ^ w + f) * 2 ^ k + r) ((2 ^ n - 1) * 2 ^ w * 2 ^ k + (2 ^ k - 1))
      ≡ q * 2 ^ w * 2 ^ k + r
bit_and_hole k w n q f r h g l =
    let low : bit_and r (2 ^ k - 1) ≡ r % 2 ^ k = bit_and_mask k r in
    let high : bit_and (q * 2 ^ w + f) ((2 ^ n - 1) * 2 ^ w) ≡ bit_and q (2 ^ n - 1) * 2 ^ w =
      bit_and_high w q f (2 ^ n - 1) g in
    let top : bit_and q (2 ^ n - 1) ≡ q % 2 ^ n = bit_and_mask n q in
    bit_and_split k (q * 2 ^ w + f) r ((2 ^ n - 1) * 2 ^ w) (2 ^ k - 1) h
      (omega (arith, one-le-pow k 2))
    ∙ ap₂ (λ x y. x * 2 ^ k + y) (high ∙ ap (λ x. x * 2 ^ w) (top ∙ mod-eq_of_lt l))
        (low ∙ mod-eq_of_lt h)

-- The digits below `k` and those above it are set apart.
pub bit_or_split :
    (k q r m n : ℕ)
    → r < 2 ^ k
    → n < 2 ^ k
    → bit_or (q * 2 ^ k + r) (m * 2 ^ k + n) ≡ bit_or q m * 2 ^ k + bit_or r n
bit_or_split zero q r m n h g =
    let e : q * 2 ^ 0 + r ≡ q = omega arith in
    let f : m * 2 ^ 0 + n ≡ m = omega arith in
    let z : r ≡ 0 = omega arith in
    let y : n ≡ 0 = omega arith in omega (arith, ap₂ bit_or e f, ap₂ bit_or z y)
bit_or_split (suc k) q r m n h g = ground (
  arith,
  or_low (q * 2 ^ suc k + r) (m * 2 ^ suc k + n),
  or_low r n,
  twice_pow q k,
  twice_pow m k,
  twice_pow (bit_or q m) k,
  bit_or_split k q (r / 2) m (n / 2) (omega (arith, pow-suc 2 k)) (omega (arith, pow-suc 2 k)),
)

-- A field of `w` digits that is clear, at `k`, is set.
pub bit_or_field :
    (k w q r x : ℕ)
    → r < 2 ^ k
    → x < 2 ^ w
    → bit_or (q * 2 ^ w * 2 ^ k + r) (x * 2 ^ k) ≡ (q * 2 ^ w + x) * 2 ^ k + r
bit_or_field k w q r x h g =
    let e : x * 2 ^ k ≡ x * 2 ^ k + 0 = omega arith in
    ap (bit_or (q * 2 ^ w * 2 ^ k + r)) e
    ∙ bit_or_split k (q * 2 ^ w) r x 0 h (omega (arith, one-le-pow k 2))
    ∙ ap₂ (λ a b. a * 2 ^ k + b) (bit_or_disjoint w q x g) (or_zero_below r r (le_refl r))

or_one : (a : ℕ) → bit_or a 1 ≡ a / 2 * 2 + 1
or_one a = ground (arith, or_low a 1, or_zero_below (a / 2) (a / 2) (le_refl _))

-- `a | (1 << k)`.
pub bit_or_bit :
    (k q r : ℕ) → r < 2 ^ k → bit_or (q * 2 ^ k + r) (1 * 2 ^ k) ≡ (q / 2 * 2 + 1) * 2 ^ k + r
bit_or_bit k q r h =
    let e : 1 * 2 ^ k ≡ 1 * 2 ^ k + 0 = omega arith in
    ap (bit_or (q * 2 ^ k + r)) e
    ∙ bit_or_split k q r 1 0 h (omega (arith, one-le-pow k 2))
    ∙ ap₂ (λ a b. a * 2 ^ k + b) (or_one q) (or_zero_below r r (le_refl r))
