-- ===== src/Base/Ret.antt =====
-- The `int` that a kernel function returns: 0 or a positive number, or a negated errno.
use Prim.Native.Nat.{ℕ, zero, compare, Ordering}
use mathlib.Core.Path.{◌≡◌}
use mathlib.Core.Bool.{Bool, true, false}
use mathlib.Core.Logic.{◌↔◌}
use native.Mathlib.Omega.{arith}

-- `negsuc n` is -(n + 1).
pub data ℤ : Type 0 where
  pos : ℕ → ℤ
  negsuc : ℕ → ℤ

abbrev pub eq_ret : ℤ → ℤ → Bool
eq_ret (pos a) (pos b) = elim (compare a b) [ Ordering.eq ↦ true | _ ↦ false ]
eq_ret (negsuc a) (negsuc b) = elim (compare a b) [ Ordering.eq ↦ true | _ ↦ false ]
eq_ret _ _ = false

-- `if (ret)`.
abbrev pub is_nonzero : ℤ → Bool
is_nonzero (pos zero) = false
is_nonzero _ = true

-- `if (ret < 0)`.
abbrev pub is_negative : ℤ → Bool
is_negative (negsuc _) = true
is_negative _ = false

abbrev pub ok : ℤ
ok = pos 0

-- The errnos of the Linux headers, negated.
abbrev pub enoent : ℤ
enoent = negsuc 1

abbrev pub eio : ℤ
eio = negsuc 4

abbrev pub enxio : ℤ
enxio = negsuc 5

abbrev pub enomem : ℤ
enomem = negsuc 11

abbrev pub efault : ℤ
efault = negsuc 13

abbrev pub ebusy : ℤ
ebusy = negsuc 15

abbrev pub enodev : ℤ
enodev = negsuc 18

abbrev pub einval : ℤ
einval = negsuc 21

abbrev pub eprobe_defer : ℤ
eprobe_defer = negsuc 516

pub eq_ret_iff : (a b : ℤ) → (eq_ret a b ≡ true) ↔ (a ≡ b)
eq_ret_iff a b = ground arith
