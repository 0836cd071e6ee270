-- ===== src/Can/Frame.antt =====
-- The identifier of a frame, `demo_hw_tx`, and the start of the device, of can_device_parse_can_frame.c.
use open_device.Base.{
  ℕ, ◌+◌, ◌*◌, ◌/◌, ◌%◌, ◌^◌, ◌<◌, ◌≡◌, ◌∙◌, ap, Bool, true, false, not, ◌==◌, ltb, if◌then◌else◌,
  ℤ, ok, negsuc, is_nonzero, enomem, einval, bit_and, arith,
}
use open_device.Base.Bits.{bit_and_mask, bit_and_high}

-- `exide`, `sid`, `eid` and `rtr`.
pub record Identifier : Type 0 where
  pub exide : Bool
  pub sid : ℕ
  pub eid : ℕ
  pub rtr : Bool

-- `CAN_EFF_FLAG`, `CAN_RTR_FLAG` and `CAN_EFF_MASK`. A shift to the right of a word is a division.
unfoldable pub demo_hw_tx : ℕ → Identifier
demo_hw_tx can_id =
    let exide : Bool = not (bit_and can_id 0x80000000 == 0) in
    record {
      exide = exide;
      sid = if exide then bit_and can_id 0x1fffffff / 2 ^ 18 else bit_and can_id 0x1fffffff;
      eid = bit_and can_id 0x1fffffff;
      rtr = not (bit_and can_id 0x40000000 == 0);
    }

-- `CAN_MODE_START`, `CAN_MODE_STOP` and `CAN_MODE_SLEEP` are 0, 1 and 2; `-EOPNOTSUPP` is -95.
unfoldable pub demo_do_set_mode : ℕ → ℤ
demo_do_set_mode mode = if ltb mode 3 then ok else negsuc 94

-- What there is of the device: the structure, and its registration.
pub record Made : Type 0 where
  pub net : Bool
  pub registered : Bool

-- `demo_can_device_init`, with the answers of `alloc_candev` and `register_candev`.
unfoldable pub can_device_init : Bool → ℤ → Made → ℤ × Made
can_device_init fits register m =
    if not fits
    then (enomem, m)
    else if is_nonzero register
    then (einval, record m { net = false })
    else (ok, record { net = true; registered = true })

-- One digit of a word.
digit_at : (k n q : ℕ) → q < 2 ^ k → bit_and (n * 2 ^ k + q) (1 * 2 ^ k) ≡ n % 2 * 2 ^ k
digit_at k n q h = bit_and_high k n q 1 h ∙ ap (λ x. x * 2 ^ k) (bit_and_mask 1 n)

-- What the fields are of a word of 32 digits. The identifier of a standard frame is not cut to its eleven
-- digits: it is that of an extended one.
pub record Parsed (can_id : ℕ) (i : Identifier) : Type 0 where
  pub exide : i.exide ≡ (can_id / 2 ^ 31 == 1)
  pub rtr : i.rtr ≡ (can_id / 2 ^ 30 % 2 == 1)
  pub eid : i.eid ≡ can_id % 2 ^ 29
  pub sid : i.sid ≡ (if can_id / 2 ^ 31 == 1 then can_id % 2 ^ 29 / 2 ^ 18 else can_id % 2 ^ 29)

pub demo_hw_tx-Parsed : (can_id : ℕ) → can_id < 2 ^ 32 → Parsed can_id (demo_hw_tx can_id)
unfolding demo_hw_tx
demo_hw_tx-Parsed can_id h =
    let whole31 : can_id ≡ can_id / 2 ^ 31 * 2 ^ 31 + can_id % 2 ^ 31 = omega arith in
    let whole30 : can_id ≡ can_id / 2 ^ 30 * 2 ^ 30 + can_id % 2 ^ 30 = omega arith in
    let e : bit_and can_id 0x80000000 ≡ can_id / 2 ^ 31 % 2 * 2 ^ 31 =
      ap (λ x. bit_and x 0x80000000) whole31
      ∙ digit_at 31 (can_id / 2 ^ 31) (can_id % 2 ^ 31) (omega arith) in
    let r : bit_and can_id 0x40000000 ≡ can_id / 2 ^ 30 % 2 * 2 ^ 30 =
      ap (λ x. bit_and x 0x40000000) whole30
      ∙ digit_at 30 (can_id / 2 ^ 30) (can_id % 2 ^ 30) (omega arith) in
    let m : bit_and can_id 0x1fffffff ≡ can_id % 2 ^ 29 = bit_and_mask 29 can_id in
    let x : not (bit_and can_id 0x80000000 == 0) ≡ (can_id / 2 ^ 31 == 1) = ground arith in
    record {
      exide = x;
      rtr = ground arith;
      eid = m;
      sid =
          ap (λ y. if not (bit_and can_id 0x80000000 == 0) then y / 2 ^ 18 else y) m
          ∙ ap (λ b. if b then can_id % 2 ^ 29 / 2 ^ 18 else can_id % 2 ^ 29) x;
    }
