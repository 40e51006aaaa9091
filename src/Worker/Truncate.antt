-- ===== src/Worker/Truncate.antt =====
-- How the 32-bit build cuts values, against the order of sizes that ServiceCall.h documents.
use service_call.Base.{
  ℕ, ◌≡◌, ◌<◌, ◌%◌, ◌^◌, refl, Bool, true, false, not, ◌&&◌, ◌||◌, arith, if◌then◌else◌, Bool-cases,
  inl, inr, ◌≢◌, ◌≤◌, ◌==◌, ==_iff,
}
use service_call.Base.Bits.{bit_and-mask, all_below, all_below-at}
use service_call.Parameter.{x86, Blob, is_set, vl_bit, is_refused}
use service_call.Worker.Defs.{truncate_blob, argument}

-- The number of bits that the routine gets of a value, by the comment in ServiceCall.h: the first of
-- the sizes that is set, from QW on, where QW is DW on the 32-bit build.
abbrev pub documented_bits : ℕ → ℕ
documented_bits mask =
    if is_set mask 0b00001000
    then 32
    else if is_set mask 0b00000100
    then 32
    else if is_set mask 0b00000010
    then 16
    else 8

-- The masks on which code and comment part: QW with WO or BY, and without DW.
abbrev pub is_mixed : ℕ → Bool
is_mixed mask = is_set mask 0b00001000 && (not (is_set mask 0b00000100) && is_set mask 0b00000011)

-- The number of bits that the code leaves of a value.
code_bits : ℕ → ℕ
code_bits mask =
    if is_set mask 0b00000100
    then 32
    else if is_set mask 0b00000010
    then 16
    else if is_set mask 0b00000001
    then 8
    else 32

argument-code_bits :
    (b : Blob)
    → is_set b.parameter_mask vl_bit ≡ true
    → argument x86 (truncate_blob b) ≡ b.ul_parameter % 2 ^ code_bits b.parameter_mask
unfolding argument truncate_blob code_bits
argument-code_bits b v =
    let m8 = bit_and-mask 8 b.ul_parameter in
    let m16 = bit_and-mask 16 b.ul_parameter in
    let m32 = bit_and-mask 32 b.ul_parameter in ground arith

-- An accepted value mask that is not mixed is documented to leave as many bits as the code leaves.
bits_table :
    all_below 256 (λ m.
      is_refused m || (not (is_set m vl_bit) || (is_mixed m || code_bits m == documented_bits m)))
    ≡ true
unfolding all_below is_refused code_bits
bits_table = refl

last_true :
    (a b c d : Bool)
    → (a || (not b || (c || d))) ≡ true
    → a ≡ false
    → b ≡ true
    → c ≡ false
    → d ≡ true
last_true a b c d h x y z = ground arith

mixed_table :
    all_below 256 (λ m. not (is_mixed m) || (code_bits m == 16 || code_bits m == 8)) ≡ true
unfolding all_below code_bits
mixed_table = refl

mixed_bits : (m : ℕ) → m < 256 → is_mixed m ≡ true → (code_bits m == 16 || code_bits m == 8) ≡ true
mixed_bits m lt mixed = rw mixed at (
    all_below-at 256 (λ m. not (is_mixed m) || (code_bits m == 16 || code_bits m == 8)) m
      mixed_table lt)

-- On the 32-bit build the routine gets of a value with an accepted mask the bits that the comment in
-- ServiceCall.h documents, unless the mask has QW with WO or BY and without DW.
pub truncate_blob-documented :
    (b : Blob)
    → b.parameter_mask < 256
    → is_refused b.parameter_mask ≡ false
    → is_set b.parameter_mask vl_bit ≡ true
    → is_mixed b.parameter_mask ≡ false
    → argument x86 (truncate_blob b) ≡ b.ul_parameter % 2 ^ documented_bits b.parameter_mask
truncate_blob-documented b lt ok v mixed =
    let t =
      all_below-at 256
        (λ m.
          is_refused m
          || (not (is_set m vl_bit) || (is_mixed m || code_bits m == documented_bits m)))
        b.parameter_mask bits_table lt in
    let e : (code_bits b.parameter_mask == documented_bits b.parameter_mask) ≡ true =
      last_true (is_refused b.parameter_mask) (is_set b.parameter_mask vl_bit)
        (is_mixed b.parameter_mask) _ t ok v mixed in
    rw (← (==_iff _ _).0 e) (argument-code_bits b v)

-- With QW and with WO or BY, and without DW, the comment promises 32 bits and the routine gets fewer:
-- a value of 2^16 or more, below 2^32, never arrives.
pub truncate_blob-mixed :
    (b : Blob)
    → b.parameter_mask < 256
    → is_set b.parameter_mask vl_bit ≡ true
    → is_mixed b.parameter_mask ≡ true
    → 2 ^ 16 ≤ b.ul_parameter
    → b.ul_parameter < 2 ^ 32
    → (documented_bits b.parameter_mask ≡ 32) × (argument x86 (truncate_blob b) ≢ b.ul_parameter)
truncate_blob-mixed b lt v mixed lo hi =
    let few = mixed_bits b.parameter_mask lt mixed in
    let got = argument-code_bits b v in
    (
      ground arith,
      λ e. elim (Bool-cases (code_bits b.parameter_mask == 16)) [
        | inl w ↦ absurd (omega (arith, rw ((==_iff _ _).0 w) at got))
        | inr w ↦
            let w' : code_bits b.parameter_mask ≡ 8 = ground arith in
            absurd (omega (arith, rw w' at got))
      ],
    )
