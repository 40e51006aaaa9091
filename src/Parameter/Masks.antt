-- ===== src/Parameter/Masks.antt =====
-- Which masks RtlCaptureParameters accepts.
use service_call.Base.{
  ℕ, ◌<◌, ◌≤◌, ◌≡◌, ◌↔◌, refl, Bool, true, false, ◌&&◌, ◌||◌, leb, arith, not, ◌⊎◌,
}
use service_call.Base.Bits.{all_below, all_below-at}
use service_call.Parameter.{is_refused}

-- Values with a size, pointers, and pointers that may be null.
abbrev accepted : ℕ → Bool
accepted m = (leb 129 m && leb m 143) || (leb 64 m && leb m 79) || (leb 96 m && leb m 111)

abbrev same : Bool → Bool → Bool
same true b = b
same false b = not b

table : all_below 256 (λ m. same (not (is_refused m)) (accepted m)) ≡ true
unfolding all_below is_refused
table = refl

-- A byte is an accepted mask exactly when it is one of 129..143 (a value of some size), 64..79 (a
-- pointer) or 96..111 (a pointer that may be null).
pub is_refused-ranges :
    (m : ℕ)
    → m < 256
    → (is_refused m ≡ false)
      ↔ (((129 ≤ m) × (m ≤ 143)) ⊎ (((64 ≤ m) × (m ≤ 79)) ⊎ ((96 ≤ m) × (m ≤ 111))))
is_refused-ranges m h =
    let t = all_below-at 256 (λ m. same (not (is_refused m)) (accepted m)) m table h in ground arith
