-- ===== src/Parameter/Capture.antt =====
-- RtlCaptureParameters: when it copies, when it refuses, and when it leaves its block.
use service_call.Base.{
  ℕ, zero, suc, ◌+◌, ◌*◌, ◌-◌, ◌^◌, ◌<◌, ◌≤◌, ◌≡◌, refl, Bool, true, not, ◌&&◌, List, [], ◌∷◌, ◌++◌,
  arith, length, leb, if◌then◌else◌, Bool-cases, inl, inr,
}
use service_call.Parameter.{
  Arch, x86, x64, Blob, RoutineParameter, copied, refused, overrun, is_refused, capture_loop,
  capture, buffer_size, IsWhole, header_size, blob_size,
}

-- Every mask is one that the capture accepts.
abbrev pub all_accepted : List Blob → Bool
all_accepted [] = true
all_accepted (b ∷ bs) = not (is_refused b.parameter_mask) && all_accepted bs

capture_loop-fits :
    (size n i : ℕ) (bs : List Blob)
    → length bs ≡ n
    → header_size + (i + n) * blob_size ≤ size
    → capture_loop size n i bs ≡ (if all_accepted bs then copied bs else refused)
unfolding capture_loop
capture_loop-fits size zero i [] e h = refl
capture_loop-fits size zero i (b ∷ bs) e h = absurd (omega arith)
capture_loop-fits size (suc n) i [] e h = absurd (omega arith)
capture_loop-fits size (suc n) i (b ∷ bs) e h =
    ground (arith, capture_loop-fits size n (i + 1) bs (omega arith) (omega arith))

pub buffer_size-exact :
    (arch : Arch) (n : ℕ) → n < 2 ^ 28 → buffer_size arch n ≡ header_size + n * blob_size
unfolding buffer_size
buffer_size-exact x86 n h = omega arith
buffer_size-exact x64 n h = omega arith

-- With fewer than 2^28 parameters, as many blobs as declared, and on either build, the capture is a
-- copy of all the blobs if every mask is accepted, and the null pointer otherwise.
pub capture-all_accepted :
    (arch : Arch) (p : RoutineParameter)
    → IsWhole p
    → p.parameter_count < 2 ^ 28
    → capture arch p ≡ (if all_accepted p.parameters then copied p.parameters else refused)
unfolding capture
capture-all_accepted arch p w h =
    capture_loop-fits (buffer_size arch p.parameter_count) p.parameter_count 0 p.parameters w
      (omega (arith, buffer_size-exact arch p.parameter_count h))

capture_loop-overrun :
    (size n i : ℕ) (front rest : List Blob)
    → all_accepted front ≡ true
    → length front ≤ n
    → size < header_size + (i + length front) * blob_size
    → header_size + i * blob_size ≤ size
    → capture_loop size n i (front ++ rest) ≡ overrun
unfolding capture_loop
capture_loop-overrun size n i [] rest ok le out in_ = absurd (omega arith)
capture_loop-overrun size zero i (b ∷ bs) rest ok le out in_ = absurd (omega arith)
capture_loop-overrun size (suc n) i (b ∷ bs) rest ok le out in_ =
    elim (Bool-cases (leb (header_size + (i + 1) * blob_size) size)) [
      | inl fits ↦ ground (
        arith,
        capture_loop-overrun size n (i + 1) bs rest (ground arith) (omega arith) (omega arith)
            (ground arith),
      )
      | inr out' ↦ ground arith
    ]

-- On the 32-bit build the size of the block wraps around: from 2^28 parameters on (and below 2^29),
-- the capture writes behind its block as soon as one blob more than n - 2^28 is there and accepted.
pub capture-overrun :
    (n : ℕ) (front rest : List Blob)
    → 2 ^ 28 ≤ n
    → n < 2 ^ 29
    → length front ≡ n - 2 ^ 28 + 1
    → all_accepted front ≡ true
    → capture x86 (record { parameter_count = n; parameters = front ++ rest }) ≡ overrun
unfolding capture buffer_size
capture-overrun n front rest lo hi e ok =
    capture_loop-overrun _ n 0 front rest ok (omega arith) (omega arith) (omega arith)
