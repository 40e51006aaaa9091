-- ===== src/Parameter.antt =====
-- Parameter blobs and their masks: ServiceCall/ServiceCall.h, and RtlCaptureParameters and
-- RtlEqualParameterType of ServiceCall/ServiceCall.cpp.
pub mod Masks
pub mod Capture
pub mod Equal
mod Tests
use service_call.Base.{
  ℕ, zero, suc, ◌+◌, ◌*◌, ◌%◌, ◌^◌, Bool, true, false, not, ◌&&◌, ◌||◌, List, [], ◌∷◌, ◌==◌, leb,
  bit_and, if◌then◌else◌, length, ◌≡◌, Option, none, some,
}

-- The two builds of the library: without and with _WIN64.
pub data Arch : Type 0 where
  x86 : Arch
  x64 : Arch

-- SERVICE_PARAMETER_BLOB. The union is kept as `ul_parameter`.
pub record Blob : Type 0 where
  pub parameter_mask : ℕ
  pub reserved1 : ℕ
  pub max_buffer_size : ℕ
  pub ul_parameter : ℕ

-- SERVICE_ROUTINE_PARAMETER: the declared count, and the blobs that lie in memory behind it.
pub record RoutineParameter : Type 0 where
  pub parameter_count : ℕ
  pub parameters : List Blob

-- `mask & bits` as a condition.
abbrev pub is_set : ℕ → ℕ → Bool
is_set mask bits = not (bit_and mask bits == 0)

abbrev pub vl_bit : ℕ
vl_bit = 0b10000000

abbrev pub pt_bit : ℕ
pt_bit = 0b01000000

abbrev pub nl_bit : ℕ
nl_bit = 0b00100000

abbrev pub unused_bit : ℕ
unused_bit = 0b00010000

abbrev pub size_bits : ℕ
size_bits = 0b00001111

-- The condition on which RtlCaptureParameters refuses a mask.
unfoldable pub is_refused : ℕ → Bool
is_refused mask =
    is_set mask unused_bit
    || (if is_set mask vl_bit
        then is_set mask pt_bit || is_set mask nl_bit || not (is_set mask size_bits)
        else not (is_set mask pt_bit))

-- What a capture comes to: the copy, the null pointer, or an access outside a block.
pub data Captured : Type 0 where
  copied : List Blob → Captured
  refused : Captured
  overrun : Captured

abbrev pub prepend : Blob → Captured → Captured
prepend b (copied bs) = copied (b ∷ bs)
prepend b refused = refused
prepend b overrun = overrun

-- size_t holds 32 or 64 bits.
abbrev pub size_mod : Arch → ℕ
size_mod x86 = 2 ^ 32
size_mod x64 = 2 ^ 64

-- sizeof(SERVICE_PARAMETER_BLOB), and the size of the two DWORDs in front of the blobs.
abbrev pub blob_size : ℕ
blob_size = 16

abbrev pub header_size : ℕ
header_size = 8

-- PARAMETER_BUFFER_SIZE(n), computed in size_t as the capture does.
unfoldable pub buffer_size : Arch → ℕ → ℕ
buffer_size arch n = (header_size + n * blob_size % size_mod arch) % size_mod arch

-- The loop of RtlCaptureParameters with `n` rounds to go, at blob `i`, into a block of `size` bytes.
unfoldable pub capture_loop : (size n i : ℕ) → List Blob → Captured
capture_loop size zero i blobs = copied []
capture_loop size (suc n) i [] = overrun
capture_loop size (suc n) i (b ∷ blobs) =
    let rest = capture_loop size n (i + 1) blobs in
    if is_refused b.parameter_mask
    then refused
    else if leb (header_size + (i + 1) * blob_size) size
    then prepend b rest
    else overrun

-- RtlCaptureParameters.
unfoldable pub capture : Arch → RoutineParameter → Captured
capture arch p = capture_loop (buffer_size arch p.parameter_count) p.parameter_count 0 p.parameters

-- The loop of RtlEqualParameterType with `n` rounds to go; `none` is a read behind an array's end.
unfoldable pub equal_loop : ℕ → List Blob → List Blob → Option Bool
equal_loop zero xs ys = some true
equal_loop (suc n) [] ys = none
equal_loop (suc n) (x ∷ xs) [] = none
equal_loop (suc n) (x ∷ xs) (y ∷ ys) =
    let rest = equal_loop n xs ys in
    if not (x.parameter_mask == y.parameter_mask) then some false else rest

-- RtlEqualParameterType.
unfoldable pub equal_type : RoutineParameter → RoutineParameter → Option Bool
equal_type p q =
    if not (p.parameter_count == q.parameter_count)
    then some false
    else equal_loop p.parameter_count p.parameters q.parameters

-- As many blobs as declared.
abbrev pub IsWhole : RoutineParameter → Type 0
IsWhole p = length p.parameters ≡ p.parameter_count
