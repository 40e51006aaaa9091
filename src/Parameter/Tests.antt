-- ===== src/Parameter/Tests.antt =====
-- The theorems on parameters at concrete lists.
use service_call.Base.{ℕ, ◌≡◌, refl, ◌↔◌, ◌⊎◌, ◌≤◌, ◌^◌, false, true, some, [], ◌∷◌, arith}
use service_call.Parameter.{
  x86, x64, Blob, RoutineParameter, copied, refused, overrun, is_refused, capture, equal_type,
  equal_loop, capture_loop, buffer_size,
}
use service_call.Parameter.Masks.{is_refused-ranges}
use service_call.Parameter.Capture.{capture-all_accepted, capture-overrun}
use service_call.Parameter.Equal.{equal_type-masks, equal_type-capture, masks}

abbrev blob : (mask size value : ℕ) → Blob
blob mask size value = record {
  parameter_mask = mask;
  reserved1 = 0;
  max_buffer_size = size;
  ul_parameter = value;
}

-- The parameters that server/main.cpp registers, and a call of client/main.cpp.
abbrev registered : RoutineParameter
registered = record {
  parameter_count = 4;
  parameters = blob 0x84 0 0 ∷ blob 0x60 0 0 ∷ blob 0x84 0 0 ∷ blob 0x60 0 0 ∷ [];
}

abbrev called : RoutineParameter
called = record {
  parameter_count = 4;
  parameters = blob 0x84 0 5 ∷ blob 0x60 64 0x1000 ∷ blob 0x84 0 64 ∷ blob 0x60 4 0x2000 ∷ [];
}

is_refused-ranges_example :
    (is_refused 0x84 ≡ false)
    ↔ (((129 ≤ 0x84) × (0x84 ≤ 143)) ⊎ (((64 ≤ 0x84) × (0x84 ≤ 79)) ⊎ ((96 ≤ 0x84) × (0x84 ≤ 111))))
is_refused-ranges_example = is_refused-ranges 0x84 (omega arith)

capture-all_accepted_example : capture x86 called ≡ copied called.parameters
unfolding is_refused
capture-all_accepted_example = capture-all_accepted x86 called refl (omega arith)

-- A pointer that is also a value is refused.
capture_refuses :
    capture x64 (record { parameter_count = 1; parameters = blob 0xc4 0 0 ∷ [] }) ≡ refused
unfolding capture capture_loop is_refused buffer_size
capture_refuses = refl

capture-overrun_example :
    capture x86 (record { parameter_count = 2 ^ 28; parameters = blob 0x84 0 5 ∷ [] }) ≡ overrun
unfolding is_refused
capture-overrun_example =
    capture-overrun (2 ^ 28) (blob 0x84 0 5 ∷ []) [] (omega arith) (omega arith) refl refl

equal_type-masks_example :
    (equal_type registered called ≡ some true)
    ↔ (masks registered.parameters ≡ masks called.parameters)
equal_type-masks_example = equal_type-masks registered called refl refl

equal_type-capture_example : capture x64 called ≡ copied called.parameters
unfolding capture capture_loop is_refused buffer_size equal_type equal_loop
equal_type-capture_example =
    equal_type-capture x64 registered called registered.parameters refl refl (omega arith) refl refl
