-- ===== src/Examples/Macros.antt =====
-- The masks and the macros of ServiceCall/ServiceCall.h by which a caller fills a parameter list in place.
-- The blobs are those that lie in the memory behind the list's two DWORDs; `none` is a write behind them.
use service_call.Base.{ℕ, zero, suc, ◌*◌, ◌/◌, ◌%◌, ◌^◌, List, [], ◌∷◌, Option, none, some, ◌>>=◌}
use service_call.Parameter.{Blob, RoutineParameter}

-- _QWORD, _DWORD, _WORD and _BYTE; _PTR and _PTR_NO_MAP.
abbrev pub qword_mask : ℕ
qword_mask = 0b10001000

abbrev pub dword_mask : ℕ
dword_mask = 0b10000100

abbrev pub word_mask : ℕ
word_mask = 0b10000010

abbrev pub byte_mask : ℕ
byte_mask = 0b10000001

abbrev pub ptr_mask : ℕ
ptr_mask = 0b01000000

abbrev pub ptr_no_map_mask : ℕ
ptr_no_map_mask = 0b01100000

-- RtlInitializeParameterBlob: `parameter` is the value as it was cast to ULONG64.
unfoldable pub initialize_parameter_blob : (type parameter : ℕ) → Blob
initialize_parameter_blob type parameter = record {
  parameter_mask = type % 2 ^ 8;
  reserved1 = 0;
  max_buffer_size = 0;
  ul_parameter = parameter % 2 ^ 64;
}

-- RtlInitializeParameterBlobPtr.
unfoldable pub initialize_parameter_blob_ptr : (type parameter size : ℕ) → Blob
initialize_parameter_blob_ptr type parameter size = record {
  parameter_mask = type % 2 ^ 8;
  reserved1 = 0;
  max_buffer_size = size % 2 ^ 32;
  ul_parameter = parameter % 2 ^ 64;
}

abbrev blank : Blob
blank = record { parameter_mask = 0; reserved1 = 0; max_buffer_size = 0; ul_parameter = 0 }

-- The last of the blobs: the size that is zeroed counts one DWORD in front of the blobs where two are, so
-- that the upper DWORD of its value stays.
abbrev blank_but_end : Blob → Blob
blank_but_end b = record {
  parameter_mask = 0;
  reserved1 = 0;
  max_buffer_size = 0;
  ul_parameter = b.ul_parameter / 2 ^ 32 * 2 ^ 32;
}

-- RtlZeroMemory of sizeof(DWORD) and `n` blobs, from the list's beginning.
unfoldable pub zero_blobs : ℕ → List Blob → Option (List Blob)
zero_blobs zero bs = some bs
zero_blobs (suc n) [] = none
zero_blobs (suc zero) (b ∷ bs) = some (blank_but_end b ∷ bs)
zero_blobs (suc (suc n)) (b ∷ bs) = do zeroed ← zero_blobs (suc n) bs; some (blank ∷ zeroed)

-- RtlInitializeServiceParameters.
unfoldable pub initialize_service_parameters : List Blob → ℕ → Option RoutineParameter
initialize_service_parameters memory n = do
  zeroed ← zero_blobs n memory
  some (record { parameter_count = n % 2 ^ 32; parameters = zeroed })

-- A blob of the array is written.
unfoldable pub store_blob : List Blob → ℕ → Blob → Option (List Blob)
store_blob [] i b = none
store_blob (x ∷ xs) zero b = some (b ∷ xs)
store_blob (x ∷ xs) (suc i) b = do stored ← store_blob xs i b; some (x ∷ stored)

-- RtlServiceParametersValue.
unfoldable pub service_parameters_value :
    RoutineParameter → (index type value : ℕ) → Option RoutineParameter
service_parameters_value p index type value = do
  stored ← store_blob p.parameters index (initialize_parameter_blob type value)
  some (record p { parameters = stored })

-- RtlServiceParametersPtr.
unfoldable pub service_parameters_ptr :
    RoutineParameter → (index type value size : ℕ) → Option RoutineParameter
service_parameters_ptr p index type value size = do
  stored ← store_blob p.parameters index (initialize_parameter_blob_ptr type value size)
  some (record p { parameters = stored })
