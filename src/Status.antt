-- ===== src/Status.antt =====
-- The status codes of ServiceCall/ntstatus.h that the program returns or tests for, and NT_SUCCESS
-- of ServiceCall/Native.h. An NTSTATUS is a signed 32-bit integer, kept as its bit pattern.
pub mod Facility
pub mod Fields
mod Tests
use service_call.Base.{ℕ, Bool, ◌^◌, ltb}

abbrev pub status_success : ℕ
status_success = 0x00000000

abbrev pub status_object_name_exists : ℕ
status_object_name_exists = 0x40000000

abbrev pub status_unsuccessful : ℕ
status_unsuccessful = 0xc0000001

abbrev pub status_access_violation : ℕ
status_access_violation = 0xc0000005

abbrev pub status_invalid_parameter : ℕ
status_invalid_parameter = 0xc000000d

abbrev pub status_no_memory : ℕ
status_no_memory = 0xc0000017

abbrev pub status_access_denied : ℕ
status_access_denied = 0xc0000022

abbrev pub status_object_name_not_found : ℕ
status_object_name_not_found = 0xc0000034

abbrev pub status_port_connection_refused : ℕ
status_port_connection_refused = 0xc0000041

abbrev pub status_not_supported : ℕ
status_not_supported = 0xc00000bb

abbrev pub status_invalid_parameter_1 : ℕ
status_invalid_parameter_1 = 0xc00000ef

abbrev pub status_invalid_parameter_2 : ℕ
status_invalid_parameter_2 = 0xc00000f0

abbrev pub status_invalid_parameter_3 : ℕ
status_invalid_parameter_3 = 0xc00000f1

abbrev pub status_not_found : ℕ
status_not_found = 0xc0000225

-- NT_SUCCESS(Status): `((NTSTATUS)(Status)) >= 0`, that is, the sign bit is clear.
abbrev pub nt_success : ℕ → Bool
nt_success status = ltb status (2 ^ 31)
