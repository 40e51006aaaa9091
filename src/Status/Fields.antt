-- ===== src/Status/Fields.antt =====
-- The fields of a status code: the layout that ServiceCall/ntstatus.h documents and its severity codes.
use service_call.Base.{ℕ, ◌+◌, ◌*◌, ◌/◌, ◌%◌, ◌^◌, ◌<◌, ◌≡◌, ap, ◌||◌, ◌==◌, arith}
use service_call.Status.{nt_success}
use service_call.Status.Facility.{
  Facility, facility_value, facility_value-below, facility_maximum_value,
}

abbrev pub status_severity_success : ℕ
status_severity_success = 0x0

abbrev pub status_severity_informational : ℕ
status_severity_informational = 0x1

abbrev pub status_severity_warning : ℕ
status_severity_warning = 0x2

abbrev pub status_severity_error : ℕ
status_severity_error = 0x3

-- Sev, C, R, Facility and Code.
pub record Fields : Type 0 where
  pub severity : ℕ
  pub customer : ℕ
  pub reserved : ℕ
  pub facility : ℕ
  pub code : ℕ

-- Bits 31-30, 29, 28, 27-16 and 15-0.
unfoldable pub fields : ℕ → Fields
fields status = record {
  severity = status / 2 ^ 30;
  customer = status / 2 ^ 29 % 2;
  reserved = status / 2 ^ 28 % 2;
  facility = status / 2 ^ 16 % 2 ^ 12;
  code = status % 2 ^ 16;
}

unfoldable pub assemble : Fields → ℕ
assemble f =
    f.severity * 2 ^ 30 + f.customer * 2 ^ 29 + f.reserved * 2 ^ 28 + f.facility * 2 ^ 16 + f.code

pub record Fits (f : Fields) : Type 0 where
  pub severity_fits : f.severity < 2 ^ 2
  pub customer_fits : f.customer < 2
  pub reserved_fits : f.reserved < 2
  pub facility_fits : f.facility < 2 ^ 12
  pub code_fits : f.code < 2 ^ 16

fields-assemble : (f : Fields) → Fits f → fields (assemble f) ≡ f
unfolding fields assemble
fields-assemble f v =
    let a = v.severity_fits in
    let b = v.customer_fits in
    let c = v.reserved_fits in let d = v.facility_fits in let e = v.code_fits in ground arith

assemble-fields :
    (status : ℕ) → status < 2 ^ 32 → (assemble (fields status) ≡ status) × Fits (fields status)
unfolding fields assemble
assemble-fields status h = (
  omega arith,
  record {
    severity_fits = omega arith;
    customer_fits = omega arith;
    reserved_fits = omega arith;
    facility_fits = omega arith;
    code_fits = omega arith;
  },
)

-- A 32-bit status and its fields determine each other: a status is put together again from its fields, and
-- fields that fit are found again in the status made of them. NT_SUCCESS holds exactly of a status whose
-- severity is success or informational. Every facility code is below FACILITY_MAXIMUM_VALUE, as the
-- header asks, and fits in its field.
pub nt_success-severity :
    (status : ℕ) (f : Fields) (k : Facility)
    → status < 2 ^ 32
    → Fits f
    → (assemble (fields status) ≡ status)
      × (fields (assemble f) ≡ f)
      × (nt_success status ≡ (
          (fields status).severity == status_severity_success
          || (fields status).severity == status_severity_informational))
      × (facility_value k < facility_maximum_value)
      × ((fields (assemble (record f { facility = facility_value k }))).facility ≡ facility_value k)
nt_success-severity status f k h v =
    let a = facility_value-below k in
    let g = record f { facility = facility_value k } in
    let w : Fits g = record {
      severity_fits = v.severity_fits;
      customer_fits = v.customer_fits;
      reserved_fits = v.reserved_fits;
      facility_fits = omega arith;
      code_fits = v.code_fits;
    } in
    (
      (assemble-fields status h).0,
      fields-assemble f v,
      unfold fields in ground arith,
      a,
      ap (λ x. x.facility) (fields-assemble g w),
    )
