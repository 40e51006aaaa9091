-- ===== src/Status/Tests.antt =====
-- The fields of the codes that the program uses.
use service_call.Base.{ℕ, ◌≡◌, refl, List, [], ◌∷◌, map}
use service_call.Status.{
  status_object_name_exists, status_unsuccessful, status_access_violation, status_invalid_parameter,
  status_no_memory, status_access_denied, status_object_name_not_found,
  status_port_connection_refused, status_not_supported, status_invalid_parameter_1,
  status_invalid_parameter_2, status_invalid_parameter_3, status_not_found,
}
use service_call.Status.Fields.{
  Fields, fields, status_severity_informational, status_severity_error,
}

abbrev failures : List ℕ
failures =
    status_unsuccessful ∷ status_access_violation ∷ status_invalid_parameter ∷ status_no_memory
    ∷ status_access_denied ∷ status_object_name_not_found ∷ status_port_connection_refused
    ∷ status_not_supported ∷ status_invalid_parameter_1 ∷ status_invalid_parameter_2
    ∷ status_invalid_parameter_3 ∷ status_not_found ∷ []

-- All of them are errors, and STATUS_OBJECT_NAME_EXISTS is not.
failures_severity :
    map (λ s. (fields s).severity) failures ≡ map (λ s. status_severity_error) failures
unfolding fields
failures_severity = refl

object_name_exists_severity :
    (fields status_object_name_exists).severity ≡ status_severity_informational
unfolding fields
object_name_exists_severity = refl

abbrev rpc_error : Fields
rpc_error = record { severity = 3; customer = 0; reserved = 0; facility = 2; code = 6 }
