-- ===== src/Examples/Query.antt =====
-- What BsQuerySystemInformation of client/main.cpp makes of the system's answers.
use service_call.Base.{
  ℕ, ◌≡◌, refl, Bool, true, false, ◌&&◌, List, [], ◌∷◌, some, if◌then◌else◌, ◌==◌, length, arith,
}
use service_call.Status.{
  status_success, status_unsuccessful, status_access_violation, status_invalid_parameter_1,
  status_invalid_parameter_2, status_port_connection_refused, status_object_name_not_found,
  nt_success,
}
use service_call.Parameter.{Arch, Blob, RoutineParameter, is_refused}
use service_call.Client.Defs.{Answers, connect_port, exchange, lpc_message_length}
use service_call.Client.Status.{is_readable, service_call_w-cases, none_missing}
use service_call.Parameter.Capture.{all_accepted}
use service_call.Enums.SystemInformationValue.{system_information_class_value}
use service_call.Examples.Macros.{
  dword_mask, ptr_no_map_mask, initialize_parameter_blob, initialize_parameter_blob_ptr, zero_blobs,
  initialize_service_parameters, store_blob, service_parameters_value, service_parameters_ptr,
}
use service_call.Examples.Client.{
  Query, Program, query_parameters, query_request, query_call, bs_query_system_information,
}

-- The blobs that the client sends.
abbrev pub query_blobs : Query → List Blob
query_blobs q =
    initialize_parameter_blob dword_mask (system_information_class_value q.information_class)
    ∷ initialize_parameter_blob_ptr ptr_no_map_mask q.buffer q.buffer_size
    ∷ initialize_parameter_blob dword_mask q.buffer_size
    ∷ initialize_parameter_blob_ptr ptr_no_map_mask q.return_length
        (if q.return_length == 0 then 0 else 4)
    ∷ []

abbrev pub queried : Query → RoutineParameter
queried q = record { parameter_count = 4; parameters = query_blobs q }

pub query_parameters-queried :
    (memory : List Blob) (q : Query)
    → length memory ≡ 4
    → query_parameters memory q ≡ some (queried q)
unfolding query_parameters initialize_service_parameters zero_blobs store_blob
    service_parameters_value service_parameters_ptr
query_parameters-queried [] q e = absurd (omega arith)
query_parameters-queried (a ∷ []) q e = absurd (omega arith)
query_parameters-queried (a ∷ b ∷ []) q e = absurd (omega arith)
query_parameters-queried (a ∷ b ∷ c ∷ []) q e = absurd (omega arith)
query_parameters-queried (a ∷ b ∷ c ∷ d ∷ []) q e = refl
query_parameters-queried (a ∷ b ∷ c ∷ d ∷ x ∷ xs) q e = absurd (omega arith)

query_blobs-accepted : (q : Query) → all_accepted (query_blobs q) ≡ true
unfolding is_refused initialize_parameter_blob initialize_parameter_blob_ptr
query_blobs-accepted q = refl

pub query_blobs-none_missing : (q : Query) → none_missing (query_blobs q) ≡ true
unfolding initialize_parameter_blob initialize_parameter_blob_ptr
query_blobs-none_missing q = refl

module _ (sys : Answers) (message_length : ℕ) (prog : Program) where
  -- Whether the call gets through to the service and back.
  abbrev pub is_through : Query → Bool
  is_through q =
      is_readable sys message_length (query_request prog (queried q))
      && (sys.connect_status == status_success && nt_success sys.request_status)

  -- The offset of the data in the reply.
  abbrev pub data_offset : ℕ
  data_offset = if message_length == 0 then lpc_message_length sys.architecture else message_length

  -- The status of a call that does not get through.
  abbrev pub failure : Query → ℕ
  failure q =
      if is_readable sys message_length (query_request prog (queried q))
      then if sys.connect_status == status_success
        then status_unsuccessful
        else if sys.connect_status == status_port_connection_refused
        then status_invalid_parameter_2
        else if sys.connect_status == status_object_name_not_found
        then status_invalid_parameter_1
        else status_unsuccessful
      else status_access_violation

  -- The status that a call returns.
  abbrev pub answer : (before : ℕ) → Query → ℕ
  answer before q =
      if is_through q
      then if sys.is_bad_write prog.status_address 4 then before else sys.reply_at data_offset
      else failure q

  -- What a call leaves.
  pub query_call-called :
      (arch : Arch) (before : ℕ) (memory : List Blob) (q : Query)
      → length memory ≡ 4
      → query_call sys message_length prog arch before memory q
        ≡ some (record {
          status = answer before q;
          message_length = if is_through q then data_offset else message_length;
          param = queried q;
        })
  unfolding query_call connect_port exchange
  query_call-called arch before memory q e =
      let filled = query_parameters-queried memory q e in
      let called =
        service_call_w-cases sys message_length (query_request prog (queried q)) arch refl
          (omega arith) in
      let good = query_blobs-accepted q in let there = query_blobs-none_missing q in ground arith

  -- Whatever is in the memory of the static list of four blobs, and for all arguments,
  -- BsQuerySystemInformation returns. If its list and the name can be read, the port is connected and the
  -- request is answered, it returns the DWORD behind the reply's header, or what the uninitialised local
  -- held if that cannot be written; otherwise the status of `failure`, which is never a success.
  pub bs_query_system_information-returns :
      (arch : Arch) (before : ℕ) (memory : List Blob) (q : Query)
      → length memory ≡ 4
      → (bs_query_system_information sys message_length prog arch before memory q
          ≡ some (
              if is_through q
              then if sys.is_bad_write prog.status_address 4
                then before
                else sys.reply_at data_offset
              else failure q))
        × (nt_success (failure q) ≡ false)
  unfolding bs_query_system_information
  bs_query_system_information-returns arch before memory q e =
      (rw (query_call-called arch before memory q e) refl, ground arith)
