-- ===== src/Api.antt =====
-- The statuses that ServiceCall/ServiceCall.h documents for each of its functions, and those that the functions of
-- ServiceCall/ServiceCall.cpp return.
mod Tests
use service_call.Base.{
  Bool, ℕ, ◌<◌, ◌^◌, ◌≡◌, refl, ◌||◌, true, false, not, List, [], ◌∷◌, some, arith, ◌==◌, has,
  Bool-cases, inl, inr, if◌then◌else◌, Option, none,
}
use service_call.Status.{
  status_success, status_not_found, status_not_supported, status_access_violation,
  status_invalid_parameter, status_invalid_parameter_1, status_invalid_parameter_2,
  status_invalid_parameter_3, status_object_name_exists, status_no_memory, status_unsuccessful,
  nt_success,
}
use service_call.Parameter.{Arch, IsWhole, RoutineParameter, copied, refused}
use service_call.Parameter.Capture.{all_accepted, capture-all_accepted}
use service_call.ClientIds.{
  Globals, is_null, find_client, safe_thread_service_client_id, answer_of, get_or,
}
use service_call.Client.Defs
use service_call.Client.Defs.{service_call_w}
use service_call.Client.Status.{is_documented, service_call_w-IsClean}
use service_call.Server.Register
use service_call.Server.Register.{
  initialize_service, register_w, create_service, start_thread, is_bad_access,
}
use service_call.Server.Registered.{register_w-IsBalanced}
use service_call.Server.Unregister
use service_call.Server.Unregister.{Service, unregister, is_accessible, unregister-tests_one_byte}

abbrev pub client_id_statuses : List ℕ
client_id_statuses = status_success ∷ status_not_found ∷ status_not_supported ∷ []

abbrev pub initialize_statuses : List ℕ
initialize_statuses = status_success ∷ []

abbrev pub register_statuses : List ℕ
register_statuses =
    status_success ∷ status_access_violation ∷ status_invalid_parameter_3
    ∷ status_object_name_exists ∷ status_no_memory ∷ status_not_supported ∷ []

abbrev pub unregister_statuses : List ℕ
unregister_statuses = status_success ∷ status_access_violation ∷ status_invalid_parameter ∷ []

abbrev pub service_call_statuses : List ℕ
service_call_statuses =
    status_success ∷ status_access_violation ∷ status_invalid_parameter_1
    ∷ status_invalid_parameter_2 ∷ status_unsuccessful ∷ []

answer_of-documented :
    (get_process_id : ℕ → ℕ) (found : Option ℕ)
    → has (answer_of get_process_id found).status client_id_statuses ≡ true
unfolding answer_of
answer_of-documented g none = refl
answer_of-documented g (some p) = refl

client_id-documented :
    (get_process_id : ℕ → ℕ) (g : Globals) (thread : ℕ)
    → has (safe_thread_service_client_id get_process_id g thread).status client_id_statuses ≡ true
unfolding safe_thread_service_client_id
client_id-documented get_process_id g thread =
    let found =
      answer_of-documented get_process_id (find_client thread (get_or [] g.client_id_list)) in
    ground arith

initialize-documented :
    (architecture : ℕ) (g : Globals)
    → has (initialize_service architecture g).0 initialize_statuses ≡ true
unfolding initialize_service
initialize-documented architecture g = ground arith

register-documented :
    (arch : Arch) (sys : Register.Answers) (g : Globals) (r : Register.Request)
    (res : Register.Result)
    → IsWhole r.parameters
    → r.parameters.parameter_count < 2 ^ 28
    → register_w arch sys g r ≡ some res
    → has res.status register_statuses ≡ true
unfolding register_w create_service start_thread
register-documented arch sys g r res w small e =
    let c = capture-all_accepted arch r.parameters w small in ground arith

-- The first byte of the service's record cannot be read, or what is used of it can be accessed.
abbrev pub is_safe : Arch → Unregister.Answers → (address : ℕ) → Bool
is_safe arch sys address = sys.is_bad_read address 1 || is_accessible arch sys address

unregister-documented :
    (arch : Arch) (sys : Unregister.Answers) (address : ℕ) (s : Service)
    → is_safe arch sys address ≡ true
    → (res : ℕ × (Bool × Service)) × (unregister arch sys address s ≡ some res)
      × (has res.0 unregister_statuses ≡ true)
unregister-documented arch sys address s safe =
    elim (unregister-tests_one_byte arch sys address s) [
      | inl (_, e) ↦ (_, e, refl)
      | inr (inl (f, a, _)) ↦ absurd (ground arith)
      | inr (inr (_, _, (status, e, good, bad))) ↦ (
        _,
        e,
        elim (Bool-cases (nt_success sys.close_status)) [
          | inl t ↦ rw (good.1 t) refl
          | inr f ↦ rw (bad f) refl
        ],
      )
    ]

-- The five functions return, each with one of the statuses that its comment in ServiceCall.h documents, on these
-- conditions: the two that read a parameter list, if it has as many blobs as declared, fewer than 2^28; and
-- ScUnregisterServiceRoutine if the first byte of the record cannot be read, or CloseEvent can be written and
-- hPort be read.
pub statuses-documented :
    (arch : Arch) (get_process_id : ℕ → ℕ) (g : Globals) (thread architecture : ℕ)
    (registering : Register.Answers) (registered : Register.Request)
    (unregistering : Unregister.Answers) (address : ℕ) (s : Service) (calling : Defs.Answers)
    (message_length : ℕ) (called : Defs.Request)
    → IsWhole registered.parameters
    → registered.parameters.parameter_count < 2 ^ 28
    → IsWhole called.parameters
    → called.parameters.parameter_count < 2 ^ 28
    → is_safe arch unregistering address ≡ true
    → (has (safe_thread_service_client_id get_process_id g thread).status client_id_statuses ≡ true)
      × (has (initialize_service architecture g).0 initialize_statuses ≡ true)
      × ((res : Register.Result) × (register_w arch registering g registered ≡ some res)
          × (has res.status register_statuses ≡ true))
      × ((ended : ℕ × (Bool × Service)) × (unregister arch unregistering address s ≡ some ended)
          × (has ended.0 unregister_statuses ≡ true))
      × ((res : Defs.Result) × (service_call_w calling message_length called arch ≡ some res)
          × (has res.status service_call_statuses ≡ true))
statuses-documented arch get_process_id g thread architecture registering registered unregistering
      address s calling message_length called w small w' small' safe =
    let (stored, runs, _) = register_w-IsBalanced arch registering g registered w small in
    let (res, calls, clean, _) =
      service_call_w-IsClean calling message_length called arch w' small' in
    let fine = clean.documented in
    (
      client_id-documented get_process_id g thread,
      initialize-documented architecture g,
      (stored, runs, register-documented arch registering g registered stored w small runs),
      unregister-documented arch unregistering address s safe,
      (res, calls, ground arith),
    )
