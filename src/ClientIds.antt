-- ===== src/ClientIds.antt =====
-- The list of client ids of ServiceCall/ServiceCall.cpp: which client each worker thread serves.
-- Every access to it holds the critical section, so each function below is one step of its thread.
pub mod Lookup
pub mod Threads
pub mod Safety
pub mod Progress
mod Tests
use service_call.Base.{
  ℕ, Bool, true, false, not, ◌||◌, List, [], ◌∷◌, ◌++◌, Option, none, some, ◌==◌, if◌then◌else◌,
}
use service_call.Status.{status_success, status_not_found, status_not_supported, nt_success}

-- A handle of a client's process, and the id of the thread that serves it.
pub record ClientId : Type 0 where
  pub process : ℕ
  pub thread : ℕ

-- CLIENT_ID_LIST.
abbrev pub ClientIdList : Type 0
ClientIdList = List ClientId

-- The global variables; `none` is the null pointer, for the critical section and for the list.
pub record Globals : Type 0 where
  pub critical_section : Option (Unit {0})
  pub client_id_list : Option ClientIdList
  pub system_lpc_message_length : ℕ

abbrev pub is_null {ℓ} : {A : Type ℓ} → Option A → Bool
is_null none = true
is_null (some a) = false

-- The list behind a pointer that is not null.
abbrev pub get_or {ℓ} : {A : Type ℓ} → A → Option A → A
get_or d none = d
get_or d (some a) = a

-- WorkerThread, first critical section: `push_back` of the worker's client.
unfoldable pub push_client : (process thread : ℕ) → ClientIdList → ClientIdList
push_client process thread list = list ++ record { process = process; thread = thread } ∷ []

-- WorkerThread, second critical section: the first entry of the thread is erased.
unfoldable pub erase_client : (thread : ℕ) → ClientIdList → ClientIdList
erase_client thread [] = []
erase_client thread (c ∷ list) =
    let rest = erase_client thread list in if c.thread == thread then list else c ∷ rest

-- The loop of RtlSafeThreadServiceClientId: the process handle in the thread's first entry.
unfoldable pub find_client : (thread : ℕ) → ClientIdList → Option ℕ
find_client thread [] = none
find_client thread (c ∷ list) =
    if c.thread == thread then some c.process else find_client thread list

-- What a call gives back: its status, and what it stores through its two pointers, if anything.
pub record ClientAnswer : Type 0 where
  pub status : ℕ
  pub stored : Option (ℕ × ℕ)

-- The search that RtlSafeThreadServiceClientId makes in the list, with its result.
unfoldable pub answer_of : (get_process_id : ℕ → ℕ) → Option ℕ → ClientAnswer
answer_of get_process_id none = record { status = status_not_found; stored = none }
answer_of get_process_id (some process) = record {
  status = status_success;
  stored = some (process, get_process_id process);
}

-- RtlSafeThreadServiceClientId, called by `thread`. GetProcessId is not of this program.
unfoldable pub safe_thread_service_client_id :
    (get_process_id : ℕ → ℕ) → Globals → (thread : ℕ) → ClientAnswer
unfolding answer_of
safe_thread_service_client_id get_process_id g thread =
    if is_null g.critical_section || is_null g.client_id_list
    then record { status = status_not_supported; stored = none }
    else answer_of get_process_id (find_client thread (get_or [] g.client_id_list))

-- RtlClientId.
unfoldable pub rtl_client_id :
    (get_process_id : ℕ → ℕ) → Globals → (thread : ℕ) → Bool × Option (ℕ × ℕ)
unfolding safe_thread_service_client_id
rtl_client_id get_process_id g thread =
    let answer = safe_thread_service_client_id get_process_id g thread in
    (nt_success answer.status, answer.stored)
