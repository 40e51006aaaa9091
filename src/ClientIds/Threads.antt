-- ===== src/ClientIds/Threads.antt =====
-- The worker threads of ServiceCall/ServiceCall.cpp as interleavings of their steps. A step is what a
-- thread does under the critical section, or the opening or the closing of its client's handle.
use service_call.Base.{ℕ, ◌≡◌, Bool, true, false, [], Option, none, some, ◌==◌, if◌then◌else◌}
use service_call.ClientIds.{ClientIdList, Globals, push_client, erase_client}

-- Where WorkerThread stands, with its client's process handle.
pub data Phase : Type 0 where
  absent : Phase
  started : ℕ → Phase
  serving : ℕ → Phase
  replied : ℕ → Phase
  left : ℕ → Phase

pub record State : Type 0 where
  pub clients : ClientIdList
  pub phase : ℕ → Phase
  pub is_open : ℕ → Bool

abbrev pub update {ℓ} : {A : Type ℓ} → (ℕ → A) → ℕ → A → ℕ → A
update f i a j = if j == i then a else f j

-- `spawn` is OpenProcess and CreateThread in WaitThread: the system gives a handle that is not open and
-- an id that no running thread has. `enter` is the first critical section of WorkerThread, `reply` its
-- NtReplyWaitReplyPort, `leave` the second critical section, and `close` its NtClose and its end.
pub data Step (s : State) : State → Type 0 where
  spawn :
      (t h : ℕ)
      → s.phase t ≡ absent
      → s.is_open h ≡ false
      → Step s
          (record s { phase = update s.phase t (started h); is_open = update s.is_open h true })
  enter :
      (t h : ℕ)
      → s.phase t ≡ started h
      → Step s
          (record s { clients = push_client h t s.clients; phase = update s.phase t (serving h) })
  reply :
      (t h : ℕ) → s.phase t ≡ serving h → Step s (record s { phase = update s.phase t (replied h) })
  leave :
      (t h : ℕ)
      → s.phase t ≡ replied h
      → Step s (record s { clients = erase_client t s.clients; phase = update s.phase t (left h) })
  close :
      (t h : ℕ)
      → s.phase t ≡ left h
      → Step s (record s { phase = update s.phase t absent; is_open = update s.is_open h false })

-- After ScInitializeService: an empty list and no worker.
abbrev pub init : State
init = record { clients = []; phase = λ t. absent; is_open = λ h. false }

pub data Reach : State → Type 0 where
  here : Reach init
  next : {s u : State} → Reach s → Step s u → Reach u

-- The handle that a thread holds.
abbrev pub held : Phase → Option ℕ
held absent = none
held (started h) = some h
held (serving h) = some h
held (replied h) = some h
held (left h) = some h

-- The handle that the list has for a thread.
abbrev pub listed : Phase → Option ℕ
listed absent = none
listed (started h) = none
listed (serving h) = some h
listed (replied h) = some h
listed (left h) = none

-- The global variables once the service is initialised.
abbrev pub globals : State → Globals
globals s = record {
  critical_section = some tt;
  client_id_list = some s.clients;
  system_lpc_message_length = 40;
}
