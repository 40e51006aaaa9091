-- ===== src/Server/Wait.antt =====
-- WaitThread of ServiceCall/ServiceCall.cpp: one turn of its loop, and the thread. What the system
-- answers in a turn is its parameter, and the order of the turns is a list.
use service_call.Base.{
  ℕ, Bool, true, false, not, ◌||◌, List, [], ◌∷◌, ◌++◌, Option, none, some, ◌==◌, if◌then◌else◌,
}
use service_call.Status.{nt_success}
use service_call.Parameter.{
  Arch, RoutineParameter, Captured, copied, refused, overrun, capture, equal_type,
}
use service_call.Server.Resources.{
  Event, acquire, release, parameter_list, service_record, client_process, server_port,
  message_copy, thread_handle,
}

-- The answers of the system in a turn: NtListenPort, CloseEvent at that time, OpenProcess (whether it
-- gives a handle), DataLength of the message, NtAcceptConnectPort with TRUE, NtCompleteConnectPort,
-- NtReplyWaitReceivePort and CreateThread; and the parameters that lie in the message buffer when the
-- client connects and when its request is received.
pub record Turn : Type 0 where
  pub listen_status : ℕ
  pub close_event : Bool
  pub open_process : Bool
  pub data_length : ℕ
  pub connected : RoutineParameter
  pub accept_status : ℕ
  pub complete_status : ℕ
  pub receive_status : ℕ
  pub received : RoutineParameter
  pub create_thread : Bool

-- How a turn ends: the loop is left, nothing was heard, the client is refused, its connection fails, or
-- CreateThread was called for a worker with the parameters that were captured, and whether it started.
pub data Outcome : Type 0 where
  stopped : Outcome
  unheard : Outcome
  rejected : Outcome
  failed : Outcome
  handed : Captured → Bool → Outcome

-- A turn's end, and what it acquired and released.
pub record Ended : Type 0 where
  pub outcome : Outcome
  pub events : List Event

-- What a capture leaves allocated.
abbrev pub capture_events : Captured → List Event
capture_events (copied bs) = acquire parameter_list ∷ []
capture_events refused = []
capture_events overrun = []

-- The handle of a process is closed if there is one.
abbrev pub close_process : Bool → List Event
close_process b = if b then release client_process ∷ [] else []

abbrev pub open_events : Bool → List Event
open_events b =
    if b then acquire service_record ∷ acquire client_process ∷ [] else acquire service_record ∷ []

-- NtAcceptConnectPort with FALSE and what follows it.
unfoldable pub reject : Turn → Ended
reject t = record {
  outcome = rejected;
  events =
      open_events t.open_process ++ close_process t.open_process ++ release service_record ∷ [];
}

-- From NtAcceptConnectPort with TRUE on; an accepted connection has a server port.
unfoldable pub accept : Arch → Turn → Ended
accept arch t =
    let opened = open_events t.open_process in
    let closed = release client_process ∷ release service_record ∷ [] in
    let c = capture arch t.received in
    if not (nt_success t.accept_status)
    then record { outcome = failed; events = opened ++ closed }
    else if not (nt_success t.complete_status) || not (nt_success t.receive_status)
    then record { outcome = failed; events = opened ++ acquire server_port ∷ closed }
    else record {
      outcome = handed c t.create_thread;
      events =
          opened
          ++ acquire server_port ∷ acquire message_copy ∷ capture_events c
          ++ (if t.create_thread then acquire thread_handle ∷ [] else []);
    }

-- The comparison's result decides; `none` is a read outside the buffers.
unfoldable pub decide : Arch → Turn → Option Bool → Option Ended
unfolding reject accept
decide arch t none = none
decide arch t (some false) = some (reject t)
decide arch t (some true) = some (accept arch t)

-- A turn of the loop.
unfoldable pub turn : Arch → (service : RoutineParameter) → Turn → Option Ended
unfolding decide
turn arch service t =
    if not (nt_success t.listen_status)
    then some (record { outcome = if t.close_event then stopped else unheard; events = [] })
    else if not t.open_process || t.data_length == 0
    then some (reject t)
    else decide arch t (equal_type service t.connected)

-- What the thread frees at its end: the service's parameters and its record; its message buffer, which
-- it made itself, is not in the log.
abbrev pub end_events : List Event
end_events = release parameter_list ∷ release service_record ∷ []

-- What a worker thread releases at its end, in WorkerThread.
abbrev pub worker_events : List Event
worker_events =
    release client_process
    ∷ release server_port
    ∷ release message_copy
    ∷ release service_record
    ∷ []

abbrev pub is_stopped : Outcome → Bool
is_stopped stopped = true
is_stopped _ = false

-- After a turn: the end, or the events of the rest of the loop.
unfoldable pub after : Option Ended → Option (List Event) → Option (List Event)
after none rest = none
after (some e) none = if is_stopped e.outcome then some (e.events ++ end_events) else none
after (some e) (some es) =
    if is_stopped e.outcome then some (e.events ++ end_events) else some (e.events ++ es)

-- WaitThread on the turns that the system makes; `none` if they give out before the loop is left, or
-- if a comparison reads outside the buffers.
unfoldable pub wait_thread : Arch → (service : RoutineParameter) → List Turn → Option (List Event)
unfolding after
wait_thread arch service [] = none
wait_thread arch service (t ∷ ts) =
    let rest = wait_thread arch service ts in after (turn arch service t) rest
