-- ===== src/Server/Lifetime.antt =====
-- A registered service from ScRegisterServiceRoutineW to its end, as interleavings of WaitThread, its
-- workers and any number of calls of ScUnregisterServiceRoutine. A step is a turn of WaitThread's loop, the end
-- of a worker, one of the three things that a call does (CloseEvent is set, hPort is read, the port is
-- closed), or a fault, with which the program stops. A worker that has parameters is taken to come to its end.
use service_call.Base.{
  ℕ, suc, ◌+◌, ◌≡◌, Bool, true, false, not, ◌&&◌, ◌≢◌, ◌≤◌, List, [], ◌∷◌, ◌++◌, Option, none, some,
  if◌then◌else◌,
}
use service_call.Parameter.{Arch, RoutineParameter, refused, overrun}
use service_call.Server.Resources.{Event, release, service_port}
use service_call.Server.Wait.{
  Turn, Outcome, handed, Ended, turn, is_stopped, end_events, worker_events,
}

-- A turn that has ended, with its outcome.
pub record Past : Type 0 where
  pub heard : Turn
  pub outcome : Outcome

-- Behaviour that the language leaves undefined or that depends on whose memory or handle it meets, and is not
-- followed further: a turn reads outside the message buffer; a worker reads the parameters that
-- a refused capture did not make; a call of ScUnregisterServiceRoutine reads hPort of the record that
-- WaitThread has freed since the call set CloseEvent; a call is begun with the handle of a freed record; or
-- a call closes a handle that was closed before, when it may be that of something else.
pub data Fault : Type 0 where
  read_outside : Fault
  null_parameters : Fault
  freed_record : Fault
  freed_handle : Fault
  stray_close : Fault

-- What was acquired and released since the registration, the turns so far, the workers that have not come
-- to their end, whether WaitThread is in its loop, whether CloseEvent is set, the calls of
-- ScUnregisterServiceRoutine that have set it and have not read hPort, those that have read hPort and have not
-- closed it, whether the port is open, and the fault with which the program stops.
pub record State : Type 0 where
  pub log : List Event
  pub past : List Past
  pub workers : ℕ
  pub waiting : Bool
  pub close_event : Bool
  pub unregistering : ℕ
  pub closing : ℕ
  pub port_open : Bool
  pub fault : Option Fault

-- Whether the turn's capture reads outside the message buffer.
abbrev pub is_overrun : Outcome → Bool
is_overrun (handed overrun b) = true
is_overrun _ = false

-- The workers that a turn starts.
abbrev pub started : Outcome → ℕ
started (handed c true) = 1
started _ = 0

-- The workers that a turn starts without parameters.
abbrev pub doomed_by : Outcome → ℕ
doomed_by (handed refused true) = 1
doomed_by _ = 0

-- The workers that were started without parameters; they have not ended.
abbrev pub doomed : List Past → ℕ
doomed [] = 0
doomed (p ∷ ps) = doomed_by p.outcome + doomed ps

-- NtClose of the port, when it goes well.
abbrev pub close_events : Bool → List Event
close_events fine = if fine then release service_port ∷ [] else []

-- A call of ScUnregisterServiceRoutine that is refused changes nothing and is no step. NtListenPort and
-- the other calls of a turn may answer anything at any time.
pub data Step (arch : Arch) (service : RoutineParameter) (s : State) : State → Type 0 where
  take_turn :
      (t : Turn) (e : Ended)
      → s.fault ≡ none
      → s.waiting ≡ true
      → t.close_event ≡ s.close_event
      → turn arch service t ≡ some e
      → is_stopped e.outcome ≡ false
      → is_overrun e.outcome ≡ false
      → Step arch service s (record s {
        log = s.log ++ e.events;
        past = record { heard = t; outcome = e.outcome } ∷ s.past;
        workers = started e.outcome + s.workers;
      })
  leave_loop :
      (t : Turn) (e : Ended)
      → s.fault ≡ none
      → s.waiting ≡ true
      → t.close_event ≡ s.close_event
      → turn arch service t ≡ some e
      → is_stopped e.outcome ≡ true
      → Step arch service s (record s {
        log = s.log ++ (e.events ++ end_events);
        past = record { heard = t; outcome = e.outcome } ∷ s.past;
        waiting = false;
      })
  compare_outside :
      (t : Turn)
      → s.fault ≡ none
      → s.waiting ≡ true
      → t.close_event ≡ s.close_event
      → turn arch service t ≡ none
      → Step arch service s (record s { fault = some read_outside })
  capture_outside :
      (t : Turn) (e : Ended)
      → s.fault ≡ none
      → s.waiting ≡ true
      → t.close_event ≡ s.close_event
      → turn arch service t ≡ some e
      → is_overrun e.outcome ≡ true
      → Step arch service s (record s { fault = some read_outside })
  end_worker :
      (n : ℕ)
      → s.fault ≡ none
      → s.workers ≡ suc n
      → doomed s.past ≤ n
      → Step arch service s (record s { log = s.log ++ worker_events; workers = n })
  run_doomed :
      s.fault ≡ none
      → doomed s.past ≢ 0
      → Step arch service s (record s { fault = some null_parameters })
  set_close_event :
      s.fault ≡ none
      → s.waiting ≡ true
      → Step arch service s (record s { close_event = true; unregistering = suc s.unregistering })
  begin_late :
      s.fault ≡ none
      → s.waiting ≡ false
      → Step arch service s (record s { fault = some freed_handle })
  read_port :
      (n : ℕ)
      → s.fault ≡ none
      → s.unregistering ≡ suc n
      → s.waiting ≡ true
      → Step arch service s (record s { unregistering = n; closing = suc s.closing })
  read_freed :
      (n : ℕ)
      → s.fault ≡ none
      → s.unregistering ≡ suc n
      → s.waiting ≡ false
      → Step arch service s (record s { fault = some freed_record })
  close_port :
      (n : ℕ) (fine : Bool)
      → s.fault ≡ none
      → s.closing ≡ suc n
      → (fine ≡ true → s.port_open ≡ true)
      → Step arch service s (record s {
        log = s.log ++ close_events fine;
        closing = n;
        port_open = s.port_open && not fine;
      })
  close_stray :
      (n : ℕ)
      → s.fault ≡ none
      → s.closing ≡ suc n
      → s.port_open ≡ false
      → Step arch service s (record s { fault = some stray_close })

-- After a registration that left `events`.
abbrev pub init : List Event → State
init events = record {
  log = events;
  past = [];
  workers = 0;
  waiting = true;
  close_event = false;
  unregistering = 0;
  closing = 0;
  port_open = true;
  fault = none;
}

pub data Reach (arch : Arch) (service : RoutineParameter) (events : List Event)
    : State → Type 0 where
  here : Reach arch service events (init events)
  next :
      {s u : State}
      → Reach arch service events s
      → Step arch service s u
      → Reach arch service events u
