-- ===== src/Server/LifetimeTests.antt =====
-- The service of server/main.cpp from its registration to its end, with one client.
use service_call.Base.{◌+◌, ◌≡◌, ◌≢◌, refl, true, false, [], none, ◌∷◌, ◌++◌, some, arith}
use service_call.Parameter.{
  x64, capture, capture_loop, buffer_size, is_refused, equal_type, equal_loop,
}
use service_call.Server.Resources.{
  Resource, acquire, release, name_string, parameter_list, service_record, service_port,
  thread_handle, Leaves,
}
use service_call.Server.Register.{Result, service, register_w, is_bad_access}
use service_call.Server.Wait.{Ended, turn, accept, decide, worker_events, end_events, stopped}
use service_call.Server.Lifetime.{
  null_parameters, freed_record, stray_close, State, doomed, init, take_turn, leave_loop,
  end_worker, set_close_event, read_port, close_port, Reach, here, next,
}
use service_call.Server.Holdings.{outstanding, service_holds, left_over}
use service_call.Server.Ledger.{lifetime-Leaves}
use service_call.Server.Progress.{Run, Over, is_closable, service-ends, unregister-races}
use service_call.Server.Tests.{registered, ready, answers, asked, heard, last}

abbrev stored : Result
stored = record {
  status = 0;
  handle = service;
  events =
      acquire name_string
      ∷ acquire parameter_list
      ∷ acquire service_port
      ∷ release name_string
      ∷ acquire service_record
      ∷ acquire thread_handle
      ∷ [];
}

stored_runs : register_w x64 (answers 0) ready asked ≡ some stored
unfolding register_w is_bad_access capture capture_loop buffer_size is_refused
stored_runs = refl

abbrev served : Ended
unfolding accept
served = accept x64 heard

served_runs : turn x64 registered heard ≡ some served
unfolding turn decide equal_type equal_loop
served_runs = refl

-- The client is heard, the service is unregistered, the loop is left, and the worker comes to its end.
abbrev ended : State
unfolding accept
ended = record {
  log =
      (((stored.events ++ served.events) ++ release service_port ∷ []) ++ end_events)
      ++ worker_events;
  past =
      record { heard = last; outcome = stopped }
      ∷ record { heard = heard; outcome = served.outcome }
      ∷ [];
  workers = 0;
  waiting = false;
  close_event = true;
  unregistering = 0;
  closing = 0;
  port_open = false;
  fault = none;
}

last_runs : turn x64 registered last ≡ some (record { outcome = stopped; events = [] })
unfolding turn
last_runs = refl

ended-Reach : Reach x64 registered stored.events ended
unfolding accept capture capture_loop is_refused buffer_size
ended-Reach =
    let one = next here (take_turn heard served refl refl refl served_runs refl refl) in
    let two = next one (set_close_event refl refl) in
    let three = next two (read_port 0 refl refl refl) in
    let four = next three (close_port 0 true refl refl (λ e. refl)) in
    let five =
      next four (
        leave_loop last (record { outcome = stopped; events = [] }) refl refl refl last_runs
          refl) in
    next five (end_worker 0 refl refl (omega arith))

lifetime-Leaves_example :
    ((r : Resource) → Leaves r (outstanding ended r) ended.log)
    × (ended.waiting ≡ false → ended.close_event ≡ true)
    × (ended.fault ≡ some freed_record → ended.waiting ≡ false)
    × (ended.fault ≡ some stray_close → ended.port_open ≡ false)
    × (ended.fault ≡ some null_parameters → doomed ended.past ≢ 0)
lifetime-Leaves_example =
    lifetime-Leaves x64 (answers 0) ready asked stored ended refl (omega arith) stored_runs refl
      ended-Reach

-- The client is heard, and its worker runs.
abbrev busy : State
unfolding accept
busy = record (init stored.events) {
  log = stored.events ++ served.events;
  past = record { heard = heard; outcome = served.outcome } ∷ [];
  workers = 1;
}

busy-Reach : Reach x64 registered stored.events busy
unfolding accept capture capture_loop is_refused buffer_size
busy-Reach = next here (take_turn heard served refl refl refl served_runs refl refl)

service-ends_example :
    (u : State) × Run x64 registered busy u
    × Over x64 registered (is_closable busy) busy.past u
    × ((r : Resource) → Leaves r (service_holds false u.port_open r + left_over busy.past r) u.log)
unfolding busy capture capture_loop is_refused buffer_size
service-ends_example =
    service-ends x64 (answers 0) ready asked stored busy refl (omega arith) stored_runs refl
      busy-Reach refl refl (λ e. refl)

-- The registered service, with its client's worker running.
unregister-races_example :
    ((u : State) × Run x64 registered busy u
      × (u.fault ≡ some freed_record)
      × (u.unregistering ≡ 1))
    × ((u : State) × Run x64 registered busy u × (u.fault ≡ some stray_close) × (u.waiting ≡ true))
unfolding busy
unregister-races_example = unregister-races x64 registered busy refl refl
