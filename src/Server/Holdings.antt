-- ===== src/Server/Holdings.antt =====
-- What a service, its workers and its past turns hold, and how the events of a step change it.
use service_call.Base.{
  ℕ, suc, ◌+◌, ◌≡◌, refl, inl, inr, Bool, Bool-cases, ◌||◌, ◌==◌, Option, none, true, false, not,
  ◌&&◌, List, [], ◌∷◌, some, arith,
}
use service_call.Status.{nt_success}
use service_call.Parameter.{Arch, RoutineParameter, equal_type}
use service_call.Server.Resources.{
  Resource, Event, parameter_list, service_record, service_port, client_process, server_port,
  message_copy, thread_handle, Leaves, acquired, released, acquired-append, released-append,
}
use service_call.Server.Wait.{
  Turn, Outcome, stopped, unheard, rejected, failed, handed, Ended, reject, accept, decide, turn,
  worker_events, end_events, is_stopped,
}
use service_call.Server.Rounds.{unreleased, with_worker, to_count, turn-Leaves}
use service_call.Server.Lifetime.{Past, State, started, close_events}

-- What the service itself holds: its parameters and its record while WaitThread is in its loop, its port
-- while it is open, and the handle of WaitThread, which nobody closes.
abbrev pub service_holds : (waiting port_open : Bool) → Resource → ℕ
service_holds waiting port_open parameter_list = to_count waiting
service_holds waiting port_open service_record = to_count waiting
service_holds waiting port_open service_port = to_count port_open
service_holds waiting port_open thread_handle = 1
service_holds waiting port_open _ = 0

-- What `n` workers hold.
abbrev pub worker_holds : ℕ → Resource → ℕ
worker_holds n client_process = n
worker_holds n server_port = n
worker_holds n message_copy = n
worker_holds n service_record = n
worker_holds n _ = 0

-- What the turns leave for good.
abbrev pub left_over : List Past → Resource → ℕ
left_over [] r = 0
left_over (p ∷ ps) r = unreleased p.heard p.outcome r + left_over ps r

abbrev pub outstanding : State → Resource → ℕ
outstanding s r =
    service_holds s.waiting s.port_open r + (worker_holds s.workers r + left_over s.past r)

-- A worker's end releases what one worker holds.
pub worker_events-released : (r : Resource) → released r worker_events ≡ worker_holds 1 r
worker_events-released r = ground arith

pub worker_events-acquired : (r : Resource) → acquired r worker_events ≡ 0
worker_events-acquired r = ground arith

pub worker_none : (r : Resource) → worker_holds 0 r ≡ 0
worker_none r = ground arith

pub worker_more :
    (n m : ℕ) (r : Resource) → worker_holds (n + m) r ≡ worker_holds n r + worker_holds m r
worker_more n m r = ground arith

pub worker_suc :
    (n : ℕ) (r : Resource) → worker_holds (suc n) r ≡ worker_holds 1 r + worker_holds n r
worker_suc n r = ground arith

with_worker-started :
    (o : Outcome) (es : List Event) (r : Resource) (n : ℕ)
    → Leaves r n (with_worker o es)
    → acquired r es ≡ released r es + (worker_holds (started o) r + n)
with_worker-started stopped es r n h = ground (arith, worker_none r)
with_worker-started unheard es r n h = ground (arith, worker_none r)
with_worker-started rejected es r n h = ground (arith, worker_none r)
with_worker-started failed es r n h = ground (arith, worker_none r)
with_worker-started (handed c false) es r n h = ground (arith, worker_none r)
with_worker-started (handed c true) es r n h = ground (
  arith,
  acquired-append r es worker_events,
  released-append r es worker_events,
  worker_events-acquired r,
  worker_events-released r,
)

pub turn-ledger :
    (arch : Arch) (p : RoutineParameter) (t : Turn) (e : Ended) (r : Resource)
    → turn arch p t ≡ some e
    → acquired r e.events
      ≡ released r e.events + (worker_holds (started e.outcome) r + unreleased t e.outcome r)
turn-ledger arch p t e r h =
    with_worker-started e.outcome e.events r (unreleased t e.outcome r) (turn-Leaves arch p t e r h)

pub stopped-started : (o : Outcome) → is_stopped o ≡ true → started o ≡ 0
stopped-started stopped h = refl
stopped-started unheard h = refl
stopped-started rejected h = refl
stopped-started failed h = refl
stopped-started (handed c b) h = cc

-- The end of WaitThread releases what the service holds for it.
pub end_events-released :
    (b : Bool) (r : Resource)
    → service_holds true b r ≡ released r end_events + service_holds false b r
end_events-released b r = ground arith

pub end_events-acquired : (r : Resource) → acquired r end_events ≡ 0
end_events-acquired r = ground arith

pub close_events-released :
    (w before fine : Bool) (r : Resource)
    → (fine ≡ true → before ≡ true)
    → acquired r (close_events fine) + service_holds w before r
      ≡ released r (close_events fine) + service_holds w (before && not fine) r
close_events-released w true true r h = ground arith
close_events-released w true false r h = ground arith
close_events-released w false true r h = absurd (let e = h refl in cc)
close_events-released w false false r h = ground arith

decide-goes_on :
    (arch : Arch) (t : Turn) (q : Option Bool) (e : Ended)
    → decide arch t q ≡ some e
    → is_stopped e.outcome ≡ false
unfolding decide reject accept
decide-goes_on arch t none e h = cc
decide-goes_on arch t (some false) e h = ground arith
decide-goes_on arch t (some true) e h = ground arith

-- A turn that leaves the loop found CloseEvent set.
pub turn-stopped :
    (arch : Arch) (p : RoutineParameter) (t : Turn) (e : Ended)
    → turn arch p t ≡ some e
    → is_stopped e.outcome ≡ true
    → t.close_event ≡ true
unfolding turn reject
turn-stopped arch p t e h k = elim (Bool-cases (nt_success t.listen_status)) [
  | inl l ↦ elim (Bool-cases (not t.open_process || t.data_length == 0)) [
    | inl d ↦ absurd (ground arith)
    | inr d ↦
        let on = decide-goes_on arch t (equal_type p t.connected) e (ground arith) in
        absurd (ground arith)
  ]
  | inr l ↦ ground arith
]
