-- ===== src/Server/Rounds.antt =====
-- What the turns of WaitThread leave behind, what its workers get, and its end.
use service_call.Base.{
  ℕ, ◌<◌, ◌^◌, ◌≡◌, refl, subst, inl, inr, Bool, true, false, not, ◌||◌, List, [], ◌∷◌, ◌++◌, arith,
  Option, none, some, if◌then◌else◌, ◌==◌, Bool-cases,
}
use service_call.Status.{nt_success}
use service_call.Parameter.{
  Arch, Blob, RoutineParameter, IsWhole, Captured, copied, refused, overrun, capture, equal_type,
}
use service_call.Parameter.Equal.{equal_type-capture}
use service_call.Server.Resources.{
  Resource, Event, acquire, release, name_string, parameter_list, service_record, service_port,
  client_process, server_port, message_copy, thread_handle, Leaves,
}
use service_call.Server.Wait.{
  Turn, Outcome, stopped, unheard, failed, handed, Ended, capture_events, reject, accept, decide,
  turn, worker_events,
}

abbrev pub is_copied : Captured → Bool
is_copied (copied bs) = true
is_copied _ = false

abbrev pub to_count : Bool → ℕ
to_count b = if b then 1 else 0

-- What a turn leaves unreleased for good once its worker, if it started, has come to its end.
abbrev pub unreleased : Turn → Outcome → Resource → ℕ
unreleased t failed server_port = to_count (nt_success t.accept_status)
unreleased t (handed c b) parameter_list = to_count (is_copied c)
unreleased t (handed c b) thread_handle = to_count b
unreleased t (handed c b) service_record = to_count (not b)
unreleased t (handed c b) client_process = to_count (not b)
unreleased t (handed c b) server_port = to_count (not b)
unreleased t (handed c b) message_copy = to_count (not b)
unreleased t _ _ = 0

-- A turn's events, and those of the worker that it started.
abbrev pub with_worker : Outcome → List Event → List Event
with_worker (handed c true) es = es ++ worker_events
with_worker _ es = es

reject-Leaves : (t : Turn) (r : Resource) → Leaves r 0 (reject t).events
unfolding reject
reject-Leaves t r = ground arith

-- A worker's events are those that `with_worker` adds.
handed-Leaves :
    (t : Turn) (c : Captured) (b : Bool) (r : Resource)
    → Leaves r (unreleased t (handed c b) r) (
        with_worker (handed c b) (
          acquire service_record
          ∷ acquire client_process
          ∷ acquire server_port
          ∷ acquire message_copy
          ∷ (capture_events c ++ (if b then acquire thread_handle ∷ [] else []))))
handed-Leaves t (copied bs) true r = ground arith
handed-Leaves t (copied bs) false r = ground arith
handed-Leaves t refused true r = ground arith
handed-Leaves t refused false r = ground arith
handed-Leaves t overrun true r = ground arith
handed-Leaves t overrun false r = ground arith

failed-Leaves :
    (t : Turn) (r : Resource)
    → Leaves r (unreleased t failed r) (
        acquire service_record
        ∷ acquire client_process
        ∷ ((if nt_success t.accept_status then acquire server_port ∷ [] else [])
            ++ release client_process ∷ release service_record ∷ []))
failed-Leaves t name_string = ground arith
failed-Leaves t parameter_list = ground arith
failed-Leaves t service_record = ground arith
failed-Leaves t service_port = ground arith
failed-Leaves t client_process = ground arith
failed-Leaves t server_port = ground arith
failed-Leaves t message_copy = ground arith
failed-Leaves t thread_handle = ground arith

accept-Leaves :
    (arch : Arch) (t : Turn) (r : Resource)
    → t.open_process ≡ true
    → Leaves r
        (unreleased t (accept arch t).outcome r)
        (with_worker (accept arch t).outcome (accept arch t).events)
unfolding accept
accept-Leaves arch t r o = elim (Bool-cases (nt_success t.accept_status)) [
  | inl a ↦
      elim (Bool-cases (not (nt_success t.complete_status) || not (nt_success t.receive_status))) [
        | inl k ↦ let known = failed-Leaves t r in rw o (rw a (rw k (ground (arith, known))))
        | inr k ↦
            let known = handed-Leaves t (capture arch t.received) t.create_thread r in
            rw o (rw a (rw k known))
      ]
  | inr a ↦ let known = failed-Leaves t r in rw o (rw a (ground (arith, known)))
]

ended_injective : {a b : Ended} → some a ≡ some b → a ≡ b
ended_injective h = cc

decide-Leaves :
    (arch : Arch) (t : Turn) (c : Option Bool) (e : Ended) (r : Resource)
    → t.open_process ≡ true
    → decide arch t c ≡ some e
    → Leaves r (unreleased t e.outcome r) (with_worker e.outcome e.events)
unfolding decide reject
decide-Leaves arch t none e r o h = absurd (ground arith)
decide-Leaves arch t (some false) e r o h =
    subst (λ x. Leaves r (unreleased t x.outcome r) (with_worker x.outcome x.events))
      (ended_injective h) (reject-Leaves t r)
decide-Leaves arch t (some true) e r o h =
    subst (λ x. Leaves r (unreleased t x.outcome r) (with_worker x.outcome x.events))
      (ended_injective h) (accept-Leaves arch t r o)

listen-Leaves :
    (t : Turn) (e : Ended) (r : Resource)
    → some (record { outcome = if t.close_event then stopped else unheard; events = [] }) ≡ some e
    → Leaves r (unreleased t e.outcome r) (with_worker e.outcome e.events)
listen-Leaves t e r h = elim (Bool-cases t.close_event) [
  | inl c ↦
      subst (λ x. Leaves r (unreleased t x.outcome r) (with_worker x.outcome x.events))
        (ended_injective h) (rw c refl)
  | inr c ↦
      subst (λ x. Leaves r (unreleased t x.outcome r) (with_worker x.outcome x.events))
        (ended_injective h) (rw c refl)
]

-- A turn that ends leaves, once its worker has come to its end, exactly what `unreleased` says: a
-- refused client nothing; one whose connection fails after it was accepted the server's port; one that
-- was handed to a worker its captured parameters and the thread's handle, and when no worker could
-- start all that was opened for it.
pub turn-Leaves :
    (arch : Arch) (service : RoutineParameter) (t : Turn) (e : Ended) (r : Resource)
    → turn arch service t ≡ some e
    → Leaves r (unreleased t e.outcome r) (with_worker e.outcome e.events)
unfolding turn
turn-Leaves arch service t e r h = elim (Bool-cases (nt_success t.listen_status)) [
  | inl l ↦ elim (Bool-cases (not t.open_process || t.data_length == 0)) [
    | inl d ↦
        let k : reject t ≡ e = ground arith in
        subst (λ x. Leaves r (unreleased t x.outcome r) (with_worker x.outcome x.events)) k
          (reject-Leaves t r)
    | inr d ↦
        decide-Leaves arch t (equal_type service t.connected) e r (ground arith) (ground arith)
  ]
  | inr l ↦ listen-Leaves t e r (ground arith)
]

accept-handed :
    (arch : Arch) (t : Turn) (c : Captured) (b : Bool)
    → (accept arch t).outcome ≡ handed c b
    → c ≡ capture arch t.received
unfolding accept
accept-handed arch t c b o = ground arith

decide-handed :
    (arch : Arch) (t : Turn) (q : Option Bool) (e : Ended) (c : Captured) (b : Bool)
    → decide arch t q ≡ some e
    → e.outcome ≡ handed c b
    → (q ≡ some true) × (c ≡ capture arch t.received)
unfolding decide reject
decide-handed arch t none e c b h o = absurd (ground arith)
decide-handed arch t (some false) e c b h o = absurd (ground arith)
decide-handed arch t (some true) e c b h o = (refl, accept-handed arch t c b (cc))

pub turn-handed :
    (arch : Arch) (service : RoutineParameter) (t : Turn) (e : Ended) (c : Captured) (b : Bool)
    → turn arch service t ≡ some e
    → e.outcome ≡ handed c b
    → (equal_type service t.connected ≡ some true) × (c ≡ capture arch t.received)
unfolding turn reject
turn-handed arch service t e c b h o = elim (Bool-cases (nt_success t.listen_status)) [
  | inl l ↦ elim (Bool-cases (not t.open_process || t.data_length == 0)) [
    | inl d ↦ absurd (ground arith)
    | inr d ↦ decide-handed arch t (equal_type service t.connected) e c b (ground arith) o
  ]
  | inr l ↦ absurd (ground arith)
]

-- The parameters with which a worker starts are the capture of what lies in the message buffer after the
-- request was received. If that is still what the client sent when it connected, they are a copy of
-- it: with a service's parameters that were captured, and as many blobs as declared, fewer than 2^28.
pub turn-copied :
    (arch : Arch) (service : RoutineParameter) (t : Turn) (e : Ended) (bs : List Blob)
    (c : Captured) (b : Bool)
    → IsWhole service
    → IsWhole t.connected
    → t.connected.parameter_count < 2 ^ 28
    → capture arch service ≡ copied bs
    → t.received ≡ t.connected
    → turn arch service t ≡ some e
    → e.outcome ≡ handed c b
    → c ≡ copied t.connected.parameters
turn-copied arch service t e bs c b v w small cs same h o =
    let found = turn-handed arch service t e c b h o in
    let kept = equal_type-capture arch service t.connected bs v w small cs found.0 in
    rw (found.1) (rw same kept)
