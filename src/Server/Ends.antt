-- ===== src/Server/Ends.antt =====
-- When WaitThread ends, and what it frees.
use service_call.Base.{
  ℕ, zero, suc, ◌≡◌, refl, ◌∙◌, inl, inr, Bool, true, false, not, ◌&&◌, ◌||◌, List, [], ◌∷◌, ◌++◌,
  arith, Option, none, some, if◌then◌else◌, ◌==◌, Bool-cases, length,
}
use service_call.Status.{nt_success}
use service_call.Parameter.{Arch, Blob, RoutineParameter, IsWhole, equal_type, equal_loop}
use service_call.Server.Resources.{Event, parameter_list, released, released-append}
use service_call.Server.Wait.{
  Turn, stopped, unheard, Ended, reject, accept, decide, turn, wait_thread, after, end_events,
  is_stopped,
}

-- Each client's parameters, as they lie in the buffer, have as many blobs as declared.
abbrev pub AllWhole : List Turn → Type 0
AllWhole [] = Unit
AllWhole (t ∷ ts) = IsWhole t.connected × AllWhole ts

-- NtListenPort fails after CloseEvent was set.
abbrev pub is_closing : Turn → Bool
is_closing t = not (nt_success t.listen_status) && t.close_event

abbrev pub has_closing : List Turn → Bool
has_closing [] = false
has_closing (t ∷ ts) = is_closing t || has_closing ts

equal_loop-defined :
    (n : ℕ) (xs ys : List Blob)
    → length xs ≡ n
    → length ys ≡ n
    → (b : Bool) × (equal_loop n xs ys ≡ some b)
unfolding equal_loop
equal_loop-defined zero xs ys e f = (true, refl)
equal_loop-defined (suc n) [] ys e f = absurd (omega arith)
equal_loop-defined (suc n) (x ∷ xs) [] e f = absurd (omega arith)
equal_loop-defined (suc n) (x ∷ xs) (y ∷ ys) e f =
    elim (Bool-cases (x.parameter_mask == y.parameter_mask)) [
      | inl t ↦ rw t (equal_loop-defined n xs ys (omega arith) (omega arith))
      | inr t ↦ rw t (false, refl)
    ]

equal_type-defined :
    (p q : RoutineParameter) → IsWhole p → IsWhole q → (b : Bool) × (equal_type p q ≡ some b)
unfolding equal_type
equal_type-defined p q v w = elim (Bool-cases (p.parameter_count == q.parameter_count)) [
  | inl t ↦ rw t (equal_loop-defined p.parameter_count p.parameters q.parameters v (ground arith))
  | inr t ↦ rw t (false, refl)
]

-- A turn ends; it leaves the loop exactly if it is closing; and it frees no parameters that the thread
-- was given.
IsTurn : Turn → Ended → Type 0
IsTurn t e = (is_stopped e.outcome ≡ is_closing t) × (released parameter_list e.events ≡ 0)

reject-IsTurn : (t : Turn) → nt_success t.listen_status ≡ true → IsTurn t (reject t)
unfolding IsTurn reject
reject-IsTurn t l = ground arith

accept-IsTurn :
    (arch : Arch) (t : Turn) → nt_success t.listen_status ≡ true → IsTurn t (accept arch t)
unfolding IsTurn accept
accept-IsTurn arch t l = ground arith

listen-IsTurn :
    (t : Turn)
    → nt_success t.listen_status ≡ false
    → IsTurn t (record { outcome = if t.close_event then stopped else unheard; events = [] })
unfolding IsTurn
listen-IsTurn t l = ground arith

turn-IsTurn :
    (arch : Arch) (service : RoutineParameter) (t : Turn)
    → IsWhole service
    → IsWhole t.connected
    → (e : Ended) × (turn arch service t ≡ some e) × IsTurn t e
unfolding turn decide
turn-IsTurn arch service t v w = elim (Bool-cases (nt_success t.listen_status)) [
  | inl l ↦ elim (Bool-cases (not t.open_process || t.data_length == 0)) [
    | inl d ↦ rw l (rw d (reject t, refl, reject-IsTurn t l))
    | inr d ↦
        let q = equal_type-defined service t.connected v w in
        elim (Bool-cases q.0) [
          | inl k ↦ (accept arch t, (ground (arith, q.1)), accept-IsTurn arch t l)
          | inr k ↦ (reject t, (ground (arith, q.1)), reject-IsTurn t l)
        ]
  ]
  | inr l ↦ rw l (
    record { outcome = if t.close_event then stopped else unheard; events = [] },
    refl,
    listen-IsTurn t l,
  )
]

after-stopped :
    (e : Ended) (rest : Option (List Event))
    → is_stopped e.outcome ≡ true
    → after (some e) rest ≡ some (e.events ++ end_events)
unfolding after
after-stopped e none k = ground arith
after-stopped e (some es) k = ground arith

after-more :
    (e : Ended) (es : List Event)
    → is_stopped e.outcome ≡ false
    → after (some e) (some es) ≡ some (e.events ++ es)
unfolding after
after-more e es k = ground arith

-- With as many blobs as declared in the service's parameters and in each client's, WaitThread comes to
-- an end once NtListenPort fails after CloseEvent was set, whatever its other turns are, and it has then
-- freed exactly one parameter list, the service's.
pub wait_thread-ends :
    (arch : Arch) (service : RoutineParameter) (ts : List Turn)
    → IsWhole service
    → AllWhole ts
    → has_closing ts ≡ true
    → (es : List Event) × (wait_thread arch service ts ≡ some es) × (released parameter_list es ≡ 1)
unfolding wait_thread IsTurn
wait_thread-ends arch service [] v w h = absurd (ground arith)
wait_thread-ends arch service (t ∷ ts) v w h =
    let now = turn-IsTurn arch service t v w.0 in
    let e = now.0 in
    elim (Bool-cases (is_closing t)) [
      | inl k ↦ (
        e.events ++ end_events,
        rw (now.1) (after-stopped e (wait_thread arch service ts) (now.2.0 ∙ k)),
        ground (arith, released-append parameter_list e.events end_events, now.2.1),
      )
      | inr k ↦
          let rest = wait_thread-ends arch service ts v w.1 (ground arith) in
          (
            e.events ++ rest.0,
            rw (now.1) (rw (rest.1) (after-more e rest.0 (now.2.0 ∙ k))),
            ground (arith, released-append parameter_list e.events rest.0, now.2.1, rest.2),
          )
    ]
