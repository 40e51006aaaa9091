-- ===== src/Server/Ledger.antt =====
-- What is in use at each moment of a service's lifetime.
use service_call.Base.{
  ℕ, ◌+◌, ◌<◌, ◌^◌, ◌≡◌, refl, ap, subst, sym, ◌∙◌, true, false, List, ◌++◌, some, ◌≢◌, arith,
  if◌then◌else◌,
}
use service_call.ClientIds.{Globals}
use service_call.Parameter.{Arch, IsWhole, RoutineParameter}
use service_call.Server.Resources.{
  Resource, Event, Leaves, acquired, released, acquired-append, released-append,
}
use service_call.Server.Register.{Answers, Request, Result, service, register_w}
use service_call.Server.Registered.{IsBalanced, is_kept, register_w-IsBalanced}
use service_call.Server.Wait.{worker_events, end_events}
use service_call.Server.Lifetime.{
  null_parameters, freed_record, stray_close, State, started, doomed, close_events, Step, take_turn,
  leave_loop, compare_outside, capture_outside, end_worker, run_doomed, set_close_event, begin_late,
  read_port, read_freed, close_port, close_stray, init, Reach, here, next,
}
use service_call.Server.Holdings.{
  service_holds, worker_holds, outstanding, turn-ledger, stopped-started, end_events-released,
  end_events-acquired, close_events-released, turn-stopped, worker_none, worker_more, worker_suc,
  worker_events-released, worker_events-acquired,
}

init_outstanding :
    (r : Resource)
    → service_holds true true r + (worker_holds 0 r + 0) ≡ (if is_kept r then 1 else 0)
init_outstanding r = ground arith

record Inv (s : State) : Type 0 where
  balanced : (r : Resource) → Leaves r (outstanding s r) s.log
  early : s.waiting ≡ false → s.close_event ≡ true
  freed : s.fault ≡ some freed_record → s.waiting ≡ false
  stray : s.fault ≡ some stray_close → s.port_open ≡ false
  handed_null : s.fault ≡ some null_parameters → doomed s.past ≢ 0

Leaves-append :
    (r : Resource) (n k : ℕ) (xs ys : List Event)
    → Leaves r n xs
    → acquired r ys + n ≡ released r ys + k
    → Leaves r k (xs ++ ys)
Leaves-append r n k xs ys h e = omega (arith, acquired-append r xs ys, released-append r xs ys)

module _ {arch : Arch} {p : RoutineParameter} where
  Step-Inv : {s u : State} → Step arch p s u → Inv s → Inv u
  Step-Inv {s} (take_turn t e z w c h k o) v = record {
    balanced = λ r.
        Leaves-append r (outstanding s r) _ s.log e.events (v.balanced r)
          (omega (arith, turn-ledger arch p t e r h, worker_more (started e.outcome) s.workers r));
    early = v.early;
    freed = λ f. absurd (cc);
    stray = λ f. absurd (cc);
    handed_null = λ f. absurd (cc);
  }
  Step-Inv {s} (leave_loop t e z w c h k) v = record {
    balanced = λ r.
        Leaves-append r (outstanding s r) _ s.log (e.events ++ end_events) (v.balanced r) (
          rw (w, acquired-append r e.events end_events, released-append r e.events end_events)
            (omega (
              arith,
              turn-ledger arch p t e r h,
              stopped-started e.outcome k,
              end_events-released s.port_open r,
              end_events-acquired r,
              ap (λ n. worker_holds n r) (stopped-started e.outcome k),
              worker_none r,
            )));
    early = λ f. sym c ∙ turn-stopped arch p t e h k;
    freed = λ f. absurd (cc);
    stray = λ f. absurd (cc);
    handed_null = λ f. absurd (cc);
  }
  Step-Inv {s} (end_worker n z e d) v = record {
    balanced = λ r.
        Leaves-append r (outstanding s r) _ s.log worker_events (v.balanced r) (
          rw e (omega (arith, worker_events-acquired r, worker_events-released r, worker_suc n r)));
    early = v.early;
    freed = λ f. absurd (cc);
    stray = λ f. absurd (cc);
    handed_null = λ f. absurd (cc);
  }
  Step-Inv {s} (set_close_event z w) v = record {
    balanced = v.balanced;
    early = λ f. refl;
    freed = λ f. absurd (cc);
    stray = λ f. absurd (cc);
    handed_null = λ f. absurd (cc);
  }
  Step-Inv {s} (read_port n z e w) v = record {
    balanced = v.balanced;
    early = v.early;
    freed = λ f. absurd (cc);
    stray = λ f. absurd (cc);
    handed_null = λ f. absurd (cc);
  }
  Step-Inv {s} (close_port n fine z c o) v = record {
    balanced = λ r.
        Leaves-append r (outstanding s r) _ s.log (close_events fine) (v.balanced r)
          (omega (arith, close_events-released s.waiting s.port_open fine r o));
    early = v.early;
    freed = λ f. absurd (cc);
    stray = λ f. absurd (cc);
    handed_null = λ f. absurd (cc);
  }
  Step-Inv {s} (compare_outside t z w c h) v = record {
    balanced = v.balanced;
    early = v.early;
    freed = λ f. absurd (cc);
    stray = λ f. absurd (cc);
    handed_null = λ f. absurd (cc);
  }
  Step-Inv {s} (capture_outside t e z w c h o) v = record {
    balanced = v.balanced;
    early = v.early;
    freed = λ f. absurd (cc);
    stray = λ f. absurd (cc);
    handed_null = λ f. absurd (cc);
  }
  Step-Inv {s} (run_doomed z d) v = record {
    balanced = v.balanced;
    early = v.early;
    freed = λ f. absurd (cc);
    stray = λ f. absurd (cc);
    handed_null = λ f. d;
  }
  Step-Inv {s} (begin_late z w) v = record {
    balanced = v.balanced;
    early = v.early;
    freed = λ f. absurd (cc);
    stray = λ f. absurd (cc);
    handed_null = λ f. absurd (cc);
  }
  Step-Inv {s} (read_freed n z e w) v = record {
    balanced = v.balanced;
    early = v.early;
    freed = λ f. w;
    stray = λ f. absurd (cc);
    handed_null = λ f. absurd (cc);
  }
  Step-Inv {s} (close_stray n z c o) v = record {
    balanced = v.balanced;
    early = v.early;
    freed = λ f. absurd (cc);
    stray = λ f. o;
    handed_null = λ f. absurd (cc);
  }

  Reach-Inv : {events : List Event} {s : State} → Inv (init events) → Reach arch p events s → Inv s
  Reach-Inv i here = i
  Reach-Inv i (next r st) = Step-Inv st (Reach-Inv i r)

init-Inv :
    (events : List Event)
    → ((r : Resource) → Leaves r (if is_kept r then 1 else 0) events)
    → Inv (init events)
init-Inv events kept = record {
  balanced = λ r. omega (arith, kept r, init_outstanding r);
  early = λ f. absurd (cc);
  freed = λ f. absurd (cc);
  stray = λ f. absurd (cc);
  handed_null = λ f. absurd (cc);
}

-- Of a service that ScRegisterServiceRoutineW has stored, with as many blobs as declared, fewer than 2^28, in
-- every interleaving of WaitThread's turns, the ends of its workers and any calls of
-- ScUnregisterServiceRoutine, up to a fault: of each resource as many were acquired as were released and are
-- outstanding, that is, held by the service (its parameters and record until WaitThread ends, its port
-- until it is closed, WaitThread's handle for good) or by a worker, or left over by a turn. WaitThread ends
-- only after CloseEvent was set. A call reads a freed record only after WaitThread has ended, closes a
-- handle that may be something else's only after the port was closed, and a worker reads null
-- parameters only if a turn started one without parameters.
pub lifetime-Leaves :
    (arch : Arch) (sys : Answers) (g : Globals) (q : Request) (res : Result) (s : State)
    → IsWhole q.parameters
    → q.parameters.parameter_count < 2 ^ 28
    → register_w arch sys g q ≡ some res
    → res.handle ≡ service
    → Reach arch q.parameters res.events s
    → ((r : Resource) → Leaves r (outstanding s r) s.log)
      × (s.waiting ≡ false → s.close_event ≡ true)
      × (s.fault ≡ some freed_record → s.waiting ≡ false)
      × (s.fault ≡ some stray_close → s.port_open ≡ false)
      × (s.fault ≡ some null_parameters → doomed s.past ≢ 0)
lifetime-Leaves arch sys g q res s w small e stored reach =
    let (found, e', balanced) = register_w-IsBalanced arch sys g q w small in
    let same : found ≡ res = cc in
    let kept = (subst IsBalanced same balanced).kept stored in
    let v = Reach-Inv (init-Inv res.events kept) reach in
    (v.balanced, v.early, v.freed, v.stray, v.handed_null)
