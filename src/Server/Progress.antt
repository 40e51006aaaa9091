-- ===== src/Server/Progress.antt =====
-- Runs from a state of a registered service's lifetime to its end.
use service_call.Base.{
  ℕ, zero, suc, ◌+◌, ◌<◌, ◌^◌, ◌≡◌, refl, sym, subst, ◌∙◌, inl, inr, Bool, true, false, not, ◌&&◌,
  ◌||◌, ◌==◌, ◌≢◌, none, List, [], ◌∷◌, some, arith, Bool-cases, Star, done, more,
}
use service_call.ClientIds.{Globals}
use service_call.Parameter.{Arch, IsWhole, RoutineParameter}
use service_call.Server.Resources.{Resource, Event, Leaves}
use service_call.Server.Register.{Answers, Request, Result, service, register_w}
use service_call.Server.Wait.{Turn, stopped, Ended, turn}
use service_call.Server.Lifetime.{
  Past, freed_record, stray_close, State, doomed, Step, leave_loop, end_worker, set_close_event,
  read_port, read_freed, close_port, close_stray, Reach, next,
}
use service_call.Server.Holdings.{service_holds, worker_none, left_over, outstanding}
use service_call.Server.Ledger.{lifetime-Leaves}

-- A turn in which NtListenPort fails and CloseEvent is set.
abbrev closing_turn : RoutineParameter → Turn
closing_turn p = record {
  listen_status = 0xc0000001;
  close_event = true;
  open_process = false;
  data_length = 0;
  connected = p;
  accept_status = 0;
  complete_status = 0;
  receive_status = 0;
  received = p;
  create_thread = false;
}

abbrev stop : Ended
stop = record { outcome = stopped; events = [] }

closing_turn-stops : (arch : Arch) (p : RoutineParameter) → turn arch p (closing_turn p) ≡ some stop
unfolding turn
closing_turn-stops arch p = refl

&&-not : (b : Bool) → (b && not b) ≡ false
&&-not true = refl
&&-not false = refl

-- Whether the port has to be closed at the end: a call has its handle, or one can be made.
abbrev pub is_closable : State → Bool
is_closable s = s.waiting || not (s.closing == 0)

module _ (arch : Arch) (p : RoutineParameter) where
  abbrev pub Run : State → State → Type 0
  Run = Star (Step arch p)

  Reach-Run :
      {events : List Event} {s u : State} → Reach arch p events s → Run s u → Reach arch p events u
  Reach-Run r done = r
  Reach-Run r (more st rest) = Reach-Run (next r st) rest

  -- WaitThread and all workers have ended, all calls of ScUnregisterServiceRoutine have returned, nothing has
  -- faulted, the port is closed if it had to be, and no turn left more behind than those of `past`.
  pub record Over (must_close : Bool) (past : List Past) (u : State) : Type 0 where
    pub unheard : u.waiting ≡ false
    pub idle : u.workers ≡ 0
    pub returned : u.unregistering ≡ 0
    pub closed : u.closing ≡ 0
    pub sound : u.fault ≡ none
    pub port : must_close ≡ true → u.port_open ≡ false
    pub left : (r : Resource) → left_over u.past r ≡ left_over past r

  abbrev CanEnd : (must_close : Bool) → List Past → State → Type 0
  CanEnd must_close past s = (u : State) × Run s u × Over must_close past u

  -- The workers end one by one.
  workers-CanEnd :
      (n : ℕ) (m : Bool) (s : State)
      → s.workers ≡ n
      → doomed s.past ≡ 0
      → s.fault ≡ none
      → s.waiting ≡ false
      → s.unregistering ≡ 0
      → s.closing ≡ 0
      → (m ≡ true → s.port_open ≡ false)
      → CanEnd m s.past s
  workers-CanEnd zero m s e d z w f c h = (
    s,
    done,
    record {
      unheard = w;
      idle = e;
      returned = f;
      closed = c;
      sound = z;
      port = h;
      left = λ r. refl;
    },
  )
  workers-CanEnd (suc n) m s e d z w f c h =
      let (u, run, over) = workers-CanEnd n m _ refl d z w f c h in
      (u, more (end_worker n z e (omega arith)) run, over)

  -- NtListenPort fails, unless WaitThread has ended.
  loop-CanEnd :
      (m : Bool) (s : State)
      → doomed s.past ≡ 0
      → s.fault ≡ none
      → (s.waiting ≡ true → s.close_event ≡ true)
      → s.unregistering ≡ 0
      → s.closing ≡ 0
      → (m ≡ true → s.port_open ≡ false)
      → CanEnd m s.past s
  loop-CanEnd m s d z set f c h = elim (Bool-cases s.waiting) [
    | inr w ↦ workers-CanEnd s.workers m s refl d z w f c h
    | inl w ↦
        let new : Past = record { heard = closing_turn p; outcome = stopped } in
        let few : doomed (new ∷ s.past) ≡ 0 = omega arith in
        let (u, run, over) = workers-CanEnd s.workers m _ refl few z refl f c h in
        (
          u,
          more (leave_loop (closing_turn p) stop z w (sym (set w)) (closing_turn-stops arch p) refl)
              run,
          record {
            unheard = over.unheard;
            idle = over.idle;
            returned = over.returned;
            closed = over.closed;
            sound = over.sound;
            port = over.port;
            left = λ r. over.left r ∙ omega arith;
          },
        )
  ]

  -- The calls that have read hPort close it: the first does if the port is open, the others fail.
  closes-CanEnd :
      (n : ℕ) (m : Bool) (s : State)
      → s.closing ≡ n
      → doomed s.past ≡ 0
      → s.fault ≡ none
      → (s.waiting ≡ true → s.close_event ≡ true)
      → s.unregistering ≡ 0
      → (m ≡ true → n ≡ 0 → s.port_open ≡ false)
      → CanEnd m s.past s
  closes-CanEnd zero m s e d z set f h = loop-CanEnd m s d z set f e (λ t. h t refl)
  closes-CanEnd (suc n) m s e d z set f h =
      let (u, run, over) = closes-CanEnd n m _ refl d z set f (λ t k. &&-not s.port_open) in
      (u, more (close_port n s.port_open z e (λ o. o)) run, over)

  -- The calls that have set CloseEvent read hPort, while WaitThread is in its loop.
  reads-CanEnd :
      (n : ℕ) (s : State)
      → s.unregistering ≡ n
      → doomed s.past ≡ 0
      → s.fault ≡ none
      → s.waiting ≡ true
      → s.close_event ≡ true
      → n + s.closing ≢ 0
      → CanEnd true s.past s
  reads-CanEnd zero s e d z w set h =
      closes-CanEnd s.closing true s refl d z (λ k. set) e (λ t k. absurd (h (omega arith)))
  reads-CanEnd (suc n) s e d z w set h =
      let (u, run, over) =
        reads-CanEnd n _ refl d z w set (λ (k : n + suc s.closing ≡ 0). omega arith) in
      (u, more (read_port n z e w) run, over)

  -- While WaitThread is in its loop a call of ScUnregisterServiceRoutine is made.
  sound-CanEnd :
      (s : State)
      → s.fault ≡ none
      → doomed s.past ≡ 0
      → (s.waiting ≡ false → s.unregistering ≡ 0)
      → CanEnd (is_closable s) s.past s
  sound-CanEnd s z d f = elim (Bool-cases s.waiting) [
    | inl w ↦
        let s' = record s { close_event = true; unregistering = suc s.unregistering } in
        let (u, run, over) =
          reads-CanEnd (suc s.unregistering) s' refl d z w refl
            (λ (k : suc s.unregistering + s.closing ≡ 0). omega arith) in
        let closable : is_closable s ≡ true = ground arith in
        subst (λ m. CanEnd m s.past s) (sym closable) (u, more (set_close_event z w) run, over)
    | inr w ↦
        let closable : is_closable s ≡ not (s.closing == 0) = ground arith in
        subst (λ m. CanEnd m s.past s) (sym closable)
          (closes-CanEnd s.closing (not (s.closing == 0)) s refl d z (λ k. absurd (cc)) (f w)
            (λ t k. absurd (ground arith)))
  ]

-- From every state of a service in which nothing has faulted and WaitThread is in its loop: a call of
-- ScUnregisterServiceRoutine that finds it there sets CloseEvent, WaitThread leaves its loop and frees the
-- record, and then the call reads hPort of the freed record; and of two such calls, both of
-- which read hPort, the second closes a handle that the first or an earlier one has closed.
pub unregister-races :
    (arch : Arch) (p : RoutineParameter) (s : State)
    → s.fault ≡ none
    → s.waiting ≡ true
    → ((u : State) × Run arch p s u
        × (u.fault ≡ some freed_record)
        × (u.unregistering ≡ suc s.unregistering))
      × ((u : State) × Run arch p s u × (u.fault ≡ some stray_close) × (u.waiting ≡ true))
unregister-races arch p s z w =
    let leave = leave_loop (closing_turn p) stop z w refl (closing_turn-stops arch p) refl in
    let stray = close_stray s.closing z refl (&&-not s.port_open) in
    (
      (
        _,
        more (set_close_event z w)
            (more leave (more (read_freed s.unregistering z refl refl) done)),
        refl,
        refl,
      ),
      (
        _,
        more (set_close_event z w) (
            more (set_close_event z w) (
              more (read_port (suc s.unregistering) z refl w) (
                more (read_port s.unregistering z refl w) (
                  more (close_port (suc s.closing) s.port_open z refl (λ o. o))
                    (more stray done))))),
        refl,
        w,
      ),
    )

outstanding-over :
    (s u : State) (r : Resource)
    → u.waiting ≡ false
    → u.workers ≡ 0
    → left_over u.past r ≡ left_over s.past r
    → outstanding u r ≡ service_holds false u.port_open r + left_over s.past r
outstanding-over s u r w n l = rw (w, n, l) (omega (arith, worker_none r))

-- Of a service that ScRegisterServiceRoutineW has stored, with as many blobs as declared, fewer than 2^28,
-- whatever WaitThread, its workers and calls of ScUnregisterServiceRoutine have done so far: if nothing has
-- faulted, no worker was started without parameters, and no call has set CloseEvent without reading hPort
-- before WaitThread ended, there are further steps, without a fault, after which WaitThread and all workers
-- have ended and all calls have returned. The port is closed then if WaitThread was in its loop or a call
-- had its handle. Of each resource as many are in use then as WaitThread's handle (never closed), the port
-- if it is open, and what the turns so far left over come to.
pub service-ends :
    (arch : Arch) (sys : Answers) (g : Globals) (q : Request) (res : Result) (s : State)
    → IsWhole q.parameters
    → q.parameters.parameter_count < 2 ^ 28
    → register_w arch sys g q ≡ some res
    → res.handle ≡ service
    → Reach arch q.parameters res.events s
    → s.fault ≡ none
    → doomed s.past ≡ 0
    → (s.waiting ≡ false → s.unregistering ≡ 0)
    → (u : State) × Run arch q.parameters s u
      × Over arch q.parameters (is_closable s) s.past u
      × ((r : Resource) → Leaves r (service_holds false u.port_open r + left_over s.past r) u.log)
service-ends arch sys g q res s w small e stored reach z d f =
    let (u, run, over) = sound-CanEnd arch q.parameters s z d f in
    let (holds, _, _, _, _) =
      lifetime-Leaves arch sys g q res u w small e stored (Reach-Run arch q.parameters reach run) in
    (
      u,
      run,
      over,
      λ r.
          subst (λ n. Leaves r n u.log)
            (outstanding-over s u r over.unheard over.idle (over.left r)) (holds r),
    )
