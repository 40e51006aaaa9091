-- ===== src/Reply/Call.antt =====
-- A call from end to end: ScServiceCallW in the client, a turn of WaitThread, WorkerThread on what the turn
-- handed on, and the reply.
use service_call.Base.{
  ℕ, zero, suc, ◌<◌, ◌^◌, ◌≡◌, ◌≢◌, refl, ap, ◌∙◌, sym, subst, ◌⊎◌, inl, inr, Bool, true, false,
  List, [], ◌∷◌, some, length, arith,
}
use service_call.Status.{status_success, nt_success}
use service_call.Parameter.{
  Arch, x86, x64, Blob, RoutineParameter, IsWhole, Captured, copied, capture, buffer_size,
}
use service_call.Parameter.Capture.{all_accepted, capture-all_accepted}
use service_call.Parameter.Equal.{equal_type-capture}
use service_call.Memory.{IsMemory, Machine, System, PlacesFresh, ok}
use service_call.Memory.Ensures
use service_call.Memory.Ensures.{Ensures}
use service_call.Mapping.Copy.{IsSized}
use service_call.Mapping.Map.{IsBenign}
use service_call.Mapping.Sync.{AllApart}
use service_call.Worker.Defs.{Routine, truncate_loop, truncate_parameters, work}
use service_call.Worker.Serve.{IsTidy, Call, serve-Call}
use service_call.Server.Wait.{Turn, Ended, handed, turn}
use service_call.Server.Rounds.{turn-copied, turn-handed}
use service_call.Client.Defs.{Answers, Request, Result, lpc_message_length, service_call_w}
use service_call.Client.Status.{
  is_readable, none_missing, service_call_w-IsClean, service_call_w-success,
}
use service_call.Reply.{Message, Delivers, load_dword, finish_message}
use service_call.Reply.Status.{finish_message-stored}

length-truncate_loop : (n : ℕ) (bs : List Blob) → length bs ≡ n → length (truncate_loop n bs) ≡ n
unfolding truncate_loop
length-truncate_loop zero bs e = e
length-truncate_loop (suc n) [] e = e
length-truncate_loop (suc n) (b ∷ bs) e = ap suc (length-truncate_loop n bs (omega arith))

truncate_parameters-IsWhole :
    (arch : Arch) (p : RoutineParameter)
    → IsWhole p
    → IsWhole (truncate_parameters arch p)
      × ((truncate_parameters arch p).parameter_count ≡ p.parameter_count)
unfolding truncate_parameters
truncate_parameters-IsWhole x86 p w = (length-truncate_loop p.parameter_count p.parameters w, refl)
truncate_parameters-IsWhole x64 p w = (w, refl)

captured-accepted :
    (arch : Arch) (p : RoutineParameter) (bs : List Blob)
    → IsWhole p
    → p.parameter_count < 2 ^ 28
    → capture arch p ≡ copied bs
    → all_accepted p.parameters ≡ true
captured-accepted arch p bs w small e = let c = capture-all_accepted arch p w small in ground arith

-- The answers of a system that delivers the worker's reply.
abbrev pub replying : Answers → (Message → Message) → (status : ℕ) → Message → Answers
replying answers deliver status message =
    let header = lpc_message_length answers.architecture in
    record answers { reply_at = λ o. load_dword o (deliver (finish_message header status message)) }

module _ {C : Type 0} (sys : System C) (fresh : PlacesFresh sys) (benign : IsBenign sys)
    (laws : IsMemory sys) (process : ℕ) (routine : Routine C) (tidy : IsTidy routine)
    (small_results : (args : List ℕ) (m : Machine C) (r : ℕ) (m' : Machine C)
      → routine args m ≡ ok r m'
      → r < 2 ^ 32) where
  pub Call-small :
      (arch : Arch) (p : RoutineParameter) (m : Machine C) (status : ℕ) (m' : Machine C)
      → Call sys process arch routine p m status m'
      → status < 2 ^ 32
  Call-small arch p m status m' (_, c) = elim c [
    | inl (e, _) ↦ omega arith
    | inr s ↦ elim s.answered [
      | inl (e, _) ↦ omega (arith, small_results _ _ _ _ s.called)
      | inr e ↦ omega arith
    ]
  ]

  -- The worker returns, if there is memory for the mapped list.
  pub work-Call :
      (arch : Arch) (p : RoutineParameter) (m : Machine C)
      → let q = truncate_parameters arch p in
        IsWhole p
        → p.parameter_count < 2 ^ 28
        → IsSized q.parameters
        → AllApart q.parameters
        → sys.place m.heap (buffer_size arch p.parameter_count) ≢ 0
        → Ensures (Call sys process arch routine q m) (work sys arch process routine p m)
  unfolding work
  work-Call arch p m w small sized apart room =
      let (whole, same) = truncate_parameters-IsWhole arch p w in
      elim (serve-Call sys process fresh benign laws arch routine tidy (truncate_parameters arch p)
        m whole (omega arith) sized apart) [
          | inl (none_left, _) ↦
              absurd (room (ap (λ n. sys.place m.heap (buffer_size arch n)) (sym same) ∙ none_left))
          | inr c ↦ c
        ]

  -- Of a service whose parameters were captured, a client's request with as many blobs as declared, fewer than
  -- 2^28, and no null pointer that may not be null, which still is in WaitThread's buffer when the turn
  -- hands it on: if the pointers that the mapping copies are sized and do not overlap and there is memory
  -- for the mapped list, then the worker starts with a copy of the client's parameters, WorkerThread
  -- comes to a status as `Call` says (the routine ran once on copies of the client's buffers, or did not),
  -- and the client's call, connected and answered with the worker's reply, on a system whose
  -- architecture is known and that is written a status to, succeeds and stores exactly this status.
  pub service_call_w-Call :
      (arch : Arch) (service : RoutineParameter) (bs : List Blob) (t : Turn) (e : Ended)
      (c : Captured) (b : Bool) (answers : Answers) (message_length : ℕ) (r : Request)
      (client_arch : Arch) (a : ℕ) (deliver : Message → Message) (message : Message) (m : Machine C)
      → let q = truncate_parameters arch r.parameters in
        IsWhole service
        → IsWhole r.parameters
        → r.parameters.parameter_count < 2 ^ 28
        → capture arch service ≡ copied bs
        → t.connected ≡ r.parameters
        → t.received ≡ t.connected
        → turn arch service t ≡ some e
        → e.outcome ≡ handed c b
        → IsSized q.parameters
        → AllApart q.parameters
        → sys.place m.heap (buffer_size arch r.parameters.parameter_count) ≢ 0
        → (answers.architecture ≡ 0) ⊎ (answers.architecture ≡ 9)
        → (message_length ≡ 0) ⊎ (message_length ≡ lpc_message_length answers.architecture)
        → Delivers (lpc_message_length answers.architecture) deliver
        → is_readable answers message_length r ≡ true
        → none_missing r.parameters.parameters ≡ true
        → answers.connect_status ≡ status_success
        → nt_success answers.request_status ≡ true
        → r.service_status ≡ some a
        → answers.is_bad_write a 4 ≡ false
        → (c ≡ copied r.parameters.parameters)
          × ((status : ℕ) × (m' : Machine C) × (work sys arch process routine r.parameters m
                ≡ ok status m')
              × Call sys process arch routine q m status m'
              × ((res : Result) × (service_call_w
                      (replying answers deliver status message)
                      message_length
                      r
                      client_arch
                    ≡ some res)
                  × (res.status ≡ status_success)
                  × (res.stored ≡ some status)))
  service_call_w-Call arch service bs t e c b answers message_length r client_arch a deliver message
        m sv w small cs same kept h o sized apart room native known d readable there connected
        answered p good =
      let found = turn-handed arch service t e c b h o in
      let whole : IsWhole t.connected = rw same w in
      let few : t.connected.parameter_count < 2 ^ 28 = rw same small in
      let taken = equal_type-capture arch service t.connected bs sv whole few cs found.0 in
      let handed_on = turn-copied arch service t e bs c b sv whole few cs kept h o in
      let (status, m', worked, called) =
        Ensures.invert (work-Call arch r.parameters m w small sized apart room) in
      let sys' = replying answers deliver status message in
      let (res, runs, _, _) = service_call_w-IsClean sys' message_length r client_arch w small in
      let accepted : all_accepted r.parameters.parameters ≡ true =
        captured-accepted arch r.parameters t.connected.parameters w small
          (subst (λ x. capture arch x ≡ copied t.connected.parameters) same taken) in
      let success : res.status ≡ status_success =
        (service_call_w-success sys' message_length r client_arch res w small runs).1
          (readable, there, accepted, connected, answered) in
      (
        handed_on ∙ ap (λ x. copied x.parameters) same,
        (
          status,
          m',
          worked,
          called,
          (
            res,
            runs,
            success,
            finish_message-stored sys' message_length r client_arch res a status deliver message w
                small runs success p good known native d (λ o'. refl)
                (Call-small arch _ m status m' called),
          ),
        ),
      )
