-- ===== src/Server/Registered.antt =====
-- What a registration leaves behind, and what it returns.
use service_call.Base.{
  List, ℕ, ◌<◌, ◌^◌, ◌≡◌, refl, ◌≢◌, ◌↔◌, inl, inr, Bool, true, false, not, ◌&&◌, ◌||◌, [], ◌∷◌,
  arith, some, if◌then◌else◌, Bool-cases,
}
use service_call.Status.{status_success, nt_success}
use service_call.Parameter.{Arch, Blob, RoutineParameter, IsWhole, copied, refused}
use service_call.Parameter.Capture.{all_accepted, capture-all_accepted}
use service_call.ClientIds.{Globals, is_null}
use service_call.Server.Resources.{
  Resource, acquire, release, name_string, parameter_list, service_record, service_port,
  thread_handle, Leaves,
}
use service_call.Server.Register.{
  Answers, Request, Result, service, initialize_service, register_w, start_thread, create_service,
  is_bad_access,
}

-- What a service keeps until its end.
abbrev pub is_kept : Resource → Bool
is_kept parameter_list = true
is_kept service_record = true
is_kept service_port = true
is_kept thread_handle = true
is_kept _ = false

-- A registration succeeds exactly if it stores a service; then one parameter list, one record, one
-- port and the thread's handle are left, and nothing else; one that fails leaves nothing.
pub record IsBalanced (res : Result) : Type 0 where
  pub stored : (res.status ≡ status_success) ↔ (res.handle ≡ service)
  pub kept :
      res.handle ≡ service → (r : Resource) → Leaves r (if is_kept r then 1 else 0) res.events
  pub clean : res.handle ≢ service → (r : Resource) → Leaves r 0 res.events

start_thread-IsBalanced :
    (sys : Answers)
    → IsBalanced (
        start_thread sys (
          acquire name_string
          ∷ acquire parameter_list
          ∷ acquire service_port
          ∷ release name_string
          ∷ []))
unfolding start_thread
start_thread-IsBalanced sys = elim (Bool-cases sys.create_thread) [
  | inl t ↦ rw t (record {
    stored = (λ e. refl, λ e. refl);
    kept = λ h r. ground arith;
    clean = λ h. absurd (h refl);
  })
  | inr f ↦ rw f (record {
    stored = (λ e. absurd (omega arith), λ e. cc);
    kept = λ h. cc;
    clean = λ h r. ground arith;
  })
]

-- A result with no service and nothing left.
failed-IsBalanced :
    (res : Result)
    → res.handle ≢ service
    → res.status ≢ status_success
    → ((r : Resource) → Leaves r 0 res.events)
    → IsBalanced res
failed-IsBalanced res h s clean = record {
  stored = (λ e. absurd (s e), λ e. absurd (h e));
  kept = λ e. absurd (h e);
  clean = λ _. clean;
}

create_service-IsBalanced :
    (sys : Answers) (b : Bool) (p : RoutineParameter)
    → (res : Result) × (create_service sys (if b then copied p.parameters else refused) ≡ some res)
      × IsBalanced res
unfolding create_service
create_service-IsBalanced sys false p =
    (_, refl, failed-IsBalanced _ (λ e. cc) (λ e. omega arith) (λ r. ground arith))
create_service-IsBalanced sys true p = elim (Bool-cases (nt_success sys.create_port_status)) [
  | inl t ↦ rw t (_, refl, start_thread-IsBalanced sys)
  | inr f ↦ rw f (_, refl, failed-IsBalanced _ (λ e. cc) (λ e. omega arith) (λ r. ground arith))
]

create_service-misreported :
    (sys : Answers) (bs : List Blob)
    → (res : Result) × (create_service sys (if all_accepted bs then copied bs else refused)
        ≡ some res)
      × (((nt_success res.status ≡ true) × (res.handle ≢ service))
          ↔ ((all_accepted bs && not (nt_success sys.create_port_status)) ≡ true))
unfolding create_service start_thread
create_service-misreported sys bs = elim (Bool-cases (all_accepted bs)) [
  | inr f ↦ rw f (_, refl, (λ m. absurd (ground arith), λ h. absurd (ground arith)))
  | inl t ↦ elim (Bool-cases (nt_success sys.create_port_status)) [
    | inr f ↦ rw (t, f) (_, refl, (λ m. refl, λ h. (refl, λ e. cc)))
    | inl g ↦ elim (Bool-cases sys.create_thread) [
      | inl h ↦ rw (t, g, h) (_, refl, (λ m. absurd (m.1 refl), λ k. cc))
      | inr h ↦ rw (t, g, h) (_, refl, (λ m. absurd (ground arith), λ k. cc))
    ]
  ]
]

-- Whether ScRegisterServiceRoutineW is called after ScInitializeService, with what it can access.
abbrev pub is_ready : Arch → Answers → Globals → Request → Bool
is_ready arch sys g r =
    not (is_null g.critical_section || is_null g.client_id_list) && not (is_bad_access arch sys r)

module _ (arch : Arch) (sys : Answers) (g : Globals) (r : Request) (w : IsWhole r.parameters)
    (small : r.parameters.parameter_count < 2 ^ 28) where
  -- With as many blobs as declared, fewer than 2^28, a registration comes to an end, and is balanced:
  -- it succeeds exactly if it stores a service, and it leaves the service's resources then and
  -- nothing otherwise.
  pub register_w-IsBalanced : (res : Result) × (register_w arch sys g r ≡ some res) × IsBalanced res
  unfolding register_w
  register_w-IsBalanced =
      let c = capture-all_accepted arch r.parameters w small in
      elim (Bool-cases (is_null g.critical_section || is_null g.client_id_list)) [
        | inl t ↦
            rw t (_, refl, failed-IsBalanced _ (λ e. cc) (λ e. omega arith) (λ r. ground arith))
        | inr f ↦ elim (Bool-cases (is_bad_access arch sys r)) [
          | inl t ↦
              rw f (
                rw t
                  (_, refl, failed-IsBalanced _ (λ e. cc) (λ e. omega arith) (λ r. ground arith)))
          | inr e ↦ rw f (
              rw e (
                rw c (
                  create_service-IsBalanced sys (all_accepted r.parameters.parameters)
                    r.parameters)))
        ]
      ]

  -- With as many blobs as declared, fewer than 2^28, a registration ends, and NT_SUCCESS holds of its status
  -- although no service was stored exactly if the call is after ScInitializeService with addresses that can be
  -- accessed, every mask is accepted, and the port cannot be made.
  pub register_w-misreported :
      (res : Result) × (register_w arch sys g r ≡ some res)
      × (((nt_success res.status ≡ true) × (res.handle ≢ service)) ↔ (
          (is_ready arch sys g r
            && (all_accepted r.parameters.parameters && not (nt_success sys.create_port_status)))
          ≡ true))
  unfolding register_w create_service start_thread
  register_w-misreported =
      let c = capture-all_accepted arch r.parameters w small in
      elim (Bool-cases (is_null g.critical_section || is_null g.client_id_list)) [
        | inl t ↦ rw t (_, refl, (λ m. absurd (ground arith), λ h. absurd (ground arith)))
        | inr f ↦ elim (Bool-cases (is_bad_access arch sys r)) [
          | inl t ↦ rw (f, t) (_, refl, (λ m. absurd (ground arith), λ h. absurd (ground arith)))
          | inr e ↦ rw (f, e, c) (create_service-misreported sys r.parameters.parameters)
        ]
      ]

-- The critical section and the list are made together.
abbrev pub IsTogether : Globals → Type 0
IsTogether g = is_null g.critical_section ≡ is_null g.client_id_list

-- ScInitializeService succeeds, and on globals of which the critical section and the list are both null
-- or both not, it leaves both not null, keeps a list that was there, and a second call changes nothing.
pub initialize_service-once :
    (architecture : ℕ) (g : Globals)
    → IsTogether g
    → let after = initialize_service architecture g in
      (after.0 ≡ status_success)
      × (is_null after.1.critical_section || is_null after.1.client_id_list ≡ false)
      × (initialize_service architecture after.1 ≡ after)
      × (is_null g.client_id_list ≡ false → after.1 ≡ g)
unfolding initialize_service
initialize_service-once architecture g h = elim (Bool-cases (is_null g.critical_section)) [
  | inl n ↦ rw n (refl, refl, refl, λ k. absurd (ground arith))
  | inr n ↦ rw n (refl, ground arith, rw n refl, λ k. refl)
]
