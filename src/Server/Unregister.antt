-- ===== src/Server/Unregister.antt =====
-- ScUnregisterServiceRoutine of ServiceCall/ServiceCall.cpp.
use service_call.Base.{
  refl, ℕ, ◌≡◌, ◌⊎◌, ◌↔◌, inl, inr, Bool, true, false, not, ◌||◌, ◌&&◌, ◌+◌, ◌*◌, Option, none,
  some, ◌==◌, arith, if◌then◌else◌, Bool-cases,
}
use service_call.Status.{
  status_success, status_access_violation, status_invalid_parameter, nt_success,
}
use service_call.Parameter.{Arch, x86, x64}
use service_call.Server.Register.{pointer_size, tested_size}

-- IsBadReadPtr, NtClose of the service's port, and whether a write at an address faults; a read faults exactly
-- where IsBadReadPtr says so.
pub record Answers : Type 0 where
  pub is_bad_write : (address size : ℕ) → Bool
  pub is_bad_read : (address size : ℕ) → Bool
  pub close_status : ℕ

-- The SERVICE_ROUTINE at the caller's address: where its parameters lie and how many they are, and its
-- CloseEvent.
pub record Service : Type 0 where
  pub parameters_address : ℕ
  pub parameter_count : ℕ
  pub close_event : Bool

-- sizeof(SERVICE_ROUTINE): six pointers and a BOOL, with padding.
abbrev pub service_size : Arch → ℕ
service_size x86 = 28
service_size x64 = 56

-- The second argument of the outer IsBadReadPtr: a disjunction that starts with the size, as a size.
unfoldable pub tested_bytes : Arch → Answers → Service → ℕ
tested_bytes arch sys s =
    if not (service_size arch == 0)
      || (sys.is_bad_read s.parameters_address (pointer_size arch)
          || sys.is_bad_read s.parameters_address (tested_size arch s.parameter_count))
    then 1
    else 0

-- The status by that of NtClose.
abbrev closing_status : Answers → ℕ
closing_status sys =
    if nt_success sys.close_status then status_success else status_invalid_parameter

-- The offset of CloseEvent in a SERVICE_ROUTINE, behind its six pointers; hPort is the first of them.
abbrev pub close_event_offset : Arch → ℕ
close_event_offset arch = 6 * pointer_size arch

-- Whether CloseEvent of the record can be written and hPort be read.
abbrev pub is_accessible : Arch → Answers → (address : ℕ) → Bool
is_accessible arch sys address =
    not (sys.is_bad_write (address + close_event_offset arch) 4)
    && not (sys.is_bad_read address (pointer_size arch))

-- ScUnregisterServiceRoutine: its status, whether it closes the port, and the service after it; `none` is an
-- access fault at the record.
unfoldable pub unregister : Arch → Answers → (address : ℕ) → Service → Option (ℕ × (Bool × Service))
unfolding tested_bytes
unregister arch sys address s =
    if sys.is_bad_read address (tested_bytes arch sys s)
    then some (status_access_violation, (false, s))
    else if sys.is_bad_write (address + close_event_offset arch) 4
    then none
    else if sys.is_bad_read address (pointer_size arch)
    then none
    else some (
      if nt_success sys.close_status then status_success else status_invalid_parameter,
      (true, record s { close_event = true }),
    )

-- The disjunction holds, since the size of a record is not zero.
tested_bytes-one : (arch : Arch) (sys : Answers) (s : Service) → tested_bytes arch sys s ≡ 1
unfolding tested_bytes
tested_bytes-one x86 sys s = refl
tested_bytes-one x64 sys s = refl

-- An end is refused, with the service as it was and its port open, exactly if the first byte of the
-- service cannot be read. Otherwise, whether or not the service's parameters can be read, an access faults if
-- CloseEvent cannot be written or hPort cannot be read; and if they can, CloseEvent is set and the port is
-- closed, and the status is a success exactly if that of the closing is, otherwise STATUS_INVALID_PARAMETER.
pub unregister-tests_one_byte :
    (arch : Arch) (sys : Answers) (address : ℕ) (s : Service)
    → ((sys.is_bad_read address 1 ≡ true)
        × (unregister arch sys address s ≡ some (status_access_violation, (false, s))))
      ⊎ (((sys.is_bad_read address 1 ≡ false)
            × (is_accessible arch sys address ≡ false)
            × (unregister arch sys address s ≡ none))
          ⊎ ((sys.is_bad_read address 1 ≡ false)
              × (is_accessible arch sys address ≡ true)
              × ((status : ℕ) × (unregister arch sys address s
                    ≡ some (status, (true, record s { close_event = true })))
                  × ((status ≡ status_success) ↔ (nt_success sys.close_status ≡ true))
                  × (nt_success sys.close_status ≡ false → status ≡ status_invalid_parameter))))
unfolding unregister
unregister-tests_one_byte arch sys address s =
    let one = tested_bytes-one arch sys s in
    elim (Bool-cases (sys.is_bad_read address 1)) [
      | inl t ↦ inl (t, rw (one, t) refl)
      | inr f ↦ elim (Bool-cases (is_accessible arch sys address)) [
        | inr a ↦ inr (inl (f, a, rw (one, f) (ground arith)))
        | inl a ↦ inr (
            inr (
              f,
              a,
              (
                closing_status sys,
                rw (one, f) (ground arith),
                (λ e. ground arith, λ e. ground arith),
                λ e. rw e refl,
              ),
            ))
      ]
    ]
