-- ===== src/Client/Status.antt =====
-- What ScServiceCallW returns, what it leaves open, and what it lets through to a service.
use service_call.Base.{
  ℕ, zero, suc, ◌<◌, ◌^◌, ◌≡◌, refl, ◌≢◌, inl, inr, Bool, true, not, ◌&&◌, ◌||◌, List, [], ◌∷◌,
  arith, none, some, if◌then◌else◌, ◌==◌, Bool-cases, length, Option-cases, ◌↔◌,
}
use service_call.Status.{
  status_success, status_unsuccessful, status_access_violation, status_invalid_parameter_1,
  status_invalid_parameter_2, nt_success,
}
use service_call.Parameter.{Arch, Blob, IsWhole, copied, capture}
use service_call.Parameter.Capture.{all_accepted, capture-all_accepted}
use service_call.Client.Defs.{
  Answers, Request, Result, Event, create_string, free_string, connect, request, reply, close,
  is_missing, find_missing, request_length, exchange, connect_port, service_call_w, refuse,
}

-- The number of strings in use after the events, where a free of none counts as a new one.
abbrev pub strings : List Event → ℕ
strings [] = 0
strings (create_string ∷ es) = suc (strings es)
strings (free_string ∷ es) = strings es
strings (connect n ∷ es) = strings es
strings (request ∷ es) = strings es
strings (reply ∷ es) = strings es
strings (close ∷ es) = strings es

abbrev pub frees : List Event → ℕ
frees [] = 0
frees (create_string ∷ es) = frees es
frees (free_string ∷ es) = suc (frees es)
frees (connect n ∷ es) = frees es
frees (request ∷ es) = frees es
frees (reply ∷ es) = frees es
frees (close ∷ es) = frees es

abbrev pub closes : List Event → ℕ
closes [] = 0
closes (create_string ∷ es) = closes es
closes (free_string ∷ es) = closes es
closes (connect n ∷ es) = closes es
closes (request ∷ es) = closes es
closes (reply ∷ es) = closes es
closes (close ∷ es) = suc (closes es)

abbrev pub connects : List Event → ℕ
connects [] = 0
connects (create_string ∷ es) = connects es
connects (free_string ∷ es) = connects es
connects (connect n ∷ es) = suc (connects es)
connects (request ∷ es) = connects es
connects (reply ∷ es) = connects es
connects (close ∷ es) = connects es

-- No pointer that may not be null is null.
abbrev pub none_missing : List Blob → Bool
none_missing [] = true
none_missing (b ∷ bs) = not (is_missing b) && none_missing bs

find_missing-none_missing :
    (n : ℕ) (bs : List Blob) → length bs ≡ n → find_missing n bs ≡ some (not (none_missing bs))
unfolding find_missing
find_missing-none_missing zero [] e = refl
find_missing-none_missing zero (b ∷ bs) e = absurd (omega arith)
find_missing-none_missing (suc n) [] e = absurd (omega arith)
find_missing-none_missing (suc n) (b ∷ bs) e =
    ground (arith, find_missing-none_missing n bs (omega arith))

-- The statuses that ServiceCall.h documents for the call.
abbrev pub is_documented : ℕ → Bool
is_documented status =
    status == status_success
    || (status == status_access_violation
        || (status == status_invalid_parameter_1
            || (status == status_invalid_parameter_2 || status == status_unsuccessful)))

-- A call that came to an end: its status is documented; the name's string is freed as often as it is
-- made; the port is closed once if it was connected, and else not; and a service status is stored
-- only if the call succeeded.
pub record IsClean (sys : Answers) (res : Result) : Type 0 where
  pub documented : is_documented res.status ≡ true
  pub freed : strings res.events ≡ frees res.events
  pub closed :
      closes res.events ≡ (if sys.connect_status == status_success then connects res.events else 0)
  pub silent : res.stored ≢ none → res.status ≡ status_success

module _ (sys : Answers) (message_length : ℕ) (r : Request) where
  connect_port-IsClean :
      (res : Result) → connect_port sys message_length r ≡ some res → IsClean sys res
  unfolding connect_port exchange
  connect_port-IsClean res e = ground arith

  connect_port-some : (res : Result) × (connect_port sys message_length r ≡ some res)
  connect_port-some = elim (Option-cases (connect_port sys message_length r)) [
    | inl e ↦ absurd (unfold connect_port in ground arith)
    | inr p ↦ p
  ]

  -- Whether the arguments can be read at all.
  abbrev pub is_readable : Bool
  is_readable = not (
      sys.is_bad_read r.address 4
      || (sys.is_bad_read r.address (request_length r.parameters.parameter_count)
          || sys.is_bad_string r.name))

  -- The call, by what it finds in the parameters.
  pub service_call_w-cases :
      (arch : Arch)
      → IsWhole r.parameters
      → r.parameters.parameter_count < 2 ^ 28
      → service_call_w sys message_length r arch ≡ (
          if is_readable
          then if none_missing r.parameters.parameters && all_accepted r.parameters.parameters
            then connect_port sys message_length r
            else refuse message_length status_invalid_parameter_2 (create_string ∷ free_string ∷ [])
          else refuse message_length status_access_violation [])
  unfolding service_call_w
  service_call_w-cases arch w h =
      let e = find_missing-none_missing r.parameters.parameter_count r.parameters.parameters w in
      let c = capture-all_accepted arch r.parameters w h in rw e (ground (arith, c))

  -- With as many blobs as declared, fewer than 2^28, the call always comes to an end, and a clean one.
  -- It connects only if every mask is accepted and no pointer that may not be null is null; so a
  -- service, of either build, can capture what a client sends.
  pub service_call_w-IsClean :
      (arch : Arch)
      → IsWhole r.parameters
      → r.parameters.parameter_count < 2 ^ 28
      → (res : Result) × (service_call_w sys message_length r arch ≡ some res)
        × IsClean sys res
        × (connects res.events ≢ 0
            → (none_missing r.parameters.parameters ≡ true)
              × ((server : Arch) → capture server r.parameters ≡ copied r.parameters.parameters))
  service_call_w-IsClean arch w h =
      let (res, done) = connect_port-some in
      let clean = connect_port-IsClean res done in
      let all = none_missing r.parameters.parameters && all_accepted r.parameters.parameters in
      rw (service_call_w-cases arch w h) (elim (Bool-cases is_readable) [
        | inl t ↦ elim (Bool-cases all) [
          | inl u ↦
              rw (t, u)
                (
                  res,
                  done,
                  clean,
                  λ _. (
                    ground arith,
                    λ server. ground (arith, capture-all_accepted server r.parameters w h),
                  ),
                )
          | inr v ↦ rw (t, v) (_, refl, ground arith, λ ne. absurd (ne refl))
        ]
        | inr f ↦ rw f (_, refl, ground arith, λ ne. absurd (ne refl))
      ])

  -- Such a call succeeds exactly when its arguments can be read, its parameters are in order, the
  -- port is connected and the request is answered.
  pub service_call_w-success :
      (arch : Arch) (res : Result)
      → IsWhole r.parameters
      → r.parameters.parameter_count < 2 ^ 28
      → service_call_w sys message_length r arch ≡ some res
      → (res.status ≡ status_success) ↔ (
          (is_readable ≡ true)
          × (none_missing r.parameters.parameters ≡ true)
          × (all_accepted r.parameters.parameters ≡ true)
          × (sys.connect_status ≡ status_success)
          × (nt_success sys.request_status ≡ true))
  unfolding connect_port
  service_call_w-success arch res w h e =
      let c = service_call_w-cases arch w h in (λ s. ground arith, λ s. ground arith)
