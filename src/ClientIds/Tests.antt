-- ===== src/ClientIds/Tests.antt =====
-- Two workers that overlap.
use service_call.Base.{ℕ, ◌≡◌, refl, true, false, [], ◌∷◌, Option, none, some, ◌+◌}
use service_call.ClientIds.{push_client, find_client, rtl_client_id}
use service_call.ClientIds.Threads.{
  State, serving, started, absent, spawn, enter, Reach, here, next, globals, update,
}
use service_call.ClientIds.Progress.{Run, Finished, worker-finishes}
use service_call.ClientIds.Safety.{rtl_client_id-listed, held_unique}

-- Thread 7 serves process handle 70 and thread 8 serves 80; 8 came into the list first.
abbrev overlapping : State
overlapping = record {
  clients = record { process = 80; thread = 8 } ∷ record { process = 70; thread = 7 } ∷ [];
  phase =
      update (update (update (update (λ t. absent) 7 (started 70)) 8 (started 80)) 8 (serving 80)) 7
        (serving 70);
  is_open = update (update (λ h. false) 70 true) 80 true;
}

overlapping-Reach : Reach overlapping
unfolding push_client
overlapping-Reach =
    next (next (next (next here (spawn 7 70 refl refl)) (spawn 8 80 refl refl)) (enter 8 80 refl))
      (enter 7 70 refl)

rtl_client_id-listed_example :
    ((h : ℕ)
      → some 70 ≡ some h
      → (rtl_client_id (λ p. p + 1) (globals overlapping) 7 ≡ (true, some (h, h + 1)))
        × (overlapping.is_open h ≡ true))
    × (◌≡◌ {A = Option ℕ} (some 70) none
        → rtl_client_id (λ p. p + 1) (globals overlapping) 7 ≡ (false, none))
rtl_client_id-listed_example = rtl_client_id-listed (λ p. p + 1) 7 overlapping-Reach

held_unique_example : ◌≡◌ {A = ℕ} 7 7
held_unique_example = held_unique 7 7 70 overlapping-Reach refl refl

worker-finishes_example :
    (u : State) × Run overlapping u × Finished overlapping u 7 70 × (find_client 7 u.clients ≡ none)
worker-finishes_example = worker-finishes 7 70 overlapping-Reach refl

-- Before ScInitializeService nobody is answered.
not_initialised :
    rtl_client_id
      (λ p. p)
      (record { critical_section = none; client_id_list = none; system_lpc_message_length = 0 })
      7
    ≡ (false, none)
unfolding rtl_client_id find_client
not_initialised = refl
