-- ===== src/ClientIds/Safety.antt =====
-- RtlClientId, and who holds which handle, in the interleavings of the worker threads.
use service_call.Base.{ℕ, ◌≡◌, refl, true, false, none, some, arith, Distinct}
use service_call.ClientIds.{find_client, rtl_client_id}
use service_call.ClientIds.Lookup.{
  threads, find_client-push_client, find_client-erase_client, Distinct-push_client,
  Distinct-erase_client,
}
use service_call.ClientIds.Threads.{
  State, Step, spawn, enter, reply, leave, close, Reach, here, next, held, listed, globals,
}

pub record Inv (s : State) : Type 0 where
  pub distinct : Distinct (threads s.clients)
  pub found : (t : ℕ) → find_client t s.clients ≡ listed (s.phase t)
  pub opened : (t h : ℕ) → held (s.phase t) ≡ some h → s.is_open h ≡ true
  pub owner : (t u h : ℕ) → held (s.phase t) ≡ some h → held (s.phase u) ≡ some h → t ≡ u

Step-Inv : {s u : State} → Step s u → Inv s → Inv u
Step-Inv (spawn t h e f) v = record {
  distinct = v.distinct;
  found = λ x. ground (arith, v.found x);
  opened = λ x k i. ground (arith, v.opened x k);
  owner = λ x y k i j. ground (arith, v.owner x y k, v.opened x k, v.opened y k);
}
Step-Inv {s} (enter t h e) v =
    let none_there : find_client t s.clients ≡ none = ground (arith, v.found t) in
    record {
      distinct = Distinct-push_client h t s.clients v.distinct none_there;
      found = λ x. ground (arith, v.found x, find_client-push_client x h t s.clients none_there);
      opened = λ x k i. ground (arith, v.opened x k);
      owner = λ x y k i j. ground (arith, v.owner x y k);
    }
Step-Inv (reply t h e) v = record {
  distinct = v.distinct;
  found = λ x. ground (arith, v.found x);
  opened = λ x k i. ground (arith, v.opened x k);
  owner = λ x y k i j. ground (arith, v.owner x y k);
}
Step-Inv {s} (leave t h e) v = record {
  distinct = Distinct-erase_client t s.clients v.distinct;
  found = λ x. ground (arith, v.found x, find_client-erase_client x t s.clients v.distinct);
  opened = λ x k i. ground (arith, v.opened x k);
  owner = λ x y k i j. ground (arith, v.owner x y k);
}
Step-Inv (close t h e) v = record {
  distinct = v.distinct;
  found = λ x. ground (arith, v.found x);
  opened = λ x k i. ground (arith, v.opened x k, v.owner x t k);
  owner = λ x y k i j. ground (arith, v.owner x y k);
}

pub Reach-Inv : {s : State} → Reach s → Inv s
unfolding find_client
Reach-Inv here = record {
  distinct = tt;
  found = λ t. refl;
  opened = λ t h e. cc;
  owner = λ t u h e f. cc;
}
Reach-Inv (next r st) = Step-Inv st (Reach-Inv r)

-- Whatever the interleaving that led here: a thread for which the list has a handle, that is, one
-- between its two critical sections, gets true with the handle of its own client and its process id,
-- and the handle is open; any other thread gets false and nothing is stored.
pub rtl_client_id-listed :
    (get_process_id : ℕ → ℕ) {s : State} (t : ℕ)
    → Reach s
    → ((h : ℕ)
        → listed (s.phase t) ≡ some h
        → (rtl_client_id get_process_id (globals s) t ≡ (true, some (h, get_process_id h)))
          × (s.is_open h ≡ true))
      × (listed (s.phase t) ≡ none → rtl_client_id get_process_id (globals s) t ≡ (false, none))
unfolding rtl_client_id
rtl_client_id-listed get_process_id {s} t r =
    let v = Reach-Inv r in
    (
      λ h e. (ground (arith, v.found t), ground (arith, v.opened t h)),
      λ e. ground (arith, v.found t),
    )

-- No two threads, of the workers alive, hold the same client handle; so the NtClose at one worker's
-- end never closes the handle that another one serves.
pub held_unique :
    {s : State} (t u h : ℕ)
    → Reach s
    → held (s.phase t) ≡ some h
    → held (s.phase u) ≡ some h
    → t ≡ u
held_unique t u h r e f = (Reach-Inv r).owner t u h e f
