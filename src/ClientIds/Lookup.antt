-- ===== src/ClientIds/Lookup.antt =====
-- What a thread finds in the list after a push and an erasure.
use service_call.Base.{
  ℕ, ◌≡◌, refl, false, List, [], ◌∷◌, ◌++◌, none, some, ◌==◌, if◌then◌else◌, arith, has, Distinct,
  is_some, Distinct-snoc,
}
use service_call.ClientIds.{ClientIdList, push_client, erase_client, find_client}

-- The threads of the entries.
abbrev pub threads : ClientIdList → List ℕ
threads [] = []
threads (c ∷ list) = c.thread ∷ threads list

pub find_client-has :
    (t : ℕ) (list : ClientIdList) → is_some (find_client t list) ≡ has t (threads list)
unfolding find_client
find_client-has t [] = refl
find_client-has t (c ∷ list) = ground (arith, find_client-has t list)

pub find_client-push_client :
    (t p u : ℕ) (list : ClientIdList)
    → find_client u list ≡ none
    → find_client t (push_client p u list) ≡ (if t == u then some p else find_client t list)
unfolding find_client push_client
find_client-push_client t p u [] h = ground arith
find_client-push_client t p u (c ∷ list) h = ground (arith, find_client-push_client t p u list)

threads-push_client :
    (p u : ℕ) (list : ClientIdList) → threads (push_client p u list) ≡ threads list ++ u ∷ []
unfolding push_client
threads-push_client p u [] = refl
threads-push_client p u (c ∷ list) = rw (threads-push_client p u list)

pub Distinct-push_client :
    (p u : ℕ) (list : ClientIdList)
    → Distinct (threads list)
    → find_client u list ≡ none
    → Distinct (threads (push_client p u list))
Distinct-push_client p u list d h =
    rw (threads-push_client p u list)
      (Distinct-snoc (threads list) u d (ground (arith, find_client-has u list)))

pub find_client-erase_client :
    (t u : ℕ) (list : ClientIdList)
    → Distinct (threads list)
    → find_client t (erase_client u list) ≡ (if t == u then none else find_client t list)
unfolding find_client erase_client
find_client-erase_client t u [] d = ground arith
find_client-erase_client t u (c ∷ list) d =
    ground (arith, find_client-erase_client t u list d.1, find_client-has c.thread list, d.0)

has-erase_client :
    (t u : ℕ) (list : ClientIdList)
    → has t (threads list) ≡ false
    → has t (threads (erase_client u list)) ≡ false
unfolding erase_client
has-erase_client t u [] h = refl
has-erase_client t u (c ∷ list) h = ground (arith, has-erase_client t u list)

pub Distinct-erase_client :
    (u : ℕ) (list : ClientIdList)
    → Distinct (threads list)
    → Distinct (threads (erase_client u list))
unfolding erase_client
Distinct-erase_client u [] d = tt
Distinct-erase_client u (c ∷ list) d =
    ground (arith, Distinct-erase_client u list d.1, has-erase_client c.thread u list d.0)
