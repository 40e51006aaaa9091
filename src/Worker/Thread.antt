-- ===== src/Worker/Thread.antt =====
-- WorkerThread as a whole: it enters its client in the list, maps and calls, writes its reply, leaves the list, and
-- releases what it was given.
use service_call.Base.{
  ℕ, ◌+◌, ◌≡◌, ◌≢◌, ◌≤◌, ◌<◌, ◌^◌, refl, ◌∙◌, List, [], ◌∷◌, none, some, arith, Distinct, ap,
}
use service_call.Parameter.{Arch, RoutineParameter, IsWhole, buffer_size}
use service_call.ClientIds.{ClientIdList, push_client, erase_client, find_client}
use service_call.ClientIds.Lookup.{threads, find_client-push_client, find_client-erase_client}
use service_call.Memory.{System, Cmd, Machine, ok, PlacesFresh, IsMemory, pure, ◌>>=◌}
use service_call.Memory.Ensures
use service_call.Memory.Ensures.{Ensures, ensured}
use service_call.Mapping.Copy.{IsSized}
use service_call.Mapping.Map.{IsBenign}
use service_call.Mapping.Sync.{AllApart}
use service_call.Reply.{store_word, store_byte, Message, finish_message, load_dword, load_word}
use service_call.Reply.Status.{finish_message-data_length, load_dword-deliver}
use service_call.Server.Resources.{Event}
use service_call.Server.Wait.{worker_events}
use service_call.Worker.Defs.{Routine, truncate_parameters, work}
use service_call.Worker.Serve.{IsTidy, Call}
use service_call.Reply.Call.{work-Call, Call-small}

-- What the thread leaves: the message that it replies with, the list, and what it released.
pub record Left : Type 0 where
  pub status : ℕ
  pub reply : Message
  pub clients : ClientIdList
  pub released : List Event

-- WorkerThread for a client's `process`, by the thread `thread`. The routine may ask for its client: it runs with
-- the list as it is then. `others` is what the other threads do to the list from the first critical
-- section to the second.
module _ {C : Type 0} (sys : System C) (arch : Arch) (message_length : ℕ)
    (routine : ClientIdList → Routine C) (others : ClientIdList → ClientIdList) where
  unfoldable pub worker_thread :
      (process thread : ℕ) → ClientIdList → Message → RoutineParameter → Cmd C Left
  worker_thread process thread clients message p = do
    status ← work sys arch process (routine (push_client process thread clients)) p
    pure (record {
      status = status;
      reply = finish_message message_length status message;
      clients = erase_client thread (others (push_client process thread clients));
      released = worker_events;
    })

finish_message-total_length :
    (l status : ℕ) (m : Message)
    → 4 ≤ l
    → l + 4 < 2 ^ 16
    → load_word 2 (finish_message l status m) ≡ l + 4
unfolding finish_message store_word store_byte
finish_message-total_length l status m h k = ground arith

-- A thread that enters and leaves the list leaves it as it was.
pub erase_client-push_client :
    (p t : ℕ) (list : ClientIdList)
    → find_client t list ≡ none
    → erase_client t (push_client p t list) ≡ list
unfolding erase_client push_client find_client
erase_client-push_client p t [] h = ground arith
erase_client-push_client p t (c ∷ list) h = ground (arith, erase_client-push_client p t list)

-- The thread has run: the routine was given a list that has the thread's client, and came to what `Call` says; the
-- reply has the status behind its header, with the lengths of the DWORD and of the message; the list has
-- no entry for the thread, and has those of the other threads as they left them. If they left the list
-- alone, it is what it was before.
pub record Finished {C : Type 0} (sys : System C) (arch : Arch) (message_length : ℕ)
    (routine : ClientIdList → Routine C) (others : ClientIdList → ClientIdList) (process thread : ℕ)
    (clients : ClientIdList) (p : RoutineParameter) (m : Machine C) (left : Left) (m' : Machine C)
    : Type 0 where
  pub own : find_client thread (push_client process thread clients) ≡ some process
  pub called :
      Call sys process arch
        (routine (push_client process thread clients))
        (truncate_parameters arch p)
        m
        left.status
        m'
  pub replied : load_dword message_length left.reply ≡ left.status
  pub data_length : load_word 0 left.reply ≡ 4
  pub total_length : load_word 2 left.reply ≡ message_length + 4
  pub gone : find_client thread left.clients ≡ none
  pub kept :
      (x : ℕ)
      → x ≢ thread
      → find_client x left.clients ≡ find_client x (others (push_client process thread clients))
  pub restored :
      others (push_client process thread clients) ≡ push_client process thread clients
      → left.clients ≡ clients

module _ {C : Type 0} (sys : System C) (fresh : PlacesFresh sys) (benign : IsBenign sys)
    (laws : IsMemory sys) (routine : ClientIdList → Routine C)
    (tidy : (list : ClientIdList) → IsTidy (routine list))
    (small_results : (list : ClientIdList) (args : List ℕ) (m : Machine C) (r : ℕ) (m' : Machine C)
      → routine list args m ≡ ok r m'
      → r < 2 ^ 32) where
  -- Of a thread that is not in the list, for as many blobs as declared, fewer than 2^28, with sized, disjoint buffers
  -- and memory for the mapped list, on memory and a `new` that behave and with tidy routines that return 32
  -- bits: WorkerThread comes to its end as `Finished` says, whatever the other threads do to the list in
  -- between, as long as no thread is in it twice then, if the header is of four bytes at least and the
  -- message's length fits in two.
  pub worker_thread-Finished :
      (arch : Arch) (message_length : ℕ) (others : ClientIdList → ClientIdList) (process thread : ℕ)
      (clients : ClientIdList) (message : Message) (p : RoutineParameter) (m : Machine C)
      → let q = truncate_parameters arch p in
        let entered = push_client process thread clients in
        IsWhole p
        → p.parameter_count < 2 ^ 28
        → IsSized q.parameters
        → AllApart q.parameters
        → sys.place m.heap (buffer_size arch p.parameter_count) ≢ 0
        → find_client thread clients ≡ none
        → Distinct (threads (others entered))
        → 4 ≤ message_length
        → message_length + 4 < 2 ^ 16
        → Ensures (Finished sys arch message_length routine others process thread clients p m) (
            worker_thread sys arch message_length routine others process thread clients message p m)
  unfolding worker_thread
  worker_thread-Finished arch message_length others process thread clients message p m w small sized
        apart room alone distinct long short =
      let entered = push_client process thread clients in
      Ensures.chain
        (work-Call sys fresh benign laws process (routine entered) (tidy entered)
          (small_results entered) arch p m w small sized apart room)
        λ status m' call. ensured (record {
          own = find_client-push_client thread process thread clients alone ∙ ground arith;
          called = call;
          replied =
              load_dword-deliver message_length status (λ n. n) message (λ n i from to. refl) long
                (Call-small sys fresh benign laws process (routine entered) (tidy entered)
                  (small_results entered) arch (truncate_parameters arch p) m status m' call);
          data_length = finish_message-data_length message_length status message long;
          total_length = finish_message-total_length message_length status message long short;
          gone = find_client-erase_client thread thread (others entered) distinct ∙ ground arith;
          kept = λ x ne. find_client-erase_client x thread (others entered) distinct ∙ ground arith;
          restored = λ e.
              ap (erase_client thread) e ∙ erase_client-push_client process thread clients alone;
        })
