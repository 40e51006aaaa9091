-- ===== src/Reply/Wire.antt =====
-- A client's parameter list as bytes: how WaitThread finds it in the message of a connection, and what the
-- message of the request leaves of it.
use service_call.Base.{
  ℕ, zero, suc, ◌+◌, ◌-◌, ◌*◌, ◌%◌, ◌^◌, ◌<◌, ◌≤◌, ◌≡◌, ◌≢◌, refl, sym, ap, ◌∙◌, List, [], ◌∷◌,
  arith, length, Bool, some,
}
use service_call.Parameter.{Arch, Blob, RoutineParameter, IsWhole, Captured, copied, capture}
use service_call.Client.Defs.{request_length}
use service_call.Server.Wait.{Turn, Ended, handed, turn}
use service_call.Server.Rounds.{turn-copied}
use service_call.Reply.{Message, load_word, load_dword, request_message, store_word, store_byte}

abbrev pub load_qword : (offset : ℕ) → Message → ℕ
load_qword offset m = load_dword offset m + load_dword (offset + 4) m * 2 ^ 32

-- A SERVICE_PARAMETER_BLOB at `offset`, and `n` of them.
unfoldable pub load_blob : (offset : ℕ) → Message → Blob
load_blob offset m = record {
  parameter_mask = m offset;
  reserved1 = m (offset + 1) % 2 ^ 3;
  max_buffer_size = load_dword (offset + 4) m;
  ul_parameter = load_qword (offset + 8) m;
}

unfoldable pub load_blobs : (n offset : ℕ) → Message → List Blob
load_blobs zero offset m = []
load_blobs (suc n) offset m = load_blob offset m ∷ load_blobs n (offset + 16) m

-- A SERVICE_ROUTINE_PARAMETER at `offset`, with as many blobs as it declares.
unfoldable pub load_list : (offset : ℕ) → Message → RoutineParameter
load_list offset m = record {
  parameter_count = load_dword offset m;
  parameters = load_blobs (load_dword offset m) (offset + 8) m;
}

-- Where WaitThread looks for the list, behind the beginning of the message `lm`; TotalLength is not less than
-- DataLength there, and both are less than 2^15.
abbrev pub callparam : Message → ℕ
callparam m = load_word 2 m - load_word 0 m

-- A turn by its message buffer, when NtListenPort and when NtReplyWaitReceivePort has filled it; WaitThread
-- computes the address of the list once. The rest is in `t`.
abbrev pub message_turn : (listened received : Message) → Turn → Turn
message_turn listened received t = record t {
  data_length = load_word 0 listened;
  connected = load_list (callparam listened) listened;
  received = load_list (callparam listened) received;
}

-- NtConnectPort and NtListenPort: the message has the `n` bytes that the client has at `a` behind its header, with
-- both lengths.
pub record Connects (header a n : ℕ) (client m : Message) : Type 0 where
  pub data_length : load_word 0 m ≡ n
  pub total_length : load_word 2 m ≡ header + n
  pub copied : (i : ℕ) → i < n → m (header + i) ≡ client (a + i)

-- NtRequestWaitReplyPort and NtReplyWaitReceivePort: the header and as much data as DataLength says are written
-- over what was in the buffer.
abbrev pub Receives : (header : ℕ) → (sent before after : Message) → Type 0
Receives header sent before after = (i : ℕ) → header + load_word 0 sent ≤ i → after i ≡ before i

module _ (o p : ℕ) (m k : Message) where
  -- The `n` bytes from `o` on in `m` are those from `p` on in `k`.
  abbrev Same : ℕ → Type 0
  Same n = (i : ℕ) → i < n → m (o + i) ≡ k (p + i)

  byte-Same : (n i x y : ℕ) → Same n → i < n → x ≡ o + i → y ≡ p + i → m x ≡ k y
  byte-Same n i x y h l e f = ap m e ∙ (h i l ∙ ap k (sym f))

  load_dword-Same :
      (n j x y : ℕ) → Same n → j + 4 ≤ n → x ≡ o + j → y ≡ p + j → load_dword x m ≡ load_dword y k
  unfolding load_dword
  load_dword-Same n j x y h l e f =
      let e0 = byte-Same n j x y h (omega arith) e f in
      let e1 = byte-Same n (j + 1) (x + 1) (y + 1) h (omega arith) (omega arith) (omega arith) in
      let e2 = byte-Same n (j + 2) (x + 2) (y + 2) h (omega arith) (omega arith) (omega arith) in
      let e3 = byte-Same n (j + 3) (x + 3) (y + 3) h (omega arith) (omega arith) (omega arith) in
      rw (e0, e1, e2, e3) refl

load_blob-Same : (o p : ℕ) (m k : Message) → Same o p m k 16 → load_blob o m ≡ load_blob p k
unfolding load_blob
load_blob-Same o p m k h =
    rw
      (
        byte-Same o p m k 16 0 o p h (omega arith) (omega arith) (omega arith),
        byte-Same o p m k 16 1 (o + 1) (p + 1) h (omega arith) refl refl,
        load_dword-Same o p m k 16 4 (o + 4) (p + 4) h (omega arith) refl refl,
        load_dword-Same o p m k 16 8 (o + 8) (p + 8) h (omega arith) refl refl,
        load_dword-Same o p m k 16 12 (o + 8 + 4) (p + 8 + 4) h (omega arith) (omega arith)
            (omega arith),
      )
      refl

load_blobs-Same :
    (n o p : ℕ) (m k : Message) → Same o p m k (n * 16) → load_blobs n o m ≡ load_blobs n p k
unfolding load_blobs
load_blobs-Same zero o p m k h = refl
load_blobs-Same (suc n) o p m k h =
    let first = load_blob-Same o p m k (λ i l. h i (omega arith)) in
    let rest = load_blobs-Same n (o + 16) (p + 16) m k (λ i l.
      byte-Same o p m k (suc n * 16) (16 + i) (o + 16 + i) (p + 16 + i) h (omega arith)
        (omega arith) (omega arith)) in
    rw (first, rest) refl

load_list-Same :
    (o p : ℕ) (m k : Message)
    → Same o p m k (8 + load_dword p k * 16)
    → load_list o m ≡ load_list p k
unfolding load_list
load_list-Same o p m k h =
    let n = 8 + load_dword p k * 16 in
    let count = load_dword-Same o p m k n 0 o p h (omega arith) (omega arith) (omega arith) in
    let blobs = load_blobs-Same (load_dword p k) (o + 8) (p + 8) m k (λ i l.
      byte-Same o p m k n (8 + i) (o + 8 + i) (p + 8 + i) h (omega arith) (omega arith)
        (omega arith)) in
    rw (count, blobs) refl

zero_length : (len : ℕ) → load_word 0 (request_message len) ≡ 0
unfolding store_word store_byte
zero_length len = ground arith

length-load_blobs : (n o : ℕ) (m : Message) → length (load_blobs n o m) ≡ n
unfolding load_blobs
length-load_blobs zero o m = refl
length-load_blobs (suc n) o m = ap suc (length-load_blobs n (o + 16) m)

load_list-IsWhole : (o : ℕ) (m : Message) → IsWhole (load_list o m)
unfolding load_list
load_list-IsWhole o m = length-load_blobs (load_dword o m) (o + 8) m

request_length-small : (n : ℕ) → n < 2 ^ 28 → request_length n ≡ 8 + n * 16
unfolding request_length
request_length-small n h = omega arith

-- WaitThread finds the client's list when the client connects, and finds it again when the request has come.
message_turn-undisturbed :
    (header a len : ℕ) (client connection sent after : Message)
    → let p = load_list a client in
      p.parameter_count < 2 ^ 28
      → Connects header a (request_length p.parameter_count) client connection
      → sent ≡ request_message len
      → Receives header sent connection after
      → (load_list (callparam connection) connection ≡ p)
        × (load_list (callparam connection) after ≡ p)
unfolding load_list
message_turn-undisturbed header a len client connection sent after small c e r =
    let n = load_dword a client in
    let found : callparam connection ≡ header = omega (arith, c.total_length, c.data_length) in
    let none_there : load_word 0 sent ≡ 0 = rw e (zero_length len) in
    let long = request_length-small n small in
    let connected : load_list header connection ≡ load_list a client =
      load_list-Same header a connection client (λ i l. c.copied i (omega (arith, long))) in
    let received : load_list header after ≡ load_list a client =
      load_list-Same header a after client
        (λ i l. r (header + i) (omega (arith, none_there)) ∙ c.copied i (omega (arith, long))) in
    (rw found connected, rw found received)

-- Over ports that copy as `Connects` and `Receives` say: if a client connects with the list that lies in its
-- memory at `a`, of fewer than 2^28 blobs, and then sends the request of ScServiceCallW, and the turn of a
-- service whose parameters, as many as declared, were captured hands a worker on, then WaitThread has seen
-- data in the connection's message, and the worker starts with a copy of the blobs of this list: the
-- request has no data, so that it does not write over the list.
pub message_turn-copied :
    (arch : Arch) (service : RoutineParameter) (bs : List Blob) (header a len : ℕ)
    (client connection sent after : Message) (t : Turn) (e : Ended) (c : Captured) (b : Bool)
    → let p = load_list a client in
      IsWhole service
      → capture arch service ≡ copied bs
      → p.parameter_count < 2 ^ 28
      → Connects header a (request_length p.parameter_count) client connection
      → sent ≡ request_message len
      → Receives header sent connection after
      → turn arch service (message_turn connection after t) ≡ some e
      → e.outcome ≡ handed c b
      → (load_word 0 connection ≢ 0) × (c ≡ copied p.parameters)
message_turn-copied arch service bs header a len client connection sent after t e c b sv cs small
      found posted received h o =
    let p = load_list a client in
    let (first, second) =
      message_turn-undisturbed header a len client connection sent after small found posted
        received in
    (
      λ z. omega (arith, found.data_length, request_length-small p.parameter_count small),
      turn-copied arch service (message_turn connection after t) e bs c b sv
            (load_list-IsWhole (callparam connection) connection) (rw first small) cs
            (second ∙ sym first) h o
          ∙ ap (λ (q : RoutineParameter). copied q.parameters) first,
    )
