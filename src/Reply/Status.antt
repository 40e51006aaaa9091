-- ===== src/Reply/Status.antt =====
-- The status that WorkerThread puts into a reply and the one that ScServiceCallW finds there.
use service_call.Base.{
  ℕ, ◌+◌, ◌*◌, ◌/◌, ◌%◌, ◌^◌, ◌≤◌, ◌<◌, ◌≡◌, ◌==◌, if◌then◌else◌, arith, ◌⊎◌, some, ap, ◌∙◌, false,
}
use service_call.Status.{status_success}
use service_call.Parameter.{Arch, IsWhole}
use service_call.Client.Defs.{
  Answers, Request, Result, connect_port, exchange, lpc_message_length, service_call_w,
}
use service_call.Client.Status.{service_call_w-cases}
use service_call.Reply.{
  Message, Delivers, load_word, load_dword, store_byte, store_word, store_dword, finish_message,
}

-- The bytes of a status.
abbrev byte_of : (status k : ℕ) → ℕ
byte_of status k = status / 2 ^ (8 * k) % 2 ^ 8

pub finish_message-data_length :
    (l status : ℕ) (m : Message) → 4 ≤ l → load_word 0 (finish_message l status m) ≡ 4
unfolding finish_message store_word store_byte
finish_message-data_length l status m h = ground arith

finish_message-bytes :
    (l status : ℕ) (m : Message)
    → 4 ≤ l
    → let n = finish_message l status m in
      (n l ≡ status % 2 ^ 8)
      × (n (l + 1) ≡ status / 2 ^ 8 % 2 ^ 8)
      × (n (l + 2) ≡ status / 2 ^ 16 % 2 ^ 8)
      × (n (l + 3) ≡ status / 2 ^ 24 % 2 ^ 8)
unfolding finish_message store_dword store_word store_byte
finish_message-bytes l status m h = (ground arith, ground arith, ground arith, ground arith)

-- What is put behind a header of four bytes at least is read behind it after the delivery.
pub load_dword-deliver :
    (header status : ℕ) (deliver : Message → Message) (m : Message)
    → Delivers header deliver
    → 4 ≤ header
    → status < 2 ^ 32
    → load_dword header (deliver (finish_message header status m)) ≡ status
unfolding load_dword
load_dword-deliver header status deliver m d h small =
    let n = finish_message header status m in
    let length : load_word 0 n ≡ 4 = finish_message-data_length header status m h in
    let (b0, b1, b2, b3) = finish_message-bytes header status m h in
    let a0 = d n header (omega arith) (omega arith) in
    let a1 = d n (header + 1) (omega arith) (omega arith) in
    let a2 = d n (header + 2) (omega arith) (omega arith) in
    let a3 = d n (header + 3) (omega arith) (omega arith) in omega arith

-- The header that a client reads behind.
abbrev pub read_offset : Answers → (message_length : ℕ) → ℕ
read_offset sys message_length =
    if message_length == 0 then lpc_message_length sys.architecture else message_length

-- What a call that succeeds stores.
pub service_call_w-stored :
    (sys : Answers) (message_length : ℕ) (r : Request) (arch : Arch) (res : Result) (a : ℕ)
    → IsWhole r.parameters
    → r.parameters.parameter_count < 2 ^ 28
    → service_call_w sys message_length r arch ≡ some res
    → res.status ≡ status_success
    → r.service_status ≡ some a
    → sys.is_bad_write a 4 ≡ false
    → res.stored ≡ some (sys.reply_at (read_offset sys message_length))
unfolding connect_port exchange
service_call_w-stored sys message_length r arch res a w h e s p b =
    let c = service_call_w-cases sys message_length r arch w h in ground arith

-- If the worker's message length is the one that the client learns, which it knew or had not asked for, and the
-- system's header has that length, four bytes at least, then the reply with a 32-bit status leads a call
-- that succeeds to store this status, where it can be written: with as many blobs as declared, fewer than
-- 2^28.
pub finish_message-stored :
    (sys : Answers) (message_length : ℕ) (r : Request) (arch : Arch) (res : Result) (a status : ℕ)
    (deliver : Message → Message) (m : Message)
    → let header = lpc_message_length sys.architecture in
      IsWhole r.parameters
      → r.parameters.parameter_count < 2 ^ 28
      → service_call_w sys message_length r arch ≡ some res
      → res.status ≡ status_success
      → r.service_status ≡ some a
      → sys.is_bad_write a 4 ≡ false
      → (message_length ≡ 0) ⊎ (message_length ≡ header)
      → (sys.architecture ≡ 0) ⊎ (sys.architecture ≡ 9)
      → Delivers header deliver
      → ((o : ℕ) → sys.reply_at o ≡ load_dword o (deliver (finish_message header status m)))
      → status < 2 ^ 32
      → res.stored ≡ some status
unfolding lpc_message_length
finish_message-stored sys message_length r arch res a status deliver m w h e s p b known native d
      reply small =
    let header = lpc_message_length sys.architecture in
    let stored = service_call_w-stored sys message_length r arch res a w h e s p b in
    let found : read_offset sys message_length ≡ header = ground arith in
    let long : 4 ≤ header = ground arith in
    let there = load_dword-deliver header status deliver m d long small in
    stored ∙ ap some (ap sys.reply_at found ∙ reply header ∙ there)
