-- ===== src/Reply.antt =====
-- The message of a request and of its reply, in bytes: what WorkerThread writes into it and what
-- ScServiceCallW reads from it (ServiceCall/ServiceCall.cpp). The lengths are at the beginning of a
-- PORT_MESSAGE: DataLength at offset 0 and TotalLength at offset 2, both of two bytes.
pub mod Status
pub mod Call
pub mod Wire
mod WireTests
mod Tests
use service_call.Base.{ℕ, ◌+◌, ◌*◌, ◌/◌, ◌%◌, ◌^◌, ◌≤◌, ◌<◌, ◌≡◌, ◌==◌, if◌then◌else◌}

-- The byte at each offset.
abbrev pub Message : Type 0
Message = ℕ → ℕ

abbrev pub load_word : (offset : ℕ) → Message → ℕ
load_word offset m = m offset + m (offset + 1) * 2 ^ 8

unfoldable pub load_dword : (offset : ℕ) → Message → ℕ
load_dword offset m =
    m offset + m (offset + 1) * 2 ^ 8 + m (offset + 2) * 2 ^ 16 + m (offset + 3) * 2 ^ 24

unfoldable pub store_byte : (offset value : ℕ) → Message → Message
store_byte offset value m i = if i == offset then value % 2 ^ 8 else m i

unfoldable pub store_word : (offset value : ℕ) → Message → Message
unfolding store_byte
store_word offset value m = store_byte offset value (store_byte (offset + 1) (value / 2 ^ 8) m)

unfoldable pub store_dword : (offset value : ℕ) → Message → Message
unfolding store_word
store_dword offset value m = store_word offset value (store_word (offset + 2) (value / 2 ^ 16) m)

-- The request of ScServiceCallW: `len` zero bytes, and TotalLength.
abbrev pub request_message : (len : ℕ) → Message
request_message len = store_word 2 len (λ i. 0)

-- WorkerThread's reply: the status behind the header, then TotalLength and DataLength.
unfoldable pub finish_message : (message_length status : ℕ) → Message → Message
unfolding store_dword
finish_message message_length status m =
    store_word 0 4 (store_word 2 (message_length + 4) (store_dword message_length status m))

-- A reply as its caller gets it; `header` is the size of the system's PORT_MESSAGE. The system copies as
-- much data as DataLength says.
abbrev pub Delivers : (header : ℕ) → (Message → Message) → Type 0
Delivers header deliver =
    (m : Message) (i : ℕ) → header ≤ i → i < header + load_word 0 m → deliver m i ≡ m i
