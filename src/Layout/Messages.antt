-- ===== src/Layout/Messages.antt =====
-- The sizes of messages in ServiceCall/NtPort.h, and what a message has room for.
use service_call.Base.{
  ℕ, ◌+◌, ◌-◌, ◌%◌, ◌^◌, ◌<◌, ◌≤◌, ◌≡◌, refl, ◌↔◌, arith, bit_and, Option, none, some,
}
use service_call.Parameter.{Arch, x86, x64, buffer_size, blob_size, header_size}
use service_call.Parameter.Capture.{buffer_size-exact}
use service_call.Client.Defs.{lpc_message_length}
use service_call.Server.Unregister.{service_size}
use service_call.Layout.{CType, size_of, locate}
use service_call.Layout.Structs.{
  port_message, lpcp_message, lpcp_message_fields, lpcp_connection_message, service_parameter_blob,
  service_routine_parameter, service_routine,
}

-- N_ROUND_UP, on ULONGs; `~(s - 1)` is 2^32 - s.
unfoldable pub n_round_up : (x s : ℕ) → ℕ
n_round_up x s = bit_and ((x + s - 1) % 2 ^ 32) (2 ^ 32 - s)

abbrev pub port_maximum_message_length : Arch → ℕ
port_maximum_message_length x86 = 256
port_maximum_message_length x64 = 512

unfoldable pub lpcp_max_message_size : Arch → ℕ
unfolding n_round_up size_of
lpcp_max_message_size arch =
    n_round_up
      (port_maximum_message_length arch
        + size_of arch lpcp_message
        + size_of arch lpcp_connection_message)
      16

-- FIELD_OFFSET.
abbrev pub offset_or_zero : Option (ℕ × CType) → ℕ
offset_or_zero none = 0
offset_or_zero (some found) = found.0

-- ulMaxMessageSize and ulMaxConnectionSize of ScRegisterServiceRoutineW.
unfoldable pub max_message_size : Arch → ℕ
unfolding lpcp_max_message_size locate
max_message_size arch =
    lpcp_max_message_size arch - offset_or_zero (locate arch 0 lpcp_message_fields 1)

unfoldable pub max_connection_size : Arch → ℕ
unfolding max_message_size
max_connection_size arch =
    max_message_size arch - size_of arch port_message - size_of arch lpcp_connection_message

-- wProcessorArchitecture of a system on which the build is native.
abbrev pub native : Arch → ℕ
native x86 = 0
native x64 = 9

-- The most parameters that a connection has room for.
abbrev pub most_parameters : Arch → ℕ
most_parameters x86 = 15
most_parameters x64 = 31

-- On a native system the length that RtlSystemLpcMessageLength gives is the size of a PORT_MESSAGE, and
-- the sizes that the parameters' blocks and the services are computed with are those of the structures.
pub size_of-agrees :
    (arch : Arch)
    → (size_of arch port_message ≡ lpc_message_length (native arch))
      × (size_of arch service_parameter_blob ≡ blob_size)
      × (size_of arch service_routine_parameter ≡ header_size)
      × (size_of arch service_routine ≡ service_size arch)
unfolding size_of lpc_message_length
size_of-agrees x86 = (refl, refl, refl, refl)
size_of-agrees x64 = (refl, refl, refl, refl)

-- A client's parameters, fewer than 2^28, fit in the connection information that a service's port is
-- made for exactly up to 15 parameters on the 32-bit build and 31 on the 64-bit one.
pub buffer_size-fits :
    (arch : Arch) (n : ℕ)
    → n < 2 ^ 28
    → (buffer_size arch n ≤ max_connection_size arch) ↔ (n ≤ most_parameters arch)
unfolding max_connection_size
buffer_size-fits x86 n h = let e = buffer_size-exact x86 n h in (λ k. omega arith, λ k. omega arith)
buffer_size-fits x64 n h = let e = buffer_size-exact x64 n h in (λ k. omega arith, λ k. omega arith)

-- A message with as much data as a connection may carry, of which TotalLength is that of the header and
-- the data, lies in WaitThread's buffer, and so do the client's parameters, which begin behind the
-- header.
pub message_in_buffer :
    (arch : Arch) (data_length total_length : ℕ)
    → data_length ≤ max_connection_size arch
    → total_length ≡ size_of arch port_message + data_length
    → (total_length ≤ lpcp_max_message_size arch)
      × (total_length - data_length ≡ size_of arch port_message)
unfolding max_connection_size
message_in_buffer x86 d t l e = (omega arith, omega arith)
message_in_buffer x64 d t l e = (omega arith, omega arith)
