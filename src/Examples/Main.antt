-- ===== src/Examples/Main.antt =====
-- The functions `main` of client/main.cpp and server/main.cpp.
use service_call.Base.{
  ℕ, ◌≡◌, refl, Bool, true, false, not, ◌&&◌, List, Option, none, some, ◌==◌, if◌then◌else◌, ◌>>=◌,
  length, arith,
}
use service_call.Status.{nt_success}
use service_call.Parameter.{Arch, Blob}
use service_call.ClientIds.{Globals}
use service_call.Enums.SystemInformation.{system_process_information}
use service_call.Client.Defs
use service_call.Server.Register
use service_call.Server.Register.{Handle, null, service, is_bad_access, initialize_service}
use service_call.Examples.Client
use service_call.Examples.Client.{Query, Called, query_call, bs_query_system_information}
use service_call.Examples.Server
use service_call.Examples.Server.{bs_register_service, register_request}
use service_call.Examples.Query.{queried, is_through, data_offset, answer, query_call-called}
use service_call.Examples.Served.{registered, bs_register_service-service}

abbrev is_service : Handle → Bool
is_service service = true
is_service _ = false

-- How a program ends: `abort`, a return from `main`, an exception that nobody catches, or never.
pub data Ending : Type 0 where
  aborted : Ending
  returned : Ending
  thrown : Ending
  endless : Ending

-- What the client's `main` meets: the system at its two calls and what the uninitialised local of each holds; `len`
-- after the first call; and the address that `new char[len]` gives, 0 if there is no memory.
pub record World : Type 0 where
  pub first : Defs.Answers
  pub first_before : ℕ
  pub length_stored : ℕ
  pub second : Defs.Answers
  pub second_before : ℕ
  pub place : ℕ → ℕ

-- The two queries, with `len` at `address`.
abbrev pub length_query : (address : ℕ) → Query
length_query address = record {
  information_class = system_process_information;
  buffer = 0;
  buffer_size = 0;
  return_length = address;
}

abbrev pub buffer_query : (address buffer size : ℕ) → Query
buffer_query address buffer size = record {
  information_class = system_process_information;
  buffer = buffer;
  buffer_size = size;
  return_length = address;
}

module _ (w : World) (prog : Client.Program) (arch : Arch) (address : ℕ) where
  -- From `new char[len]` on, after a call that left `c`.
  unfoldable pub with_buffer : Called → Option Ending
  with_buffer c =
      let buffer = w.place w.length_stored in
      if buffer == 0 then some thrown else do
        status ←
            bs_query_system_information w.second c.message_length prog arch w.second_before
              c.param.parameters (buffer_query address buffer w.length_stored)
        some (if nt_success status then returned else aborted)

  -- `main` of the client; `memory` is what the static list's memory holds.
  unfoldable pub client_main : (memory : List Blob) → Option Ending
  client_main memory = do
    c ← query_call w.first 0 prog arch w.first_before memory (length_query address)
    if w.length_stored == 0 then some aborted else with_buffer c

  -- The library's message length after the first call.
  abbrev pub learned : ℕ
  learned =
      if is_through w.first 0 prog (length_query address) then data_offset w.first 0 prog else 0

  with_buffer-ends :
      (c : Called)
      → length c.param.parameters ≡ 4
      → with_buffer c
        ≡ some (
            if w.place w.length_stored == 0
            then thrown
            else if nt_success (
                answer w.second c.message_length prog w.second_before
                  (buffer_query address (w.place w.length_stored) w.length_stored))
            then returned
            else aborted)
  unfolding with_buffer bs_query_system_information
  with_buffer-ends c e =
      let next = buffer_query address (w.place w.length_stored) w.length_stored in
      let called =
        query_call-called w.second c.message_length prog arch w.second_before c.param.parameters
          next e in
      ground arith

  -- Whatever `new` left in the memory of the static list of four blobs, `main` of the client ends. It returns
  -- exactly if the first call stored a length, there is memory for a buffer of that length, and the
  -- answer to the second call, which asks for this buffer and length with the message length learned from
  -- the first, is a success; without memory an exception ends it, and otherwise it aborts.
  pub client_main-ends :
      (memory : List Blob)
      → length memory ≡ 4
      → client_main memory
        ≡ some (
            if w.length_stored == 0
            then aborted
            else if w.place w.length_stored == 0
            then thrown
            else if nt_success (
                answer w.second learned prog w.second_before
                  (buffer_query address (w.place w.length_stored) w.length_stored))
            then returned
            else aborted)
  unfolding client_main
  client_main-ends memory e =
      let q = length_query address in
      let called : Called = record {
        status = answer w.first 0 prog w.first_before q;
        message_length = learned;
        param = queried q;
      } in
      let rest = with_buffer-ends called refl in
      rw (query_call-called w.first 0 prog arch w.first_before memory q e) (ground arith)

-- The global variables before ScInitializeService.
abbrev pub unset : Globals
unset = record { critical_section = none; client_id_list = none; system_lpc_message_length = 0 }

-- `main` of the server: ScUnregisterServiceRoutine comes after an endless loop.
unfoldable pub server_main :
    Arch
    → (architecture : ℕ) → Register.Answers
    → Server.Program
    → (memory : List Blob) → Option Ending
server_main arch architecture sys prog memory = do
  handle ← bs_register_service arch sys (initialize_service architecture unset).1 prog memory
  some (if is_service handle then endless else returned)

-- Whatever `new` left in the memory of the list of four blobs: `main` of the server serves for ever exactly if
-- its addresses and the name can be read and written, the port can be made and WaitThread be started;
-- otherwise it returns. ScInitializeService cannot fail.
pub server_main-serves :
    (arch : Arch) (architecture : ℕ) (sys : Register.Answers) (prog : Server.Program)
    (memory : List Blob)
    → length memory ≡ 4
    → server_main arch architecture sys prog memory
      ≡ some (
          if not (is_bad_access arch sys (register_request prog registered))
            && (nt_success sys.create_port_status && sys.create_thread)
          then endless
          else returned)
unfolding server_main initialize_service
server_main-serves arch architecture sys prog memory e =
    rw
      (bs_register_service-service arch sys (initialize_service architecture unset).1 prog memory e)
      (ground arith)
