-- ===== src/Examples/QueryTests.antt =====
-- A query with a buffer of two bytes, and the routine that answers it.
use service_call.Base.{ℕ, ◌+◌, ◌≤◌, ◌≡◌, refl, [], ◌∷◌, some, arith}
use service_call.Parameter.{x64, copied, capture, buffer_size}
use service_call.ClientIds.{
  Globals, rtl_client_id, safe_thread_service_client_id, answer_of, find_client,
}
use service_call.Memory.{Cmd, ok}
use service_call.Server.Wait.{Turn, Ended, handed, turn}
use service_call.Layout.Messages.{max_connection_size}
use service_call.Examples.Client.{Query}
use service_call.Examples.Query.{queried, query_parameters-queried}
use service_call.Examples.Served.{
  registered, registered_parameters-registered, query_parameters-handed,
}
use service_call.Examples.Routine.{bs_query_system_information_routine}
use service_call.Examples.Tests.{first_query, fresh, undisturbed}

-- The query of a buffer of two bytes.
abbrev second_query : Query
second_query = record first_query { buffer = 0x3000; buffer_size = 2 }

abbrev globals : Globals
globals = record {
  critical_section = some tt;
  client_id_list = some (record { process = 1; thread = 7 } ∷ []);
  system_lpc_message_length = 40;
}

-- An NtQuerySystemInformation that is not there.
abbrev missing : (information_class buffer buffer_size return_length : ℕ) → Cmd (ℕ → ℕ) ℕ
missing c b n r m = ok 0xc0000002 m

-- The routine prints what RtlClientId finds for its thread, and calls on with its arguments.
line_runs :
    (bs_query_system_information_routine
      (λ p. p + 100)
      globals
      7
      missing
      (λ i. 0)
      (5 ∷ 0x10 ∷ 2 ∷ 0x18 ∷ [])).0
    ≡ record {
      process = 1;
      process_id = 101;
      information_class = 5;
      buffer = 0x10;
      buffer_size = 2;
    }
      ∷ []
unfolding bs_query_system_information_routine rtl_client_id safe_thread_service_client_id answer_of
    find_client
line_runs = refl

abbrev heard : Turn
heard = record undisturbed { connected = queried second_query; received = queried second_query }

query_parameters-handed_example :
    (buffer_size x64 (queried second_query).parameter_count ≤ max_connection_size x64)
    × (capture x64 registered ≡ copied registered.parameters)
    × ((e : Ended) × (turn x64 registered heard ≡ some e)
        × (e.outcome ≡ handed (copied (queried second_query).parameters) heard.create_thread))
query_parameters-handed_example =
    query_parameters-handed x64 fresh fresh second_query (queried second_query) registered heard
      refl refl (query_parameters-queried fresh second_query refl)
      (registered_parameters-registered fresh refl) refl refl refl (omega arith) refl refl refl refl
