-- ===== src/Examples/MainTests.antt =====
-- The client on a system where no call fails.
use service_call.Base.{◌≡◌, refl, some, ◌==◌, if◌then◌else◌}
use service_call.Status.{nt_success}
use service_call.Parameter.{x64}
use service_call.Examples.Query.{answer}
use service_call.Examples.Main.{
  World, aborted, returned, thrown, client_main, learned, buffer_query, client_main-ends,
}
use service_call.Examples.Tests.{answering, client_program, fresh}

-- 16 bytes are asked for and found, and the second call is a success.
abbrev world : World
world = record {
  first = answering;
  first_before = 0xcccccccc;
  length_stored = 16;
  second = record answering { reply_at = λ offset. 0 };
  second_before = 0xcccccccc;
  place = λ n. 0x3000;
}

client_main-ends_example :
    client_main world client_program x64 0x2000 fresh
    ≡ some (
        if world.length_stored == 0
        then aborted
        else if world.place world.length_stored == 0
        then thrown
        else if nt_success (
            answer world.second
              (learned world client_program x64 0x2000)
              client_program
              world.second_before
              (buffer_query 0x2000 (world.place world.length_stored) world.length_stored))
        then returned
        else aborted)
client_main-ends_example = client_main-ends world client_program x64 0x2000 fresh refl
