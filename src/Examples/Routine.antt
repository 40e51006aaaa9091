-- ===== src/Examples/Routine.antt =====
-- The routine BsQuerySystemInformation of server/main.cpp, as WorkerThread calls it. NtQuerySystemInformation is
-- not of this program; neither is what lies on the stack behind the arguments.
use service_call.Base.{ℕ, zero, suc, List, [], ◌∷◌, Option, none, some, if◌then◌else◌}
use service_call.ClientIds.{Globals, rtl_client_id}
use service_call.Memory.{Cmd}
use service_call.Worker.Defs.{Routine}

-- What `printf` is given.
pub record Line : Type 0 where
  pub process : ℕ
  pub process_id : ℕ
  pub information_class : ℕ
  pub buffer : ℕ
  pub buffer_size : ℕ

-- Argument `i` of a call, or what is on the stack where it is looked for.
abbrev pub argument_or : (ℕ → ℕ) → ℕ → List ℕ → ℕ
argument_or stack i [] = stack i
argument_or stack zero (a ∷ args) = a
argument_or stack (suc i) (a ∷ args) = argument_or stack i args

-- The line, if RtlClientId stored a process and its id.
abbrev pub line : Option (ℕ × ℕ) → (information_class buffer buffer_size : ℕ) → List Line
line none c b n = []
line (some (process, process_id)) c b n =
    record {
      process = process;
      process_id = process_id;
      information_class = c;
      buffer = b;
      buffer_size = n;
    }
    ∷ []

module _ {C : Type 0} (get_process_id : ℕ → ℕ) (g : Globals) (thread : ℕ)
    (nt_query_system_information : (information_class buffer buffer_size return_length : ℕ)
      → Cmd C ℕ)
    (stack : ℕ → ℕ) where
  -- BsQuerySystemInformation: what it prints, and what it does.
  unfoldable pub bs_query_system_information_routine : List ℕ → List Line × Cmd C ℕ
  bs_query_system_information_routine args =
      let c = argument_or stack 0 args in
      let b = argument_or stack 1 args in
      let n = argument_or stack 2 args in
      let found = rtl_client_id get_process_id g thread in
      (
        if found.0 then line found.1 c b n else [],
        nt_query_system_information c b n (argument_or stack 3 args),
      )

  -- The routine that the service is registered with.
  abbrev pub query_routine : Routine C
  query_routine args = (bs_query_system_information_routine args).1
