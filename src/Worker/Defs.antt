-- ===== src/Worker/Defs.antt =====
-- What WorkerThread does between its two critical sections, up to the status that it sends back.
use service_call.Base.{ℕ, zero, suc, ◌%◌, ◌^◌, not, List, [], ◌∷◌, ◌==◌, if◌then◌else◌, bit_and}
use service_call.Status.{status_invalid_parameter, status_access_denied}
use service_call.Parameter.{Arch, x86, x64, Blob, RoutineParameter, is_set, vl_bit}
use service_call.Memory.{System, Cmd, pure, ◌>>=◌, ◌>>◌, load_parameters}
use service_call.Mapping.Defs.{map_parameters, sync, unmap}

-- The 32-bit build cuts a value to the size that the mask states, and a pointer to 32 bits.
unfoldable pub truncate_blob : Blob → Blob
truncate_blob b =
    if is_set b.parameter_mask vl_bit
    then if is_set b.parameter_mask 0b00000100
      then record b { ul_parameter = bit_and b.ul_parameter 0xffffffff }
      else if is_set b.parameter_mask 0b00000010
      then record b { ul_parameter = bit_and b.ul_parameter 0xffff }
      else if is_set b.parameter_mask 0b00000001
      then record b { ul_parameter = bit_and b.ul_parameter 0xff }
      else b
    else record b { ul_parameter = bit_and b.ul_parameter 0xffffffff }

-- The loop over the parameters, `n` of them; it reads no blob that is not there.
unfoldable pub truncate_loop : ℕ → List Blob → List Blob
truncate_loop zero bs = bs
truncate_loop (suc n) [] = []
truncate_loop (suc n) (b ∷ bs) = truncate_blob b ∷ truncate_loop n bs

-- The part under `#ifndef _WIN64`.
unfoldable pub truncate_parameters : Arch → RoutineParameter → RoutineParameter
truncate_parameters x86 p = record p { parameters = truncate_loop p.parameter_count p.parameters }
truncate_parameters x64 p = p

-- What __x86ServiceCall and __x64ServiceCall push for a blob: the DWORD or the QWORD at its offset 8.
unfoldable pub argument : Arch → Blob → ℕ
argument x86 b = b.ul_parameter % 2 ^ 32
argument x64 b = b.ul_parameter % 2 ^ 64

-- The arguments of the routine, the first one first.
unfoldable pub arguments : Arch → ℕ → List Blob → List ℕ
arguments arch zero bs = []
arguments arch (suc n) [] = []
arguments arch (suc n) (b ∷ bs) = argument arch b ∷ arguments arch n bs

-- A service routine takes its arguments and returns its NTSTATUS.
abbrev pub Routine : Type 0 → Type 0
Routine C = List ℕ → Cmd C ℕ

module _ {C : Type 0} (sys : System C) (arch : Arch) (process : ℕ) (routine : Routine C) where
  -- The call with the mapped list, and the copies back.
  unfoldable pub serve_mapped : RoutineParameter → (mapped : ℕ) → Cmd C ℕ
  serve_mapped p mapped = do
    q ← load_parameters mapped
    status ← routine (arguments arch q.parameter_count q.parameters)
    fine ← sync sys process p mapped
    unmap mapped
    pure (if not fine then status_access_denied else status)

  -- The mapping and the call, with the status that the client is sent.
  unfoldable pub serve : RoutineParameter → Cmd C ℕ
  serve p = do
    mapped ← map_parameters sys arch process p
    if mapped == 0 then pure status_invalid_parameter else serve_mapped p mapped

  -- WorkerThread from its first critical section to its second.
  unfoldable pub work : RoutineParameter → Cmd C ℕ
  work p = serve (truncate_parameters arch p)
