-- ===== src/Memory.antt =====
-- The memory of the service process and the calls that reach outside it: `new` and `delete`, and
-- NtReadVirtualMemory and NtWriteVirtualMemory on the client's process (parameters here).
pub mod Ensures
pub mod Owned
pub mod Write
pub mod Sample
use service_call.Status.{nt_success}
use service_call.Base.{
  ◌⊎◌, ◌≤◌, true, ℕ, zero, suc, ◌+◌, Bool, Option, none, some, List, [], ◌∷◌, ◌==◌, if◌then◌else◌,
  leb, length, ◌≡◌, ◌≢◌,
}
use service_call.Parameter.{Blob, RoutineParameter}

-- What a block of the heap holds: bytes that nobody has written, a buffer, or a parameter list.
pub data Block : Type 0 where
  raw : ℕ → Block
  bytes : List ℕ → Block
  parameters : RoutineParameter → Block

abbrev pub Heap : Type 0
Heap = ℕ → Option Block

unfoldable pub write : Heap → ℕ → Option Block → Heap
write h p c a = if a == p then c else h a

-- The heap of this process, and the state of the clients' processes, which is not ours to know.
pub record Machine (C : Type 0) : Type 0 where
  pub heap : Heap
  pub client : C

-- What the program takes from the system. `place h n` is the address that `new char[n]` gives, 0 if
-- there is no memory; `stale i` is what lies at blob `i` of a fresh block. The calls on a process
-- return their NTSTATUS, with the buffer's new content or with the processes' new state.
pub record System (C : Type 0) : Type 0 where
  pub place : Heap → ℕ → ℕ
  pub stale : ℕ → Blob
  pub read_virtual : C → (process address size : ℕ) → ℕ × List ℕ
  pub write_virtual : C → (process address : ℕ) → List ℕ → ℕ → ℕ × C

-- `new` never gives an address in use.
abbrev pub PlacesFresh : {C : Type 0} → System C → Type 0
PlacesFresh sys = (h : Heap) (n : ℕ) → sys.place h n ≢ 0 → h (sys.place h n) ≡ none

-- The bytes from `a` on, `n` of them, and those from `a'` on, `n'` of them, have none in common.
abbrev pub Apart : (a n a' n' : ℕ) → Type 0
Apart a n a' n' = (a + n ≤ a') ⊎ (a' + n' ≤ a)

-- What the program relies on of the calls on a process's memory: what was written is read, a
-- write, also one that fails, leaves the bytes elsewhere alone, and a read fills its buffer.
pub record IsMemory {C : Type 0} (sys : System C) : Type 0 where
  pub read-write :
      (c : C) (process a : ℕ) (bs : List ℕ) (n : ℕ)
      → length bs ≡ n
      → nt_success (sys.write_virtual c process a bs n).0 ≡ true
      → (sys.read_virtual (sys.write_virtual c process a bs n).1 process a n).1 ≡ bs
  pub read_elsewhere :
      (c : C) (process a : ℕ) (bs : List ℕ) (n a' n' : ℕ)
      → Apart a' n' a n
      → sys.read_virtual (sys.write_virtual c process a bs n).1 process a' n'
        ≡ sys.read_virtual c process a' n'
  pub fills :
      (c : C) (process a n : ℕ)
      → nt_success (sys.read_virtual c process a n).0 ≡ true
      → length (sys.read_virtual c process a n).1 ≡ n

abbrev pub as_parameters : Option Block → Option RoutineParameter
as_parameters none = none
as_parameters (some (raw n)) = none
as_parameters (some (bytes bs)) = none
as_parameters (some (parameters p)) = some p

abbrev pub as_bytes : Option Block → Option (List ℕ)
as_bytes none = none
as_bytes (some (raw n)) = none
as_bytes (some (bytes bs)) = some bs
as_bytes (some (parameters p)) = none

-- `fault` is an access outside a block, or a `delete` of what is no block; `bad_alloc` is the
-- exception that a plain `new` throws.
pub data Run (C A : Type 0) : Type 0 where
  ok : A → Machine C → Run C A
  fault : Run C A
  bad_alloc : Run C A

abbrev pub Cmd : Type 0 → Type 0 → Type 0
Cmd C A = Machine C → Run C A

module _ {C : Type 0} where
  abbrev pub pure : {A : Type 0} → A → Cmd C A
  pure = ok

  abbrev pub and_then : {A B : Type 0} → Run C A → (A → Cmd C B) → Run C B
  and_then (ok a m) k = k a m
  and_then fault k = fault
  and_then bad_alloc k = bad_alloc

  infixl 5 ◌>>=◌ ◌>>◌
  abbrev pub ◌>>=◌ : {A B : Type 0} → Cmd C A → (A → Cmd C B) → Cmd C B
  c >>= k = λ m. and_then (c m) k

  abbrev pub ◌>>◌ : {A B : Type 0} → Cmd C A → Cmd C B → Cmd C B
  c >> d = c >>= λ _. d

  -- Assigns a whole block, or gives it back.
  abbrev pub assign : ℕ → Option Block → Cmd C (Unit {0})
  assign p c m = ok tt (record m { heap = write m.heap p c })

  -- `new(std::nothrow) char[n]`.
  unfoldable pub new_nothrow : System C → ℕ → Cmd C ℕ
  new_nothrow sys n m =
      let p = sys.place m.heap n in
      if p == 0 then ok 0 m else ok p (record m { heap = write m.heap p (some (raw n)) })

  -- `new char[n]`.
  unfoldable pub new_array : System C → ℕ → Cmd C ℕ
  new_array sys n m =
      let p = sys.place m.heap n in
      if p == 0 then bad_alloc else ok p (record m { heap = write m.heap p (some (raw n)) })

  -- `delete[] p`.
  unfoldable pub delete_array : ℕ → Cmd C (Unit {0})
  delete_array p m = if p == 0 then ok tt m else elim (m.heap p) [
    | none ↦ fault
    | some _ ↦ ok tt (record m { heap = write m.heap p none })
  ]

  -- The parameter list at an address.
  unfoldable pub load_parameters : ℕ → Cmd C RoutineParameter
  load_parameters p m = elim (as_parameters (m.heap p)) [ none ↦ fault | some q ↦ ok q m ]

  -- The buffer at an address, of at least `size` bytes.
  unfoldable pub load_bytes : (p size : ℕ) → Cmd C (List ℕ)
  load_bytes p size m = elim (as_bytes (m.heap p)) [
    | none ↦ fault
    | some bs ↦ if leb size (length bs) then ok bs m else fault
  ]

  -- NtReadVirtualMemory into the block at `p`.
  unfoldable pub read_memory : System C → (process address p size : ℕ) → Cmd C ℕ
  read_memory sys process address p size m =
      let answer = sys.read_virtual m.client process address size in
      ok answer.0 (record m { heap = write m.heap p (some (bytes answer.1)) })

  -- NtWriteVirtualMemory.
  unfoldable pub write_memory : System C → (process address : ℕ) → List ℕ → ℕ → Cmd C ℕ
  write_memory sys process address buffer size m =
      let answer = sys.write_virtual m.client process address buffer size in
      ok answer.0 (record m { client = answer.1 })
