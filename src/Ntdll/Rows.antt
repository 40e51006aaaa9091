-- ===== src/Ntdll/Rows.antt =====
-- A wrapper beside the name and the prototype under which it is declared, and what it is to be faithful.
use Prim.Native.String.{String}
use text.Mathlib.Text.{◌==◌}
use service_call.Base.{ℕ, zero, suc, ◌||◌, if◌then◌else◌, ◌+◌, ◌≡◌, List, [], ◌∷◌, map, length}
use service_call.Parameter.{Arch, x86, x64}
use service_call.Layout.{CType, size_of, round_up}
use service_call.Ntdll.{
  Call, Lookup, via_rtl_get_nt_proc_address, via_get_nt_proc_address, via_module,
}

pub record Row : Type 0 where
  pub name : String
  pub prototype : List CType
  pub call : Call

-- `v i`, `v (i + 1)` and so on, `n` of them.
abbrev pub from_to : (v : ℕ → ℕ) → (i n : ℕ) → List ℕ
from_to v i zero = []
from_to v i (suc n) = v i ∷ from_to v (suc i) n

abbrev pub types : Call → List CType
types call = map (λ a. a.type) call.arguments

abbrev pub values : Call → List ℕ
values call = map (λ a. a.value) call.arguments

-- The bytes of parameters on the stack, or in registers for which the stack has room: a whole number of
-- words.
abbrev pub stack_size : Arch → List CType → ℕ
stack_size arch [] = 0
stack_size x86 (t ∷ ts) = round_up (size_of x86 t) 4 + stack_size x86 ts
stack_size x64 (t ∷ ts) = 8 + stack_size x64 ts

-- The module that has a function of a name.
abbrev pub home : String → String
home name =
    if name == "CreateProcessInternalA" || name == "CreateProcessInternalW"
    then "kernel32.dll"
    else "ntdll.dll"

-- The file in which a wrapper looks.
abbrev pub file_of : Lookup → String
file_of via_rtl_get_nt_proc_address = "ntdll.dll"
file_of via_get_nt_proc_address = "ntdll.dll"
file_of (via_module file) = file

-- The function is looked up in its module by the wrapper's own name, gets the wrapper's own arguments in their order,
-- and is called with parameters of the sizes that the prototype has.
pub record IsFaithful (arch : Arch) (v : ℕ → ℕ) (row : Row) : Type 0 where
  pub named : row.call.export_name ≡ row.name
  pub placed : file_of row.call.lookup ≡ home row.name
  pub passed : values row.call ≡ from_to v 0 (length row.prototype)
  pub typed : map (size_of arch) (types row.call) ≡ map (size_of arch) row.prototype

abbrev pub AllFaithful : Arch → (ℕ → ℕ) → List Row → Type 0
AllFaithful arch v [] = Unit
AllFaithful arch v (row ∷ rows) = IsFaithful arch v row × AllFaithful arch v rows
