-- ===== src/Ntdll.antt =====
-- The wrappers of ServiceCall/NtPort.cpp and ServiceCall/Native.cpp. Each of them looks a function up by
-- name and calls it through a pointer that is cast to a type; a wrapper is the call that it makes.
-- The loader (GetModuleHandleA, GetProcAddress) and the code at an address are not of this program.
pub mod Ports
pub mod Objects
pub mod Processes
pub mod Memory
pub mod PortPrototypes
pub mod NativePrototypes
pub mod Rows
pub mod PortRows
pub mod ObjectRows
pub mod MemoryRows
pub mod Exports
mod Tests
use Prim.Native.String.{String}
use service_call.Base.{ℕ, List, [], ◌∷◌, Option, none, some, ◌==◌, if◌then◌else◌}
use service_call.Layout.{CType}

-- A value, passed as a parameter of a type.
pub record Argument : Type 0 where
  pub type : CType
  pub value : ℕ

abbrev pub pass : CType → ℕ → Argument
pass type value = record { type = type; value = value }

-- How a wrapper finds the function.
pub data Lookup : Type 0 where
  via_rtl_get_nt_proc_address : Lookup
  via_get_nt_proc_address : Lookup
  via_module : String → Lookup

pub record Call : Type 0 where
  pub lookup : Lookup
  pub export_name : String
  pub arguments : List Argument

-- GetModuleHandleA, GetProcAddress (0 is the null pointer), and what the code at an address does on a
-- state of the system: its result and the new state.
pub record Loader (C : Type 0) : Type 0 where
  pub get_module_handle : String → ℕ
  pub get_proc_address : (module_handle : ℕ) → String → ℕ
  pub run : (address : ℕ) → List Argument → C → ℕ × C

module _ {C : Type 0} (loader : Loader C) where
  abbrev pub rtl_get_nt_proc_address : String → ℕ
  rtl_get_nt_proc_address name = loader.get_proc_address (loader.get_module_handle "ntdll.dll") name

  abbrev pub get_nt_proc_address : String → ℕ
  get_nt_proc_address name = loader.get_proc_address (loader.get_module_handle "ntdll.dll") name

  abbrev pub address_of : Lookup → String → ℕ
  address_of via_rtl_get_nt_proc_address name = rtl_get_nt_proc_address name
  address_of via_get_nt_proc_address name = get_nt_proc_address name
  address_of (via_module file) name = loader.get_proc_address (loader.get_module_handle file) name

  -- A wrapper's run; `none` is a call through the null pointer.
  unfoldable pub perform : Call → C → Option (ℕ × C)
  perform call c =
      let address = address_of call.lookup call.export_name in
      if address == 0 then none else some (loader.run address call.arguments c)
