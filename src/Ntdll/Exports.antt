-- ===== src/Ntdll/Exports.antt =====
-- What the wrappers do in a process that has loaded modules with given exports.
use Prim.Native.String.{String}
use service_call.Base.{
  ℕ, ◌≡◌, refl, ◌≢◌, ap, List, [], ◌∷◌, ◌++◌, map, length, Option, none, some, false, arith, ◌==◌,
}
use service_call.Parameter.{Arch, x86, x64}
use service_call.Layout.{CType, size_of}
use service_call.Ntdll.{
  Argument, Call, Loader, Lookup, via_rtl_get_nt_proc_address, via_get_nt_proc_address, via_module,
  address_of, perform,
}
use service_call.Ntdll.Rows.{
  Row, IsFaithful, AllFaithful, file_of, home, from_to, types, values, stack_size,
}
use service_call.Ntdll.PortRows.{port_rows}
use service_call.Ntdll.ObjectRows.{object_rows}
use service_call.Ntdll.MemoryRows.{memory_rows}

port_rows-AllFaithful : (arch : Arch) (v : ℕ → ℕ) → AllFaithful arch v (port_rows v)
port_rows-AllFaithful arch v = ground arith

object_rows-AllFaithful : (arch : Arch) (v : ℕ → ℕ) → AllFaithful arch v (object_rows v)
object_rows-AllFaithful arch v = ground arith

memory_rows-AllFaithful : (arch : Arch) (v : ℕ → ℕ) → AllFaithful arch v (memory_rows v)
memory_rows-AllFaithful arch v = ground arith

-- All wrappers.
abbrev pub rows : (ℕ → ℕ) → List Row
rows v = port_rows v ++ (object_rows v ++ memory_rows v)

AllFaithful-append :
    (arch : Arch) (v : ℕ → ℕ) (xs ys : List Row)
    → AllFaithful arch v xs
    → AllFaithful arch v ys
    → AllFaithful arch v (xs ++ ys)
AllFaithful-append arch v [] ys f g = g
AllFaithful-append arch v (x ∷ xs) ys f g = (f.0, AllFaithful-append arch v xs ys f.1 g)

rows-AllFaithful : (arch : Arch) (v : ℕ → ℕ) → AllFaithful arch v (rows v)
rows-AllFaithful arch v =
    AllFaithful-append arch v (port_rows v) (object_rows v ++ memory_rows v)
      (port_rows-AllFaithful arch v)
      (AllFaithful-append arch v (object_rows v) (memory_rows v) (object_rows-AllFaithful arch v)
        (memory_rows-AllFaithful arch v))

stack_size-sizes :
    (arch : Arch) (ts us : List CType)
    → map (size_of arch) ts ≡ map (size_of arch) us
    → stack_size arch ts ≡ stack_size arch us
stack_size-sizes arch [] [] e = refl
stack_size-sizes arch [] (u ∷ us) e = cc
stack_size-sizes arch (t ∷ ts) [] e = cc
stack_size-sizes x86 (t ∷ ts) (u ∷ us) e = ground (arith, stack_size-sizes x86 ts us)
stack_size-sizes x64 (t ∷ ts) (u ∷ us) e = ground (arith, stack_size-sizes x64 ts us)

-- What a file exports under a name.
abbrev pub Exports : Type 0 → Type 0
Exports C = (file name : String) → Option (List Argument → C → ℕ × C)

-- The loader finds exactly the exports, at addresses that are not null.
pub record IsLoaded {C : Type 0} (loader : Loader C) (exports : Exports C) : Type 0 where
  pub absent :
      (file name : String)
      → exports file name ≡ none
      → loader.get_proc_address (loader.get_module_handle file) name ≡ 0
  pub found :
      (file name : String) (code : List Argument → C → ℕ × C)
      → exports file name ≡ some code
      → let address = loader.get_proc_address (loader.get_module_handle file) name in
        (address ≢ 0)
        × ((arguments : List Argument) (c : C) → loader.run address arguments c ≡ code arguments c)

-- The export's run, if there is one.
abbrev pub run_export :
    {C : Type 0} → Option (List Argument → C → ℕ × C) → List Argument → C → Option (ℕ × C)
run_export none arguments c = none
run_export (some code) arguments c = some (code arguments c)

module _ {C : Type 0} (loader : Loader C) (exports : Exports C)
    (loaded : IsLoaded loader exports) where
  -- A wrapper runs what the module that has the function exports under its name, on its own arguments, which take up as many bytes as
  -- its prototype says.
  pub record Implements (arch : Arch) (v : ℕ → ℕ) (row : Row) : Type 0 where
    pub runs :
        (c : C)
        → perform loader row.call c
          ≡ run_export (exports (home row.name) row.name) row.call.arguments c
    pub passed : values row.call ≡ from_to v 0 (length row.prototype)
    pub balanced : stack_size arch (types row.call) ≡ stack_size arch row.prototype

  abbrev pub AllImplement : Arch → (ℕ → ℕ) → List Row → Type 0
  AllImplement arch v [] = Unit
  AllImplement arch v (row ∷ rows) = Implements arch v row × AllImplement arch v rows

  address_of-file :
      (lookup : Lookup) (name : String)
      → address_of loader lookup name
        ≡ loader.get_proc_address (loader.get_module_handle (file_of lookup)) name
  address_of-file via_rtl_get_nt_proc_address name = refl
  address_of-file via_get_nt_proc_address name = refl
  address_of-file (via_module file) name = refl

  perform-export :
      (call : Call) (c : C) (found : Option (List Argument → C → ℕ × C))
      → exports (file_of call.lookup) call.export_name ≡ found
      → perform loader call c ≡ run_export found call.arguments c
  unfolding perform
  perform-export call c none e =
      let a = address_of-file call.lookup call.export_name in
      let z = loaded.absent (file_of call.lookup) call.export_name e in rw a (rw z refl)
  perform-export call c (some code) e =
      let a = address_of-file call.lookup call.export_name in
      let f = loaded.found (file_of call.lookup) call.export_name code e in
      let some_address : (loader.get_proc_address (loader.get_module_handle (file_of call.lookup))
              call.export_name
            == 0)
          ≡ false =
        ground arith in
      rw a (rw some_address (ap some (f.1 call.arguments c)))

  Implements-row :
      (arch : Arch) (v : ℕ → ℕ) (row : Row) → IsFaithful arch v row → Implements arch v row
  Implements-row arch v row f = record {
    runs = λ c.
        rw⁻¹ (f.placed, f.named)
          (perform-export row.call c (exports (file_of row.call.lookup) row.call.export_name) refl);
    passed = f.passed;
    balanced = stack_size-sizes arch (types row.call) row.prototype f.typed;
  }

  all_implement :
      (arch : Arch) (v : ℕ → ℕ) (rows : List Row)
      → AllFaithful arch v rows
      → AllImplement arch v rows
  all_implement arch v [] f = tt
  all_implement arch v (row ∷ rows) f =
      (Implements-row arch v row f.0, all_implement arch v rows f.1)

  -- On both builds and for all arguments: each of the 47 wrappers runs what ntdll.dll, or kernel32.dll for
  -- CreateProcessInternalA and CreateProcessInternalW, exports under the wrapper's own name, and calls through the null pointer if there is no such
  -- export; it passes its own arguments in their order; and the parameters of the type to which it
  -- casts take up as many bytes of the stack as those of its prototype.
  rows-AllImplement : (arch : Arch) (v : ℕ → ℕ) → AllImplement arch v (rows v)
  rows-AllImplement arch v = all_implement arch v (rows v) (rows-AllFaithful arch v)
