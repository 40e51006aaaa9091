-- ===== src/Layout.antt =====
-- How the compiler lays structures out, and the structures of ServiceCall/ServiceCall.h,
-- ServiceCall/NtPort.h and ServiceCall/ServiceCall.cpp.
pub mod Structs
pub mod Windows
pub mod Basic
pub mod Processes
pub mod Environment
pub mod Threads
pub mod Objects
pub mod Blocks
pub mod Messages
mod Attributes
mod Tests
use service_call.Base.{
  ℕ, zero, suc, ◌+◌, ◌-◌, ◌*◌, ◌%◌, ◌==◌, ltb, if◌then◌else◌, Option, none, some,
}
use service_call.Parameter.{Arch, x86, x64}

-- A type: one of a size of its own, which is its alignment too, on each build, or an array, or the
-- fields of a structure or of a union.
mutual
  pub data CType : Type 0 where
    scalar : (size32 size64 : ℕ) → CType
    array : ℕ → CType → CType
    structure : Fields → CType
    union : Fields → CType

  pub data Fields : Type 0 where
    end : Fields
    field : CType → Fields → Fields

abbrev pub larger : ℕ → ℕ → ℕ
larger a b = if ltb a b then b else a

-- The first multiple of `alignment` from `offset` on.
unfoldable pub round_up : (offset alignment : ℕ) → ℕ
round_up offset alignment =
    if offset % alignment == 0 then offset else offset + (alignment - offset % alignment)

unfoldable mutual
  pub align_of : Arch → CType → ℕ
  align_of x86 (scalar a b) = a
  align_of x64 (scalar a b) = b
  align_of arch (array n t) = align_of arch t
  align_of arch (structure fs) = fields_align arch fs
  align_of arch (union fs) = fields_align arch fs

  pub fields_align : Arch → Fields → ℕ
  fields_align arch end = 1
  fields_align arch (field t fs) = larger (align_of arch t) (fields_align arch fs)

-- `sizeof`; where a structure's fields end, if they start at `offset`; and the size of a union's largest.
unfoldable mutual
  unfolding align_of round_up

  pub size_of : Arch → CType → ℕ
  size_of x86 (scalar a b) = a
  size_of x64 (scalar a b) = b
  size_of arch (array n t) = n * size_of arch t
  size_of arch (structure fs) = round_up (fields_end arch 0 fs) (fields_align arch fs)
  size_of arch (union fs) = round_up (fields_largest arch fs) (fields_align arch fs)

  pub fields_end : Arch → ℕ → Fields → ℕ
  fields_end arch offset end = offset
  fields_end arch offset (field t fs) =
      fields_end arch (round_up offset (align_of arch t) + size_of arch t) fs

  pub fields_largest : Arch → Fields → ℕ
  fields_largest arch end = 0
  fields_largest arch (field t fs) = larger (size_of arch t) (fields_largest arch fs)

-- The field number `i`: its offset and its type, if the fields start at `offset`.
unfoldable pub locate : Arch → (offset : ℕ) → Fields → ℕ → Option (ℕ × CType)
locate arch offset end i = none
locate arch offset (field t fs) zero = some (round_up offset (align_of arch t), t)
locate arch offset (field t fs) (suc i) =
    locate arch (round_up offset (align_of arch t) + size_of arch t) fs i
