-- ===== src/Layout/Threads.antt =====
-- A thread's environment block: structures of ServiceCall/Native.h. Bit-fields that share a unit are
-- one field of its type.
use service_call.Base.{[], ◌∷◌, ◌++◌}
use service_call.Parameter.{Arch}
use service_call.Layout.{CType, Fields, structure, array, union}
use service_call.Layout.Windows.{WinTypes, fields, by_arch, gdi_batch_buffer_size}
use service_call.Layout.Basic.{unicode_string}
use service_call.Layout.Structs.{byte, client_id, dword, pointer, short}

abbrev pub gdi_teb_batch_fields : Fields
gdi_teb_batch_fields = fields (dword ∷ pointer ∷ (array gdi_batch_buffer_size dword) ∷ [])

abbrev pub gdi_teb_batch : CType
gdi_teb_batch = structure (gdi_teb_batch_fields)

abbrev pub teb_active_frame_context_fields : Fields
teb_active_frame_context_fields = fields (dword ∷ pointer ∷ [])

abbrev pub teb_active_frame_context : CType
teb_active_frame_context = structure (teb_active_frame_context_fields)

abbrev pub teb_active_frame_fields : Fields
teb_active_frame_fields = fields (dword ∷ pointer ∷ pointer ∷ [])

abbrev pub teb_active_frame : CType
teb_active_frame = structure (teb_active_frame_fields)

abbrev pub teb_fields : Arch → WinTypes → Fields
teb_fields arch w = fields (
    (w.nt_tib
      ∷ pointer
      ∷ client_id
      ∷ pointer
      ∷ pointer
      ∷ pointer
      ∷ dword
      ∷ dword
      ∷ pointer
      ∷ pointer
      ∷ (array 26 dword)
      ∷ (array 5 dword)
      ∷ pointer
      ∷ dword
      ∷ dword
      ∷ (array 54 pointer)
      ∷ dword
      ∷ pointer
      ∷ [])
    ++ (by_arch arch ((array 36 byte) ∷ []) ((array 24 byte) ∷ []))
    ++ (dword
        ∷ gdi_teb_batch
        ∷ client_id
        ∷ pointer
        ∷ dword
        ∷ dword
        ∷ pointer
        ∷ (array 62 pointer)
        ∷ (array 233 pointer)
        ∷ (array 29 pointer)
        ∷ pointer
        ∷ pointer
        ∷ pointer
        ∷ pointer
        ∷ pointer
        ∷ pointer
        ∷ dword
        ∷ unicode_string
        ∷ (array 261 short)
        ∷ pointer
        ∷ (array 64 pointer)
        ∷ w.list_entry
        ∷ pointer
        ∷ pointer
        ∷ (array 2 pointer)
        ∷ dword
        ∷ [])
    ++ (by_arch arch ((array 9 pointer) ∷ []) ((array 11 pointer) ∷ []))
    ++ (w.guid
        ∷ pointer
        ∷ pointer
        ∷ pointer
        ∷ pointer
        ∷ dword
        ∷ (union (
            fields (
              w.processor_number
              ∷ dword
              ∷ (structure (fields (byte ∷ byte ∷ byte ∷ byte ∷ [])))
              ∷ [])))
        ∷ dword
        ∷ pointer
        ∷ pointer
        ∷ dword
        ∷ pointer
        ∷ pointer
        ∷ pointer
        ∷ pointer
        ∷ [])
    ++ (by_arch arch ([]) (pointer ∷ pointer ∷ []))
    ++ (dword
        ∷ dword
        ∷ pointer
        ∷ pointer
        ∷ dword
        ∷ pointer
        ∷ pointer
        ∷ pointer
        ∷ pointer
        ∷ pointer
        ∷ pointer
        ∷ dword
        ∷ (union (fields (short ∷ short ∷ [])))
        ∷ (union (fields (short ∷ (structure (fields (short ∷ []))) ∷ [])))
        ∷ pointer
        ∷ pointer
        ∷ pointer
        ∷ dword
        ∷ dword
        ∷ pointer
        ∷ pointer
        ∷ []))

abbrev pub teb : Arch → WinTypes → CType
teb arch w = structure (teb_fields arch w)
