-- ===== src/Layout/Environment.antt =====
-- A process's environment block and what it refers to: structures of ServiceCall/Native.h. Bit-fields
-- that share a unit are one field of its type.
use service_call.Base.{[], ◌∷◌, ◌/◌}
use service_call.Parameter.{Arch}
use service_call.Layout.{CType, Fields, structure, array, union}
use service_call.Layout.Windows.{WinTypes, fields, gdi_handle_buffer}
use service_call.Layout.Basic.{string, unicode_string}
use service_call.Layout.Structs.{byte, dword, pointer, qword, short}

abbrev pub ldr_module_fields : WinTypes → Fields
ldr_module_fields w = fields (
    w.list_entry ∷ w.list_entry ∷ w.list_entry ∷ pointer ∷ pointer ∷ dword ∷ unicode_string
    ∷ unicode_string ∷ dword ∷ short ∷ short ∷ w.list_entry ∷ dword ∷ [])

abbrev pub ldr_module : WinTypes → CType
ldr_module w = structure (ldr_module_fields w)

abbrev pub peb_ldr_data_fields : WinTypes → Fields
peb_ldr_data_fields w = fields (
    dword ∷ byte ∷ pointer ∷ w.list_entry ∷ w.list_entry ∷ w.list_entry ∷ pointer ∷ byte ∷ pointer
    ∷ [])

abbrev pub peb_ldr_data : WinTypes → CType
peb_ldr_data w = structure (peb_ldr_data_fields w)

abbrev pub curdir_fields : Fields
curdir_fields = fields (unicode_string ∷ pointer ∷ [])

abbrev pub curdir : CType
curdir = structure (curdir_fields)

abbrev pub rtl_drive_letter_curdir_fields : Fields
rtl_drive_letter_curdir_fields = fields (short ∷ short ∷ dword ∷ string ∷ [])

abbrev pub rtl_drive_letter_curdir : CType
rtl_drive_letter_curdir = structure (rtl_drive_letter_curdir_fields)

abbrev pub rtl_user_process_parameters_fields : Fields
rtl_user_process_parameters_fields = fields (
    dword
    ∷ dword
    ∷ dword
    ∷ dword
    ∷ pointer
    ∷ dword
    ∷ pointer
    ∷ pointer
    ∷ pointer
    ∷ curdir
    ∷ unicode_string
    ∷ unicode_string
    ∷ unicode_string
    ∷ pointer
    ∷ dword
    ∷ dword
    ∷ dword
    ∷ dword
    ∷ dword
    ∷ dword
    ∷ dword
    ∷ dword
    ∷ dword
    ∷ unicode_string
    ∷ unicode_string
    ∷ unicode_string
    ∷ unicode_string
    ∷ (array 32 rtl_drive_letter_curdir)
    ∷ dword
    ∷ [])

abbrev pub rtl_user_process_parameters : CType
rtl_user_process_parameters = structure (rtl_user_process_parameters_fields)

abbrev pub peb_fields : Arch → WinTypes → Fields
peb_fields arch w = fields (
    byte
    ∷ byte
    ∷ byte
    ∷ (union (fields (byte ∷ (structure (fields (byte ∷ []))) ∷ [])))
    ∷ pointer
    ∷ pointer
    ∷ pointer
    ∷ pointer
    ∷ pointer
    ∷ pointer
    ∷ pointer
    ∷ pointer
    ∷ pointer
    ∷ (union (fields (dword ∷ (structure (fields (dword ∷ []))) ∷ [])))
    ∷ (union (fields (pointer ∷ pointer ∷ [])))
    ∷ (array 1 dword)
    ∷ dword
    ∷ pointer
    ∷ dword
    ∷ pointer
    ∷ (array 2 dword)
    ∷ pointer
    ∷ pointer
    ∷ pointer
    ∷ pointer
    ∷ pointer
    ∷ pointer
    ∷ dword
    ∷ dword
    ∷ qword
    ∷ pointer
    ∷ pointer
    ∷ pointer
    ∷ pointer
    ∷ dword
    ∷ dword
    ∷ pointer
    ∷ pointer
    ∷ pointer
    ∷ dword
    ∷ pointer
    ∷ dword
    ∷ dword
    ∷ short
    ∷ short
    ∷ dword
    ∷ dword
    ∷ dword
    ∷ dword
    ∷ pointer
    ∷ (gdi_handle_buffer arch)
    ∷ pointer
    ∷ pointer
    ∷ (array 32 dword)
    ∷ dword
    ∷ qword
    ∷ qword
    ∷ pointer
    ∷ pointer
    ∷ unicode_string
    ∷ pointer
    ∷ pointer
    ∷ pointer
    ∷ pointer
    ∷ pointer
    ∷ pointer
    ∷ w.list_entry
    ∷ pointer
    ∷ (array (w.fls_maximum_available / 32) dword)
    ∷ dword
    ∷ pointer
    ∷ pointer
    ∷ pointer
    ∷ pointer
    ∷ (union (fields (dword ∷ (structure (fields (dword ∷ []))) ∷ [])))
    ∷ qword
    ∷ [])

abbrev pub peb : Arch → WinTypes → CType
peb arch w = structure (peb_fields arch w)
