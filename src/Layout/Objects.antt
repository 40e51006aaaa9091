-- ===== src/Layout/Objects.antt =====
-- What the system tells of objects and logon sessions, and the parameters of a heap: structures of
-- ServiceCall/Native.h.
use service_call.Base.{[], ◌∷◌}
use service_call.Layout.{CType, Fields, structure, array}
use service_call.Layout.Windows.{WinTypes, fields}
use service_call.Layout.Basic.{unicode_string}
use service_call.Layout.Structs.{byte, dword, pointer, qword, short}

abbrev pub object_type_information_fields : WinTypes → Fields
object_type_information_fields w = fields (
    unicode_string
    ∷ dword
    ∷ dword
    ∷ (array 8 short)
    ∷ dword
    ∷ dword
    ∷ (array 8 short)
    ∷ dword
    ∷ w.generic_mapping
    ∷ dword
    ∷ byte
    ∷ byte
    ∷ short
    ∷ dword
    ∷ dword
    ∷ dword
    ∷ [])

abbrev pub object_type_information : WinTypes → CType
object_type_information w = structure (object_type_information_fields w)

abbrev pub object_all_information_fields : WinTypes → Fields
object_all_information_fields w =
    fields (dword ∷ (array w.anysize_array (object_type_information w)) ∷ [])

abbrev pub object_all_information : WinTypes → CType
object_all_information w = structure (object_all_information_fields w)

abbrev pub object_basic_information_fields : Fields
object_basic_information_fields = fields (
    dword
    ∷ dword
    ∷ dword
    ∷ dword
    ∷ dword
    ∷ dword
    ∷ (array 3 dword)
    ∷ dword
    ∷ dword
    ∷ dword
    ∷ qword
    ∷ [])

abbrev pub object_basic_information : CType
object_basic_information = structure (object_basic_information_fields)

abbrev pub object_name_information_fields : WinTypes → Fields
object_name_information_fields w = fields (unicode_string ∷ (array w.anysize_array short) ∷ [])

abbrev pub object_name_information : WinTypes → CType
object_name_information w = structure (object_name_information_fields w)

abbrev pub object_data_information_fields : Fields
object_data_information_fields = fields (byte ∷ byte ∷ [])

abbrev pub object_data_information : CType
object_data_information = structure (object_data_information_fields)

abbrev pub lsa_last_inter_logon_info_fields : Fields
lsa_last_inter_logon_info_fields = fields (qword ∷ qword ∷ dword ∷ [])

abbrev pub lsa_last_inter_logon_info : CType
lsa_last_inter_logon_info = structure (lsa_last_inter_logon_info_fields)

abbrev pub security_logon_session_data_fields : WinTypes → Fields
security_logon_session_data_fields w = fields (
    dword ∷ w.luid ∷ unicode_string ∷ unicode_string ∷ unicode_string ∷ dword ∷ dword ∷ pointer
    ∷ qword ∷ unicode_string ∷ unicode_string ∷ unicode_string ∷ dword ∷ lsa_last_inter_logon_info
    ∷ unicode_string ∷ unicode_string ∷ unicode_string ∷ unicode_string ∷ qword ∷ qword ∷ qword
    ∷ qword ∷ qword ∷ [])

abbrev pub security_logon_session_data : WinTypes → CType
security_logon_session_data w = structure (security_logon_session_data_fields w)

abbrev pub rtl_heap_parameters_fields : Fields
rtl_heap_parameters_fields = fields (
    dword
    ∷ pointer
    ∷ pointer
    ∷ pointer
    ∷ pointer
    ∷ pointer
    ∷ pointer
    ∷ pointer
    ∷ pointer
    ∷ pointer
    ∷ (array 2 pointer)
    ∷ [])

abbrev pub rtl_heap_parameters : CType
rtl_heap_parameters = structure (rtl_heap_parameters_fields)
