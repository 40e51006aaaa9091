-- ===== src/Layout/Processes.antt =====
-- What the system tells of handles, threads and processes: structures of ServiceCall/Native.h.
use service_call.Base.{[], ◌∷◌}
use service_call.Layout.{CType, Fields, structure, array}
use service_call.Layout.Windows.{WinTypes, fields}
use service_call.Layout.Basic.{unicode_string}
use service_call.Layout.Structs.{client_id, dword, pointer, qword, short}

abbrev pub system_handle_table_entry_info_ex_fields : Fields
system_handle_table_entry_info_ex_fields =
    fields (pointer ∷ pointer ∷ pointer ∷ dword ∷ short ∷ short ∷ dword ∷ dword ∷ [])

abbrev pub system_handle_table_entry_info_ex : CType
system_handle_table_entry_info_ex = structure (system_handle_table_entry_info_ex_fields)

abbrev pub system_handle_information_ex_fields : Fields
system_handle_information_ex_fields =
    fields (pointer ∷ pointer ∷ (array 1 system_handle_table_entry_info_ex) ∷ [])

abbrev pub system_handle_information_ex : CType
system_handle_information_ex = structure (system_handle_information_ex_fields)

abbrev pub system_thread_fields : Fields
system_thread_fields = fields (
    qword ∷ qword ∷ qword ∷ dword ∷ pointer ∷ client_id ∷ dword ∷ dword ∷ dword ∷ dword ∷ dword
    ∷ [])

abbrev pub system_thread : CType
system_thread = structure (system_thread_fields)

abbrev pub thread_basic_information_fields : Fields
thread_basic_information_fields =
    fields (dword ∷ pointer ∷ client_id ∷ pointer ∷ dword ∷ dword ∷ [])

abbrev pub thread_basic_information : CType
thread_basic_information = structure (thread_basic_information_fields)

abbrev pub vm_counters_fields : Fields
vm_counters_fields = fields (
    pointer ∷ pointer ∷ dword ∷ pointer ∷ pointer ∷ pointer ∷ pointer ∷ pointer ∷ pointer ∷ pointer
    ∷ pointer ∷ [])

abbrev pub vm_counters : CType
vm_counters = structure (vm_counters_fields)

abbrev pub system_process_fields : WinTypes → Fields
system_process_fields w = fields (
    dword ∷ dword ∷ qword ∷ dword ∷ dword ∷ qword ∷ qword ∷ qword ∷ qword ∷ unicode_string ∷ dword
    ∷ pointer ∷ pointer ∷ dword ∷ dword ∷ pointer ∷ vm_counters ∷ pointer ∷ w.io_counters ∷ [])

abbrev pub system_process : WinTypes → CType
system_process w = structure (system_process_fields w)

abbrev pub system_process_information_fields : Fields
system_process_information_fields = fields (
    dword
    ∷ dword
    ∷ qword
    ∷ dword
    ∷ dword
    ∷ qword
    ∷ qword
    ∷ qword
    ∷ qword
    ∷ unicode_string
    ∷ dword
    ∷ pointer
    ∷ pointer
    ∷ dword
    ∷ dword
    ∷ pointer
    ∷ pointer
    ∷ pointer
    ∷ dword
    ∷ pointer
    ∷ pointer
    ∷ pointer
    ∷ pointer
    ∷ pointer
    ∷ pointer
    ∷ pointer
    ∷ pointer
    ∷ pointer
    ∷ qword
    ∷ qword
    ∷ qword
    ∷ qword
    ∷ qword
    ∷ qword
    ∷ (array 1 system_thread)
    ∷ [])

abbrev pub system_process_information : CType
system_process_information = structure (system_process_information_fields)

abbrev pub process_basic_information_fields : Fields
process_basic_information_fields =
    fields (dword ∷ pointer ∷ pointer ∷ dword ∷ pointer ∷ pointer ∷ [])

abbrev pub process_basic_information : CType
process_basic_information = structure (process_basic_information_fields)
