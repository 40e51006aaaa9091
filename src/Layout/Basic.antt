-- ===== src/Layout/Basic.antt =====
-- Strings and sections: structures of ServiceCall/Native.h and ServiceCall/NtPort.h.
use service_call.Base.{[], ◌∷◌}
use service_call.Layout.{CType, Fields, structure}
use service_call.Layout.Windows.{fields}
use service_call.Layout.Structs.{dword, pointer, port_message, qword, short}

abbrev pub unicode_string_fields : Fields
unicode_string_fields = fields (short ∷ short ∷ pointer ∷ [])

abbrev pub unicode_string : CType
unicode_string = structure (unicode_string_fields)

abbrev pub string_fields : Fields
string_fields = fields (short ∷ short ∷ pointer ∷ [])

abbrev pub string : CType
string = structure (string_fields)

abbrev pub object_attributes_fields : Fields
object_attributes_fields = fields (dword ∷ pointer ∷ pointer ∷ dword ∷ pointer ∷ pointer ∷ [])

abbrev pub object_attributes : CType
object_attributes = structure (object_attributes_fields)

abbrev pub lpc_section_memory_fields : Fields
lpc_section_memory_fields = fields (dword ∷ dword ∷ pointer ∷ [])

abbrev pub lpc_section_memory : CType
lpc_section_memory = structure (lpc_section_memory_fields)

abbrev pub lpc_section_owner_memory_fields : Fields
lpc_section_owner_memory_fields = fields (dword ∷ pointer ∷ dword ∷ dword ∷ pointer ∷ pointer ∷ [])

abbrev pub lpc_section_owner_memory : CType
lpc_section_owner_memory = structure (lpc_section_owner_memory_fields)

abbrev pub lpc_termination_message_fields : Fields
lpc_termination_message_fields = fields (port_message ∷ qword ∷ [])

abbrev pub lpc_termination_message : CType
lpc_termination_message = structure (lpc_termination_message_fields)
