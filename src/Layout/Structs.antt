-- ===== src/Layout/Structs.antt =====
-- The structures that the two sides of a port share, field by field.
use service_call.Layout.{CType, scalar, array, structure, union, Fields, end, field}

abbrev pub byte : CType
byte = scalar 1 1

-- CSHORT, USHORT and WORD.
abbrev pub short : CType
short = scalar 2 2

-- DWORD, ULONG and BOOL.
abbrev pub dword : CType
dword = scalar 4 4

-- ULONG64 and double.
abbrev pub qword : CType
qword = scalar 8 8

-- HANDLE, PVOID and SIZE_T.
abbrev pub pointer : CType
pointer = scalar 4 8

abbrev pub client_id : CType
client_id = structure (field pointer (field pointer end))

abbrev pub port_message : CType
port_message = structure (
    field (union (field (structure (field short (field short end))) (field dword end))) (
      field (union (field (structure (field short (field short end))) (field dword end))) (
        field (union (field client_id (field qword end)))
          (field dword (field (union (field pointer (field dword end))) end)))))

abbrev pub lpcp_message_fields : Fields
lpcp_message_fields = field (array 0x14 byte) (field port_message end)

abbrev pub lpcp_message : CType
lpcp_message = structure lpcp_message_fields

abbrev pub lpcp_connection_message : CType
lpcp_connection_message = structure (field (array 0x2c byte) end)

-- `Reserved1 : 3` takes a byte of its own.
abbrev pub service_parameter_blob_fields : Fields
service_parameter_blob_fields = field byte (
    field byte (
      field dword
        (field (union (field (structure (field dword (field dword end))) (field qword end))) end)))

abbrev pub service_parameter_blob : CType
service_parameter_blob = structure service_parameter_blob_fields

-- Parameters[0] has no size, and the alignment of its elements.
abbrev pub service_routine_parameter_fields : Fields
service_routine_parameter_fields =
    field dword (field dword (field (array 0 service_parameter_blob) end))

abbrev pub service_routine_parameter : CType
service_routine_parameter = structure service_routine_parameter_fields

abbrev pub service_routine : CType
service_routine = structure (
    field pointer (
      field pointer
        (field pointer (field pointer (field pointer (field pointer (field dword end)))))))
