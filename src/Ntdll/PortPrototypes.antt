-- ===== src/Ntdll/PortPrototypes.antt =====
-- The prototypes in ServiceCall/NtPort.h: the types of the parameters.
use service_call.Base.{List, [], ◌∷◌}
use service_call.Layout.{CType}
use service_call.Layout.Structs.{byte, dword, pointer}

abbrev pub nt_accept_connect_port_prototype : List CType
nt_accept_connect_port_prototype = pointer ∷ pointer ∷ pointer ∷ byte ∷ pointer ∷ pointer ∷ []

abbrev pub nt_complete_connect_port_prototype : List CType
nt_complete_connect_port_prototype = pointer ∷ []

abbrev pub nt_connect_port_prototype : List CType
nt_connect_port_prototype =
    pointer ∷ pointer ∷ pointer ∷ pointer ∷ pointer ∷ pointer ∷ pointer ∷ pointer ∷ []

abbrev pub nt_create_port_prototype : List CType
nt_create_port_prototype = pointer ∷ pointer ∷ dword ∷ dword ∷ pointer ∷ []

abbrev pub nt_impersonate_client_of_port_prototype : List CType
nt_impersonate_client_of_port_prototype = pointer ∷ pointer ∷ []

abbrev pub nt_listen_port_prototype : List CType
nt_listen_port_prototype = pointer ∷ pointer ∷ []

abbrev pub nt_query_information_port_prototype : List CType
nt_query_information_port_prototype = pointer ∷ dword ∷ pointer ∷ dword ∷ pointer ∷ []

abbrev pub nt_read_request_data_prototype : List CType
nt_read_request_data_prototype = pointer ∷ pointer ∷ dword ∷ pointer ∷ dword ∷ pointer ∷ []

abbrev pub nt_reply_port_prototype : List CType
nt_reply_port_prototype = pointer ∷ pointer ∷ []

abbrev pub nt_reply_wait_receive_port_prototype : List CType
nt_reply_wait_receive_port_prototype = pointer ∷ pointer ∷ pointer ∷ pointer ∷ []

abbrev pub nt_reply_wait_reply_port_prototype : List CType
nt_reply_wait_reply_port_prototype = pointer ∷ pointer ∷ []

abbrev pub nt_request_port_prototype : List CType
nt_request_port_prototype = pointer ∷ pointer ∷ []

abbrev pub nt_request_wait_reply_port_prototype : List CType
nt_request_wait_reply_port_prototype = pointer ∷ pointer ∷ pointer ∷ []

abbrev pub nt_write_request_data_prototype : List CType
nt_write_request_data_prototype = pointer ∷ pointer ∷ dword ∷ pointer ∷ dword ∷ pointer ∷ []
