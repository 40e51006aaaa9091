-- ===== src/Ntdll/Ports.antt =====
-- The wrappers of ServiceCall/NtPort.cpp.
use service_call.Base.{ℕ, [], ◌∷◌}
use service_call.Layout.Structs.{byte, dword, pointer}
use service_call.Ntdll.{Call, pass, via_rtl_get_nt_proc_address}

abbrev pub nt_accept_connect_port :
    (server_port_handle alternative_receive_port_handle connection_reply accept_connection
      server_shared_memory client_shared_memory : ℕ)
    → Call
nt_accept_connect_port server_port_handle alternative_receive_port_handle connection_reply
      accept_connection server_shared_memory client_shared_memory =
    record {
      lookup = via_rtl_get_nt_proc_address;
      export_name = "NtAcceptConnectPort";
      arguments =
          pass pointer server_port_handle
          ∷ pass pointer alternative_receive_port_handle
          ∷ pass pointer connection_reply
          ∷ pass byte accept_connection
          ∷ pass pointer server_shared_memory
          ∷ pass pointer client_shared_memory
          ∷ [];
    }

abbrev pub nt_complete_connect_port : (port_handle : ℕ) → Call
nt_complete_connect_port port_handle = record {
  lookup = via_rtl_get_nt_proc_address;
  export_name = "NtCompleteConnectPort";
  arguments = pass pointer port_handle ∷ [];
}

abbrev pub nt_connect_port :
    (client_port_handle server_port_name security_qos client_shared_memory server_shared_memory
      maximum_message_length connection_info connection_info_length : ℕ)
    → Call
nt_connect_port client_port_handle server_port_name security_qos client_shared_memory
      server_shared_memory maximum_message_length connection_info connection_info_length =
    record {
      lookup = via_rtl_get_nt_proc_address;
      export_name = "NtConnectPort";
      arguments =
          pass pointer client_port_handle
          ∷ pass pointer server_port_name
          ∷ pass pointer security_qos
          ∷ pass pointer client_shared_memory
          ∷ pass pointer server_shared_memory
          ∷ pass pointer maximum_message_length
          ∷ pass pointer connection_info
          ∷ pass pointer connection_info_length
          ∷ [];
    }

abbrev pub nt_create_port :
    (port_handle object_attributes max_connect_info_length max_data_length reserved : ℕ) → Call
nt_create_port port_handle object_attributes max_connect_info_length max_data_length reserved =
    record {
      lookup = via_rtl_get_nt_proc_address;
      export_name = "NtCreatePort";
      arguments =
          pass pointer port_handle
          ∷ pass pointer object_attributes
          ∷ pass dword max_connect_info_length
          ∷ pass dword max_data_length
          ∷ pass pointer reserved
          ∷ [];
    }

abbrev pub nt_impersonate_client_of_port : (port_handle request : ℕ) → Call
nt_impersonate_client_of_port port_handle request = record {
  lookup = via_rtl_get_nt_proc_address;
  export_name = "NtImpersonateClientOfPort";
  arguments = pass pointer port_handle ∷ pass pointer request ∷ [];
}

abbrev pub nt_listen_port : (port_handle connection_request : ℕ) → Call
nt_listen_port port_handle connection_request = record {
  lookup = via_rtl_get_nt_proc_address;
  export_name = "NtListenPort";
  arguments = pass pointer port_handle ∷ pass pointer connection_request ∷ [];
}

abbrev pub nt_query_information_port :
    (port_handle port_information_class port_information size result_length : ℕ) → Call
nt_query_information_port port_handle port_information_class port_information size result_length =
    record {
      lookup = via_rtl_get_nt_proc_address;
      export_name = "NtQueryInformationPort";
      arguments =
          pass pointer port_handle
          ∷ pass dword port_information_class
          ∷ pass pointer port_information
          ∷ pass dword size
          ∷ pass pointer result_length
          ∷ [];
    }

abbrev pub nt_read_request_data :
    (port_handle request data_index buffer size result_length : ℕ) → Call
nt_read_request_data port_handle request data_index buffer size result_length = record {
  lookup = via_rtl_get_nt_proc_address;
  export_name = "NtReadRequestData";
  arguments =
      pass pointer port_handle
      ∷ pass pointer request
      ∷ pass dword data_index
      ∷ pass pointer buffer
      ∷ pass dword size
      ∷ pass pointer result_length
      ∷ [];
}

abbrev pub nt_reply_port : (port_handle reply : ℕ) → Call
nt_reply_port port_handle reply = record {
  lookup = via_rtl_get_nt_proc_address;
  export_name = "NtReplyPort";
  arguments = pass pointer port_handle ∷ pass pointer reply ∷ [];
}

abbrev pub nt_reply_wait_receive_port :
    (port_handle receive_port_handle reply incoming_request : ℕ) → Call
nt_reply_wait_receive_port port_handle receive_port_handle reply incoming_request = record {
  lookup = via_rtl_get_nt_proc_address;
  export_name = "NtReplyWaitReceivePort";
  arguments =
      pass pointer port_handle
      ∷ pass pointer receive_port_handle
      ∷ pass pointer reply
      ∷ pass pointer incoming_request
      ∷ [];
}

abbrev pub nt_reply_wait_reply_port : (port_handle reply : ℕ) → Call
nt_reply_wait_reply_port port_handle reply = record {
  lookup = via_rtl_get_nt_proc_address;
  export_name = "NtReplyWaitReplyPort";
  arguments = pass pointer port_handle ∷ pass pointer reply ∷ [];
}

abbrev pub nt_request_port : (port_handle request : ℕ) → Call
nt_request_port port_handle request = record {
  lookup = via_rtl_get_nt_proc_address;
  export_name = "NtRequestPort";
  arguments = pass pointer port_handle ∷ pass pointer request ∷ [];
}

abbrev pub nt_request_wait_reply_port : (port_handle request incoming_reply : ℕ) → Call
nt_request_wait_reply_port port_handle request incoming_reply = record {
  lookup = via_rtl_get_nt_proc_address;
  export_name = "NtRequestWaitReplyPort";
  arguments = pass pointer port_handle ∷ pass pointer request ∷ pass pointer incoming_reply ∷ [];
}

abbrev pub nt_write_request_data :
    (port_handle request data_index buffer size result_length : ℕ) → Call
nt_write_request_data port_handle request data_index buffer size result_length = record {
  lookup = via_rtl_get_nt_proc_address;
  export_name = "NtWriteRequestData";
  arguments =
      pass pointer port_handle
      ∷ pass pointer request
      ∷ pass dword data_index
      ∷ pass pointer buffer
      ∷ pass dword size
      ∷ pass pointer result_length
      ∷ [];
}
