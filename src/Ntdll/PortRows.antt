-- ===== src/Ntdll/PortRows.antt =====
-- Each wrapper of ServiceCall/NtPort.cpp beside its name and its prototype.
use service_call.Base.{ℕ, List, [], ◌∷◌}
use service_call.Ntdll.Rows.{Row}
use service_call.Ntdll.Ports.{
  nt_accept_connect_port, nt_complete_connect_port, nt_connect_port, nt_create_port,
  nt_impersonate_client_of_port, nt_listen_port, nt_query_information_port, nt_read_request_data,
  nt_reply_port, nt_reply_wait_receive_port, nt_reply_wait_reply_port, nt_request_port,
  nt_request_wait_reply_port, nt_write_request_data,
}
use service_call.Ntdll.PortPrototypes.{
  nt_accept_connect_port_prototype, nt_complete_connect_port_prototype, nt_connect_port_prototype,
  nt_create_port_prototype, nt_impersonate_client_of_port_prototype, nt_listen_port_prototype,
  nt_query_information_port_prototype, nt_read_request_data_prototype, nt_reply_port_prototype,
  nt_reply_wait_receive_port_prototype, nt_reply_wait_reply_port_prototype,
  nt_request_port_prototype, nt_request_wait_reply_port_prototype, nt_write_request_data_prototype,
}

-- The arguments are `v 0`, `v 1` and so on.
abbrev pub port_rows : (v : ℕ → ℕ) → List Row
port_rows v =
    record {
      name = "NtAcceptConnectPort";
      prototype = nt_accept_connect_port_prototype;
      call = nt_accept_connect_port (v 0) (v 1) (v 2) (v 3) (v 4) (v 5);
    }
    ∷ record {
      name = "NtCompleteConnectPort";
      prototype = nt_complete_connect_port_prototype;
      call = nt_complete_connect_port (v 0);
    }
    ∷ record {
      name = "NtConnectPort";
      prototype = nt_connect_port_prototype;
      call = nt_connect_port (v 0) (v 1) (v 2) (v 3) (v 4) (v 5) (v 6) (v 7);
    }
    ∷ record {
      name = "NtCreatePort";
      prototype = nt_create_port_prototype;
      call = nt_create_port (v 0) (v 1) (v 2) (v 3) (v 4);
    }
    ∷ record {
      name = "NtImpersonateClientOfPort";
      prototype = nt_impersonate_client_of_port_prototype;
      call = nt_impersonate_client_of_port (v 0) (v 1);
    }
    ∷ record {
      name = "NtListenPort";
      prototype = nt_listen_port_prototype;
      call = nt_listen_port (v 0) (v 1);
    }
    ∷ record {
      name = "NtQueryInformationPort";
      prototype = nt_query_information_port_prototype;
      call = nt_query_information_port (v 0) (v 1) (v 2) (v 3) (v 4);
    }
    ∷ record {
      name = "NtReadRequestData";
      prototype = nt_read_request_data_prototype;
      call = nt_read_request_data (v 0) (v 1) (v 2) (v 3) (v 4) (v 5);
    }
    ∷ record {
      name = "NtReplyPort";
      prototype = nt_reply_port_prototype;
      call = nt_reply_port (v 0) (v 1);
    }
    ∷ record {
      name = "NtReplyWaitReceivePort";
      prototype = nt_reply_wait_receive_port_prototype;
      call = nt_reply_wait_receive_port (v 0) (v 1) (v 2) (v 3);
    }
    ∷ record {
      name = "NtReplyWaitReplyPort";
      prototype = nt_reply_wait_reply_port_prototype;
      call = nt_reply_wait_reply_port (v 0) (v 1);
    }
    ∷ record {
      name = "NtRequestPort";
      prototype = nt_request_port_prototype;
      call = nt_request_port (v 0) (v 1);
    }
    ∷ record {
      name = "NtRequestWaitReplyPort";
      prototype = nt_request_wait_reply_port_prototype;
      call = nt_request_wait_reply_port (v 0) (v 1) (v 2);
    }
    ∷ record {
      name = "NtWriteRequestData";
      prototype = nt_write_request_data_prototype;
      call = nt_write_request_data (v 0) (v 1) (v 2) (v 3) (v 4) (v 5);
    }
    ∷ []
