-- ===== src/Enums/Kernel.antt =====
-- The shorter enumerations of ServiceCall/Native.h and ServiceCall/NtPort.h. A constant without a value
-- has that of the one before it, and 1.
use service_call.Base.{ℕ, List, [], ◌∷◌}

-- KWAIT_REASON.
pub data WaitReason : Type 0 where
  executive free_page page_in pool_allocation delay_execution suspended user_request wr_executive
        wr_free_page wr_page_in wr_pool_allocation wr_delay_execution wr_suspended wr_user_request
        wr_event_pair wr_queue wr_lpc_receive wr_lpc_reply wr_virtual_memory wr_page_out
        wr_rendezvous spare2 spare3 spare4 spare5 spare6 wr_kernel maximum_wait_reason :
      WaitReason

abbrev pub wait_reason_value : WaitReason → ℕ
wait_reason_value executive = 0
wait_reason_value free_page = 1
wait_reason_value page_in = 2
wait_reason_value pool_allocation = 3
wait_reason_value delay_execution = 4
wait_reason_value suspended = 5
wait_reason_value user_request = 6
wait_reason_value wr_executive = 7
wait_reason_value wr_free_page = 8
wait_reason_value wr_page_in = 9
wait_reason_value wr_pool_allocation = 10
wait_reason_value wr_delay_execution = 11
wait_reason_value wr_suspended = 12
wait_reason_value wr_user_request = 13
wait_reason_value wr_event_pair = 14
wait_reason_value wr_queue = 15
wait_reason_value wr_lpc_receive = 16
wait_reason_value wr_lpc_reply = 17
wait_reason_value wr_virtual_memory = 18
wait_reason_value wr_page_out = 19
wait_reason_value wr_rendezvous = 20
wait_reason_value spare2 = 21
wait_reason_value spare3 = 22
wait_reason_value spare4 = 23
wait_reason_value spare5 = 24
wait_reason_value spare6 = 25
wait_reason_value wr_kernel = 26
wait_reason_value maximum_wait_reason = 27

-- The constants in the order of their declaration.
abbrev pub wait_reason_constants : List WaitReason
wait_reason_constants =
    executive ∷ free_page ∷ page_in ∷ pool_allocation ∷ delay_execution ∷ suspended ∷ user_request
    ∷ wr_executive ∷ wr_free_page ∷ wr_page_in ∷ wr_pool_allocation ∷ wr_delay_execution
    ∷ wr_suspended ∷ wr_user_request ∷ wr_event_pair ∷ wr_queue ∷ wr_lpc_receive ∷ wr_lpc_reply
    ∷ wr_virtual_memory ∷ wr_page_out ∷ wr_rendezvous ∷ spare2 ∷ spare3 ∷ spare4 ∷ spare5 ∷ spare6
    ∷ wr_kernel ∷ maximum_wait_reason ∷ []

-- THREAD_STATE.
pub data ThreadState : Type 0 where
  state_initialised state_ready state_running state_standby state_terminated state_wait
        state_transition state_unknown :
      ThreadState

abbrev pub thread_state_value : ThreadState → ℕ
thread_state_value state_initialised = 0
thread_state_value state_ready = 1
thread_state_value state_running = 2
thread_state_value state_standby = 3
thread_state_value state_terminated = 4
thread_state_value state_wait = 5
thread_state_value state_transition = 6
thread_state_value state_unknown = 7

-- The constants in the order of their declaration.
abbrev pub thread_state_constants : List ThreadState
thread_state_constants =
    state_initialised ∷ state_ready ∷ state_running ∷ state_standby ∷ state_terminated ∷ state_wait
    ∷ state_transition ∷ state_unknown ∷ []

-- POOL_TYPE.
pub data PoolType : Type 0 where
  non_paged_pool paged_pool non_paged_pool_must_succeed dont_use_this_type
        non_paged_pool_cache_aligned paged_pool_cache_aligned non_paged_pool_cache_aligned_must_s
        max_pool_type non_paged_pool_session paged_pool_session non_paged_pool_must_succeed_session
        dont_use_this_type_session non_paged_pool_cache_aligned_session
        paged_pool_cache_aligned_session non_paged_pool_cache_aligned_must_s_session :
      PoolType

abbrev pub pool_type_value : PoolType → ℕ
pool_type_value non_paged_pool = 0
pool_type_value paged_pool = 1
pool_type_value non_paged_pool_must_succeed = 2
pool_type_value dont_use_this_type = 3
pool_type_value non_paged_pool_cache_aligned = 4
pool_type_value paged_pool_cache_aligned = 5
pool_type_value non_paged_pool_cache_aligned_must_s = 6
pool_type_value max_pool_type = 7
pool_type_value non_paged_pool_session = 32
pool_type_value paged_pool_session = 33
pool_type_value non_paged_pool_must_succeed_session = 34
pool_type_value dont_use_this_type_session = 35
pool_type_value non_paged_pool_cache_aligned_session = 36
pool_type_value paged_pool_cache_aligned_session = 37
pool_type_value non_paged_pool_cache_aligned_must_s_session = 38

-- The constants in the order of their declaration.
abbrev pub pool_type_constants : List PoolType
pool_type_constants =
    non_paged_pool ∷ paged_pool ∷ non_paged_pool_must_succeed ∷ dont_use_this_type
    ∷ non_paged_pool_cache_aligned ∷ paged_pool_cache_aligned ∷ non_paged_pool_cache_aligned_must_s
    ∷ max_pool_type ∷ non_paged_pool_session ∷ paged_pool_session
    ∷ non_paged_pool_must_succeed_session ∷ dont_use_this_type_session
    ∷ non_paged_pool_cache_aligned_session ∷ paged_pool_cache_aligned_session
    ∷ non_paged_pool_cache_aligned_must_s_session ∷ []

-- OBJECT_INFORMATION_CLASS.
pub data ObjectInformationClass : Type 0 where
  object_basic_information object_name_information object_type_information object_all_information
        object_data_information :
      ObjectInformationClass

abbrev pub object_information_class_value : ObjectInformationClass → ℕ
object_information_class_value object_basic_information = 0
object_information_class_value object_name_information = 1
object_information_class_value object_type_information = 2
object_information_class_value object_all_information = 3
object_information_class_value object_data_information = 4

-- The constants in the order of their declaration.
abbrev pub object_information_class_constants : List ObjectInformationClass
object_information_class_constants =
    object_basic_information ∷ object_name_information ∷ object_type_information
    ∷ object_all_information ∷ object_data_information ∷ []

-- LPC_TYPE.
pub data LpcType : Type 0 where
  lpc_new_message lpc_request lpc_reply lpc_datagram lpc_lost_reply lpc_port_closed lpc_client_died
        lpc_exception lpc_debug_event lpc_error_event lpc_connection_request lpc_connection_refused
        lpc_maximum :
      LpcType

abbrev pub lpc_type_value : LpcType → ℕ
lpc_type_value lpc_new_message = 0
lpc_type_value lpc_request = 1
lpc_type_value lpc_reply = 2
lpc_type_value lpc_datagram = 3
lpc_type_value lpc_lost_reply = 4
lpc_type_value lpc_port_closed = 5
lpc_type_value lpc_client_died = 6
lpc_type_value lpc_exception = 7
lpc_type_value lpc_debug_event = 8
lpc_type_value lpc_error_event = 9
lpc_type_value lpc_connection_request = 10
lpc_type_value lpc_connection_refused = 11
lpc_type_value lpc_maximum = 12

-- The constants in the order of their declaration.
abbrev pub lpc_type_constants : List LpcType
lpc_type_constants =
    lpc_new_message ∷ lpc_request ∷ lpc_reply ∷ lpc_datagram ∷ lpc_lost_reply ∷ lpc_port_closed
    ∷ lpc_client_died ∷ lpc_exception ∷ lpc_debug_event ∷ lpc_error_event ∷ lpc_connection_request
    ∷ lpc_connection_refused ∷ lpc_maximum ∷ []

-- MEMORY_INFORMATION_CLASS.
pub data MemoryInformationClass : Type 0 where
  memory_basic_information : MemoryInformationClass

abbrev pub memory_information_class_value : MemoryInformationClass → ℕ
memory_information_class_value memory_basic_information = 0

-- PORT_INFORMATION_CLASS.
pub data PortInformationClass : Type 0 where
  port_no_information : PortInformationClass

abbrev pub port_information_class_value : PortInformationClass → ℕ
port_information_class_value port_no_information = 0
