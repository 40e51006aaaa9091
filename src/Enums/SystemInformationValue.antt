-- ===== src/Enums/SystemInformationValue.antt =====
-- The values of the constants of SYSTEM_INFORMATION_CLASS.
use service_call.Base.{ℕ}
use service_call.Enums.SystemInformation.{
  SystemInformationClass, system_basic_information, system_processor_information,
  system_performance_information, system_time_of_day_information, system_path_information,
  system_process_information, system_call_count_information, system_device_information,
  system_processor_performance_information, system_flags_information, system_call_time_information,
  system_module_information, system_locks_information, system_stack_trace_information,
  system_paged_pool_information, system_non_paged_pool_information, system_handle_information,
  system_object_information, system_page_file_information, system_vdm_instemul_information,
  system_vdm_bop_information, system_file_cache_information, system_pool_tag_information,
  system_interrupt_information, system_dpc_behavior_information, system_full_memory_information,
  system_load_gdi_driver_information, system_unload_gdi_driver_information,
  system_time_adjustment_information, system_summary_memory_information,
  system_mirror_memory_information, system_performance_trace_information,
  system_crash_dump_information, system_exception_information, system_crash_dump_state_information,
  system_kernel_debugger_information, system_context_switch_information,
  system_registry_quota_information, system_extend_service_table_information,
  system_priority_seperation, system_verifier_add_driver_information,
  system_verifier_remove_driver_information, system_processor_idle_information,
  system_legacy_driver_information, system_current_time_zone_information,
  system_lookaside_information, system_time_slip_notification, system_session_create,
  system_session_detach, system_session_information, system_range_start_information,
  system_verifier_information, system_verifier_thunk_extend, system_session_process_information,
  system_load_gdi_driver_in_system_space, system_numa_processor_map, system_prefetcher_information,
  system_extended_process_information, system_recommended_shared_data_alignment,
  system_com_plus_package, system_numa_available_memory, system_processor_power_information,
  system_emulation_basic_information, system_emulation_processor_information,
  system_extended_handle_information, system_lost_delayed_write_information,
  system_big_pool_information, system_session_pool_tag_information,
  system_session_mapped_view_information, system_hotpatch_information, system_object_security_mode,
  system_watchdog_timer_handler, system_watchdog_timer_information,
  system_logical_processor_information, system_wow64_shared_information_obsolete,
  system_register_firmware_table_information_handler, system_firmware_table_information,
  system_module_information_ex, system_verifier_triage_information, system_superfetch_information,
  system_memory_list_information, system_file_cache_information_ex,
  system_thread_priority_client_id_information, system_processor_idle_cycle_time_information,
  system_verifier_cancellation_information, system_processor_power_information_ex,
  system_ref_trace_information, system_special_pool_information, system_process_id_information,
  system_error_port_information, system_boot_environment_information, system_hypervisor_information,
  system_verifier_information_ex, system_time_zone_information,
  system_image_file_execution_options_information, system_coverage_information,
  system_prefetch_patch_information, system_verifier_faults_information,
  system_system_partition_information, system_system_disk_information,
  system_processor_performance_distribution, system_numa_proximity_node_information,
  system_dynamic_time_zone_information, system_code_integrity_information,
  system_processor_microcode_update_information, system_processor_brand_string,
  system_virtual_address_information, system_logical_processor_and_group_information,
  system_processor_cycle_time_information, system_store_information, system_registry_append_string,
  system_ait_sampling_value, system_vhd_boot_information, system_cpu_quota_information,
  system_native_basic_information, system_error_port_timeouts, system_low_priority_io_information,
  system_boot_entropy_information, system_verifier_counters_information,
  system_paged_pool_information_ex, system_system_ptes_information_ex,
  system_node_distance_information, system_acpi_audit_information,
  system_basic_performance_information, system_query_performance_counter_information,
  system_session_big_pool_information, system_boot_graphics_information,
  system_scrub_physical_memory_information, system_bad_page_information,
  system_processor_profile_control_area, system_combine_physical_memory_information,
  system_entropy_interrupt_timing_information, system_console_information,
  system_platform_binary_information, system_throttle_notification_information,
  system_hypervisor_processor_count_information, system_device_data_information,
  system_device_data_enumeration_information, system_memory_topology_information,
  system_memory_channel_information, system_boot_logo_information,
  system_processor_performance_information_ex, system_spare0, system_secure_boot_policy_information,
  system_page_file_information_ex, system_secure_boot_information,
  system_entropy_interrupt_timing_raw_information,
  system_portable_workspace_efi_launcher_information, system_full_process_information,
  max_system_info_class,
}

abbrev pub system_information_class_value : SystemInformationClass → ℕ
system_information_class_value system_basic_information = 0x0000
system_information_class_value system_processor_information = 0x0001
system_information_class_value system_performance_information = 0x0002
system_information_class_value system_time_of_day_information = 0x0003
system_information_class_value system_path_information = 0x0004
system_information_class_value system_process_information = 0x0005
system_information_class_value system_call_count_information = 0x0006
system_information_class_value system_device_information = 0x0007
system_information_class_value system_processor_performance_information = 0x0008
system_information_class_value system_flags_information = 0x0009
system_information_class_value system_call_time_information = 0x000A
system_information_class_value system_module_information = 0x000B
system_information_class_value system_locks_information = 0x000C
system_information_class_value system_stack_trace_information = 0x000D
system_information_class_value system_paged_pool_information = 0x000E
system_information_class_value system_non_paged_pool_information = 0x000F
system_information_class_value system_handle_information = 0x0010
system_information_class_value system_object_information = 0x0011
system_information_class_value system_page_file_information = 0x0012
system_information_class_value system_vdm_instemul_information = 0x0013
system_information_class_value system_vdm_bop_information = 0x0014
system_information_class_value system_file_cache_information = 0x0015
system_information_class_value system_pool_tag_information = 0x0016
system_information_class_value system_interrupt_information = 0x0017
system_information_class_value system_dpc_behavior_information = 0x0018
system_information_class_value system_full_memory_information = 0x0019
system_information_class_value system_load_gdi_driver_information = 0x001A
system_information_class_value system_unload_gdi_driver_information = 0x001B
system_information_class_value system_time_adjustment_information = 0x001C
system_information_class_value system_summary_memory_information = 0x001D
system_information_class_value system_mirror_memory_information = 0x001E
system_information_class_value system_performance_trace_information = 0x001F
system_information_class_value system_crash_dump_information = 0x0020
system_information_class_value system_exception_information = 0x0021
system_information_class_value system_crash_dump_state_information = 0x0022
system_information_class_value system_kernel_debugger_information = 0x0023
system_information_class_value system_context_switch_information = 0x0024
system_information_class_value system_registry_quota_information = 0x0025
system_information_class_value system_extend_service_table_information = 0x0026
system_information_class_value system_priority_seperation = 0x0027
system_information_class_value system_verifier_add_driver_information = 0x0028
system_information_class_value system_verifier_remove_driver_information = 0x0029
system_information_class_value system_processor_idle_information = 0x002A
system_information_class_value system_legacy_driver_information = 0x002B
system_information_class_value system_current_time_zone_information = 0x002C
system_information_class_value system_lookaside_information = 0x002D
system_information_class_value system_time_slip_notification = 0x002E
system_information_class_value system_session_create = 0x002F
system_information_class_value system_session_detach = 0x0030
system_information_class_value system_session_information = 0x0031
system_information_class_value system_range_start_information = 0x0032
system_information_class_value system_verifier_information = 0x0033
system_information_class_value system_verifier_thunk_extend = 0x0034
system_information_class_value system_session_process_information = 0x0035
system_information_class_value system_load_gdi_driver_in_system_space = 0x0036
system_information_class_value system_numa_processor_map = 0x0037
system_information_class_value system_prefetcher_information = 0x0038
system_information_class_value system_extended_process_information = 0x0039
system_information_class_value system_recommended_shared_data_alignment = 0x003A
system_information_class_value system_com_plus_package = 0x003B
system_information_class_value system_numa_available_memory = 0x003C
system_information_class_value system_processor_power_information = 0x003D
system_information_class_value system_emulation_basic_information = 0x003E
system_information_class_value system_emulation_processor_information = 0x003F
system_information_class_value system_extended_handle_information = 0x0040
system_information_class_value system_lost_delayed_write_information = 0x0041
system_information_class_value system_big_pool_information = 0x0042
system_information_class_value system_session_pool_tag_information = 0x0043
system_information_class_value system_session_mapped_view_information = 0x0044
system_information_class_value system_hotpatch_information = 0x0045
system_information_class_value system_object_security_mode = 0x0046
system_information_class_value system_watchdog_timer_handler = 0x0047
system_information_class_value system_watchdog_timer_information = 0x0048
system_information_class_value system_logical_processor_information = 0x0049
system_information_class_value system_wow64_shared_information_obsolete = 0x004A
system_information_class_value system_register_firmware_table_information_handler = 0x004B
system_information_class_value system_firmware_table_information = 0x004C
system_information_class_value system_module_information_ex = 0x004D
system_information_class_value system_verifier_triage_information = 0x004E
system_information_class_value system_superfetch_information = 0x004F
system_information_class_value system_memory_list_information = 0x0050
system_information_class_value system_file_cache_information_ex = 0x0051
system_information_class_value system_thread_priority_client_id_information = 0x0052
system_information_class_value system_processor_idle_cycle_time_information = 0x0053
system_information_class_value system_verifier_cancellation_information = 0x0054
system_information_class_value system_processor_power_information_ex = 0x0055
system_information_class_value system_ref_trace_information = 0x0056
system_information_class_value system_special_pool_information = 0x0057
system_information_class_value system_process_id_information = 0x0058
system_information_class_value system_error_port_information = 0x0059
system_information_class_value system_boot_environment_information = 0x005A
system_information_class_value system_hypervisor_information = 0x005B
system_information_class_value system_verifier_information_ex = 0x005C
system_information_class_value system_time_zone_information = 0x005D
system_information_class_value system_image_file_execution_options_information = 0x005E
system_information_class_value system_coverage_information = 0x005F
system_information_class_value system_prefetch_patch_information = 0x0060
system_information_class_value system_verifier_faults_information = 0x0061
system_information_class_value system_system_partition_information = 0x0062
system_information_class_value system_system_disk_information = 0x0063
system_information_class_value system_processor_performance_distribution = 0x0064
system_information_class_value system_numa_proximity_node_information = 0x0065
system_information_class_value system_dynamic_time_zone_information = 0x0066
system_information_class_value system_code_integrity_information = 0x0067
system_information_class_value system_processor_microcode_update_information = 0x0068
system_information_class_value system_processor_brand_string = 0x0069
system_information_class_value system_virtual_address_information = 0x006A
system_information_class_value system_logical_processor_and_group_information = 0x006B
system_information_class_value system_processor_cycle_time_information = 0x006C
system_information_class_value system_store_information = 0x006D
system_information_class_value system_registry_append_string = 0x006E
system_information_class_value system_ait_sampling_value = 0x006F
system_information_class_value system_vhd_boot_information = 0x0070
system_information_class_value system_cpu_quota_information = 0x0071
system_information_class_value system_native_basic_information = 0x0072
system_information_class_value system_error_port_timeouts = 0x0073
system_information_class_value system_low_priority_io_information = 0x0074
system_information_class_value system_boot_entropy_information = 0x0075
system_information_class_value system_verifier_counters_information = 0x0076
system_information_class_value system_paged_pool_information_ex = 0x0077
system_information_class_value system_system_ptes_information_ex = 0x0078
system_information_class_value system_node_distance_information = 0x0079
system_information_class_value system_acpi_audit_information = 0x007A
system_information_class_value system_basic_performance_information = 0x007B
system_information_class_value system_query_performance_counter_information = 0x007C
system_information_class_value system_session_big_pool_information = 0x007D
system_information_class_value system_boot_graphics_information = 0x007E
system_information_class_value system_scrub_physical_memory_information = 0x007F
system_information_class_value system_bad_page_information = 0x0080
system_information_class_value system_processor_profile_control_area = 0x0081
system_information_class_value system_combine_physical_memory_information = 0x0082
system_information_class_value system_entropy_interrupt_timing_information = 0x0083
system_information_class_value system_console_information = 0x0084
system_information_class_value system_platform_binary_information = 0x0085
system_information_class_value system_throttle_notification_information = 0x0086
system_information_class_value system_hypervisor_processor_count_information = 0x0087
system_information_class_value system_device_data_information = 0x0088
system_information_class_value system_device_data_enumeration_information = 0x0089
system_information_class_value system_memory_topology_information = 0x008A
system_information_class_value system_memory_channel_information = 0x008B
system_information_class_value system_boot_logo_information = 0x008C
system_information_class_value system_processor_performance_information_ex = 0x008D
system_information_class_value system_spare0 = 0x008E
system_information_class_value system_secure_boot_policy_information = 0x008F
system_information_class_value system_page_file_information_ex = 0x0090
system_information_class_value system_secure_boot_information = 0x0091
system_information_class_value system_entropy_interrupt_timing_raw_information = 0x0092
system_information_class_value system_portable_workspace_efi_launcher_information = 0x0093
system_information_class_value system_full_process_information = 0x0094
system_information_class_value max_system_info_class = 0x0095
