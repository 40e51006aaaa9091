-- ===== src/Status/Facility.antt =====
-- The facility codes of ServiceCall/ntstatus.h.
use service_call.Base.{ℕ, ◌<◌, arith}

pub data Facility : Type 0 where
  vsm volsnap volmgr virtualization video usb_error_code transaction tpm terminal_server
        sxs_error_code ntsspi spaces smb system_integrity shared_vhdx secureboot security_core sdbus
        rtpm rpc_stubs rpc_runtime resume_key_filter rdbss platform_manifest ntwin32 win32k_ntuser
        win32k_ntgdi ndis_error_code mui_error_code monitor licensing ipsec io_error_code interix
        hypervisor hid_error_code graphics_kernel fwp_error_code fve_error_code firewire_error_code
        filter_manager driver_framework debugger commonlog codclass_error_code cluster_error_code
        ntcert bth_att bcd_error_code audio_kernel acpi_error_code :
      Facility

abbrev pub facility_value : Facility → ℕ
facility_value vsm = 0x45
facility_value volsnap = 0x50
facility_value volmgr = 0x38
facility_value virtualization = 0x37
facility_value video = 0x1b
facility_value usb_error_code = 0x10
facility_value transaction = 0x19
facility_value tpm = 0x29
facility_value terminal_server = 0xa
facility_value sxs_error_code = 0x15
facility_value ntsspi = 0x9
facility_value spaces = 0xe7
facility_value smb = 0x5d
facility_value system_integrity = 0xe9
facility_value shared_vhdx = 0x5c
facility_value secureboot = 0x43
facility_value security_core = 0xe8
facility_value sdbus = 0x51
facility_value rtpm = 0x2a
facility_value rpc_stubs = 0x3
facility_value rpc_runtime = 0x2
facility_value resume_key_filter = 0x40
facility_value rdbss = 0x41
facility_value platform_manifest = 0xeb
facility_value ntwin32 = 0x7
facility_value win32k_ntuser = 0x3e
facility_value win32k_ntgdi = 0x3f
facility_value ndis_error_code = 0x23
facility_value mui_error_code = 0xb
facility_value monitor = 0x1d
facility_value licensing = 0xea
facility_value ipsec = 0x36
facility_value io_error_code = 0x4
facility_value interix = 0x99
facility_value hypervisor = 0x35
facility_value hid_error_code = 0x11
facility_value graphics_kernel = 0x1e
facility_value fwp_error_code = 0x22
facility_value fve_error_code = 0x21
facility_value firewire_error_code = 0x12
facility_value filter_manager = 0x1c
facility_value driver_framework = 0x20
facility_value debugger = 0x1
facility_value commonlog = 0x1a
facility_value codclass_error_code = 0x6
facility_value cluster_error_code = 0x13
facility_value ntcert = 0x8
facility_value bth_att = 0x42
facility_value bcd_error_code = 0x39
facility_value audio_kernel = 0x44
facility_value acpi_error_code = 0x14

-- FACILITY_MAXIMUM_VALUE.
abbrev pub facility_maximum_value : ℕ
facility_maximum_value = 0xec

pub facility_value-below : (f : Facility) → facility_value f < facility_maximum_value
facility_value-below vsm = omega arith
facility_value-below volsnap = omega arith
facility_value-below volmgr = omega arith
facility_value-below virtualization = omega arith
facility_value-below video = omega arith
facility_value-below usb_error_code = omega arith
facility_value-below transaction = omega arith
facility_value-below tpm = omega arith
facility_value-below terminal_server = omega arith
facility_value-below sxs_error_code = omega arith
facility_value-below ntsspi = omega arith
facility_value-below spaces = omega arith
facility_value-below smb = omega arith
facility_value-below system_integrity = omega arith
facility_value-below shared_vhdx = omega arith
facility_value-below secureboot = omega arith
facility_value-below security_core = omega arith
facility_value-below sdbus = omega arith
facility_value-below rtpm = omega arith
facility_value-below rpc_stubs = omega arith
facility_value-below rpc_runtime = omega arith
facility_value-below resume_key_filter = omega arith
facility_value-below rdbss = omega arith
facility_value-below platform_manifest = omega arith
facility_value-below ntwin32 = omega arith
facility_value-below win32k_ntuser = omega arith
facility_value-below win32k_ntgdi = omega arith
facility_value-below ndis_error_code = omega arith
facility_value-below mui_error_code = omega arith
facility_value-below monitor = omega arith
facility_value-below licensing = omega arith
facility_value-below ipsec = omega arith
facility_value-below io_error_code = omega arith
facility_value-below interix = omega arith
facility_value-below hypervisor = omega arith
facility_value-below hid_error_code = omega arith
facility_value-below graphics_kernel = omega arith
facility_value-below fwp_error_code = omega arith
facility_value-below fve_error_code = omega arith
facility_value-below firewire_error_code = omega arith
facility_value-below filter_manager = omega arith
facility_value-below driver_framework = omega arith
facility_value-below debugger = omega arith
facility_value-below commonlog = omega arith
facility_value-below codclass_error_code = omega arith
facility_value-below cluster_error_code = omega arith
facility_value-below ntcert = omega arith
facility_value-below bth_att = omega arith
facility_value-below bcd_error_code = omega arith
facility_value-below audio_kernel = omega arith
facility_value-below acpi_error_code = omega arith
