-- ===== src/Ntdll/Tests.antt =====
-- A process in which every file exports NtClose, and nothing else.
use text.Mathlib.Text.{◌==◌}
use service_call.Base.{ℕ, suc, ◌≡◌, refl, List, none, some, if◌then◌else◌}
use service_call.Ntdll.{Argument, Loader, perform}
use service_call.Ntdll.Memory.{nt_close}
use service_call.Ntdll.Ports.{nt_listen_port}

-- The state counts the handles that were closed.
abbrev close_one : List Argument → ℕ → ℕ × ℕ
close_one arguments closed = (0, suc closed)

abbrev loader : Loader ℕ
loader = record {
  get_module_handle = λ file. 1;
  get_proc_address = λ h name. if name == "NtClose" then 0x1000 else 0;
  run = λ address. close_one;
}

close_runs : perform loader (nt_close 0x44) 2 ≡ some (0, 3)
unfolding perform
close_runs = refl

listen_faults : perform loader (nt_listen_port 0x44 0x100) 2 ≡ none
unfolding perform
listen_faults = refl
