-- ===== src/Core/Capabilities.antt =====
-- packages/core/src/contract/capabilities.ts: the capability contract, as one function of the call.
use desk_ssh.Base.{ℕ, List}
use desk_ssh.Core.Exec.{Action}
use desk_ssh.Core.Result.{CapabilityResult}
use desk_ssh.Core.Types.{
  Call, list_dir, stat, read_file, write_file, make_dir, create_file, move, copy, remove,
  system_metrics, system_info, list_processes, signal_process, service_action, list_services,
  FileEntry, SystemMetrics, SystemInfo, Process, ServiceState,
}

-- The value that a call yields when it succeeds; bytes are numbers below 256.
abbrev pub Reply : Call → Type 0
Reply (list_dir path) = List FileEntry
Reply (stat path) = FileEntry
Reply (read_file path) = List ℕ
Reply (write_file path contents) = Unit
Reply (make_dir path) = Unit
Reply (create_file path) = Unit
Reply (move from to) = Unit
Reply (copy from to) = Unit
Reply (remove path) = Unit
Reply system_metrics = SystemMetrics
Reply system_info = SystemInfo
Reply list_processes = List Process
Reply (signal_process pid signal) = Unit
Reply (service_action name action) = ServiceState
Reply list_services = List ServiceState

abbrev pub Capabilities : Type 0 → Type 0
Capabilities W = (c : Call) → Action W (CapabilityResult (Reply c))
