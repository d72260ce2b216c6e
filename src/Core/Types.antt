-- ===== src/Core/Types.antt =====
-- packages/core/src/contract/types.ts and capabilities.ts: the normalized outputs of the
-- capabilities, and the calls of the contract.
use desk_ssh.Base.{ℕ, Bool, List}
use desk_ssh.Js.Text.{Text}
use desk_ssh.Js.Number.{ℤ, Num}

pub data FileType : Type 0 where
  file directory symlink other : FileType

pub record FileEntry : Type 0 where
  pub name : Text
  pub type : FileType
  pub size : ℤ
  pub mode : ℤ
  pub owner : Text
  pub group : Text
  -- Epoch milliseconds.
  pub mtime : Num

pub record Process : Type 0 where
  pub pid : ℤ
  pub user : Text
  pub cpu : Num
  pub mem : Num
  pub command : Text

pub data ProcessSignal : Type 0 where
  term kill hup : ProcessSignal

pub data ServiceAction : Type 0 where
  start stop restart : ServiceAction

pub record ServiceState : Type 0 where
  pub name : Text
  pub active : Bool
  pub enabled : Bool
  pub status : Text

pub record SystemInfo : Type 0 where
  pub hostname : Text
  pub pretty_name : Text
  pub kernel : Text
  pub uptime_seconds : Num
  pub packages : ℤ
  pub shell : Text
  pub cpu_model : Text
  pub cpu_count : ℤ
  pub mem_total_bytes : ℕ
  pub mem_used_bytes : ℕ
  pub disk_total_bytes : ℤ
  pub disk_used_bytes : ℤ
  pub local_ip : Text

pub record Memory : Type 0 where
  pub total_bytes : ℕ
  pub used_bytes : ℕ
  pub available_bytes : ℕ

pub record SystemMetrics : Type 0 where
  pub uptime_seconds : Num
  pub load_average : Num × Num × Num
  pub memory : Memory

-- The calls of the capability contract, with their arguments; bytes are numbers below 256.
pub data Call : Type 0 where
  list_dir stat read_file make_dir create_file remove : (path : Text) → Call
  write_file : (path : Text) (contents : List ℕ) → Call
  move copy : (from to : Text) → Call
  system_metrics system_info list_processes list_services : Call
  signal_process : (pid : ℤ) (signal : ProcessSignal) → Call
  service_action : (name : Text) (action : ServiceAction) → Call
