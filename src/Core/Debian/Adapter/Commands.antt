-- ===== src/Core/Debian/Adapter/Commands.antt =====
-- What the adapter of packages/core/src/adapters/debian.ts may send, and that it sends nothing else.
use desk_ssh.Base.{
  ℕ, List, [], ◌∷◌, ◌≡◌, refl, some, ◌⊎◌, inl, inr, zero, suc, none, All, All-append, Option,
}
use desk_ssh.Js.Text.{Text, codes}
use desk_ssh.Js.Number.{show_int}
use desk_ssh.Core.Debian.Services.{parse_service_state}
use desk_ssh.Core.Shell.Lexer.{word, operator}
use desk_ssh.Core.Exec.{CommandExecutor, ExecResult, noting, Keeps, Keeps-bind}
use desk_ssh.Core.Result.{run_parsed, Parser}
use desk_ssh.Core.Types.{
  ServiceAction, Call, list_dir, stat, read_file, write_file, make_dir, create_file, move, copy,
  remove, system_metrics, system_info, list_processes, signal_process, service_action,
  list_services,
}
use desk_ssh.Core.Debian.Adapter.{
  systemctl_command, show_command, find_printf, stat_printf, action_name, metrics_command,
  sysinfo_command, ps_command, signal_name, parse_base64, run_void, run_service, after_systemctl,
  debian_adapter, parse_base64,
}
use desk_ssh.Core.Debian.Adapter.Words.{
  Reads, list_dir_tokens, stat_tokens, write_file_tokens, read_file_tokens, make_dir_tokens,
  create_file_tokens, remove_tokens, move_tokens, copy_tokens, systemctl_tokens, show_tokens,
  signal_tokens,
}

-- The commands that the adapter may send for a call: the words that a shell reads are fixed words
-- and the arguments of the call, each as one word; other commands are constants.
abbrev pub Allowed : (List ℕ → Text) → Call → Text → Type 0
Allowed encode (list_dir path) cmd = Reads cmd (
    word (codes "find")
    ∷ word path
    ∷ word (codes "-maxdepth")
    ∷ word (codes "1")
    ∷ word (codes "-mindepth")
    ∷ word (codes "1")
    ∷ word (codes "-printf")
    ∷ word find_printf
    ∷ [])
Allowed encode (stat path) cmd =
    Reads cmd (word (codes "stat") ∷ word (codes "--printf") ∷ word stat_printf ∷ word path ∷ [])
Allowed encode (read_file path) cmd =
    Reads cmd (word (codes "base64") ∷ word (codes "-w0") ∷ word path ∷ [])
Allowed encode (write_file path contents) cmd = Reads cmd (
    word (codes "printf")
    ∷ word (codes "%s")
    ∷ word (encode contents)
    ∷ operator b'|'
    ∷ word (codes "base64")
    ∷ word (codes "-d")
    ∷ operator b'>'
    ∷ word path
    ∷ [])
Allowed encode (make_dir path) cmd =
    Reads cmd (word (codes "mkdir") ∷ word (codes "-p") ∷ word path ∷ [])
Allowed encode (create_file path) cmd = Reads cmd (word (codes "touch") ∷ word path ∷ [])
Allowed encode (move from to) cmd =
    Reads cmd (word (codes "mv") ∷ word (codes "-n") ∷ word from ∷ word to ∷ [])
Allowed encode (copy from to) cmd =
    Reads cmd (word (codes "cp") ∷ word (codes "-a") ∷ word (codes "-n") ∷ word from ∷ word to ∷ [])
Allowed encode (remove path) cmd =
    Reads cmd (word (codes "rm") ∷ word (codes "-rf") ∷ word path ∷ [])
Allowed encode system_metrics cmd = cmd ≡ metrics_command
Allowed encode system_info cmd = cmd ≡ sysinfo_command
Allowed encode list_processes cmd = cmd ≡ ps_command
Allowed encode (signal_process pid signal) cmd =
    Reads cmd (
      word (codes "kill")
      ∷ word (codes "-s")
      ∷ word (signal_name signal)
      ∷ word (show_int pid)
      ∷ [])
Allowed encode (service_action name action) cmd =
    Reads cmd (word (codes "systemctl") ∷ word (action_name action) ∷ word name ∷ [])
    ⊎ Reads cmd (
        word (codes "systemctl")
        ∷ word (codes "show")
        ∷ word name
        ∷ word (codes "--property=ActiveState,UnitFileState,SubState")
        ∷ [])
Allowed encode list_services cmd = ⊥

module _ {κ} {W : Type 0} (P : W → Type κ) (executor : CommandExecutor W) where
  run_parsed-Keeps :
      {A : Type 0} (cmd : Text) (parser : Parser A)
      → Keeps P (executor cmd none)
      → Keeps P (run_parsed executor cmd parser)
  unfolding run_parsed
  run_parsed-Keeps cmd parser h = Keeps-bind P (executor cmd none) _ h (λ r w p. p)

  run_void-Keeps : (cmd : Text) → Keeps P (executor cmd none) → Keeps P (run_void executor cmd)
  unfolding run_void
  run_void-Keeps cmd h = Keeps-bind P (executor cmd none) _ h (λ r w p. p)

  after_systemctl-Keeps :
      (name : Text) (action : ServiceAction) (act : ExecResult) (code : Option ℕ)
      → Keeps P (executor (show_command name) none)
      → Keeps P (after_systemctl executor name action act code)
  unfolding after_systemctl
  after_systemctl-Keeps name action act none h w p = p
  after_systemctl-Keeps name action act (some zero) h w p =
      run_parsed-Keeps (show_command name) (parse_service_state name) h w p
  after_systemctl-Keeps name action act (some (suc n)) h w p = p

  run_service-Keeps :
      (name : Text) (action : ServiceAction)
      → Keeps P (executor (systemctl_command action name) none)
      → Keeps P (executor (show_command name) none)
      → Keeps P (run_service executor name action)
  unfolding run_service
  run_service-Keeps name action h g =
      Keeps-bind P (executor (systemctl_command action name) none) _ h
        (λ r. after_systemctl-Keeps name action r r.exit_code g)

module _ {κ} {W : Type 0} (P : W → Type κ) (encode : List ℕ → Text) (decode : Text → List ℕ)
    (executor : CommandExecutor W) where
  pub debian_adapter-Keeps :
      (c : Call)
      → ((cmd : Text) → Allowed encode c cmd → Keeps P (executor cmd none))
      → Keeps P (debian_adapter encode decode executor c)
  unfolding debian_adapter
  debian_adapter-Keeps (list_dir path) h =
      run_parsed-Keeps P executor _ _ (h _ (list_dir_tokens path))
  debian_adapter-Keeps (stat path) h = run_parsed-Keeps P executor _ _ (h _ (stat_tokens path))
  debian_adapter-Keeps (read_file path) h =
      run_parsed-Keeps P executor _ (parse_base64 decode) (h _ (read_file_tokens path))
  debian_adapter-Keeps (write_file path contents) h =
      run_void-Keeps P executor _ (h _ (write_file_tokens (encode contents) path))
  debian_adapter-Keeps (make_dir path) h = run_void-Keeps P executor _ (h _ (make_dir_tokens path))
  debian_adapter-Keeps (create_file path) h =
      run_void-Keeps P executor _ (h _ (create_file_tokens path))
  debian_adapter-Keeps (move from to) h = run_void-Keeps P executor _ (h _ (move_tokens from to))
  debian_adapter-Keeps (copy from to) h = run_void-Keeps P executor _ (h _ (copy_tokens from to))
  debian_adapter-Keeps (remove path) h = run_void-Keeps P executor _ (h _ (remove_tokens path))
  debian_adapter-Keeps system_metrics h = run_parsed-Keeps P executor _ _ (h _ refl)
  debian_adapter-Keeps system_info h = run_parsed-Keeps P executor _ _ (h _ refl)
  debian_adapter-Keeps list_processes h = run_parsed-Keeps P executor _ _ (h _ refl)
  debian_adapter-Keeps (signal_process pid signal) h =
      run_void-Keeps P executor _ (h _ (signal_tokens pid signal))
  debian_adapter-Keeps (service_action name action) h =
      run_service-Keeps P executor name action (h _ (inl (systemctl_tokens action name)))
        (h _ (inr (show_tokens name)))
  debian_adapter-Keeps list_services h = λ w p. p

-- For every call, every world and every answer of the host, the shell reads each command that the
-- adapter sends as the words of that call, with the caller's texts as single words, or the command
-- is the constant one of a call without arguments.
pub debian_adapter-Allowed :
    {W : Type 0} (encode : List ℕ → Text) (decode : Text → List ℕ) (executor : CommandExecutor W)
    (c : Call) (w : W)
    → All (Allowed encode c) (debian_adapter encode decode (noting executor) c ([], w)).1.0
debian_adapter-Allowed encode decode executor c w =
    debian_adapter-Keeps (λ s. All (Allowed encode c) s.0) encode decode (noting executor) c
      (λ cmd allowed (sent, v) h.
        unfold noting in All-append (Allowed encode c) sent (cmd ∷ []) h (allowed, tt))
      ([], w) tt
