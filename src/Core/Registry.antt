-- ===== src/Core/Registry.antt =====
-- packages/core/src/adapters/registry.ts: the adapter for a family of systems.
use desk_ssh.Base.{ℕ, List, ◌++◌}
use desk_ssh.Js.Text.{Text, codes}
use desk_ssh.Core.Exec.{pure, CommandExecutor}
use desk_ssh.Core.Result.{unsupported}
use desk_ssh.Core.Capabilities.{Capabilities}
use desk_ssh.Core.Os.{OsFamily, debian, rhel, arch, posix, unknown, OsInfo}
use desk_ssh.Core.Debian.Adapter.{debian_adapter}

unfoldable pub create_unsupported_adapter : {W : Type 0} → Text → Capabilities W
create_unsupported_adapter reason call = pure (unsupported reason)

abbrev pub family_name : OsFamily → Text
family_name debian = codes "debian"
family_name rhel = codes "rhel"
family_name arch = codes "arch"
family_name posix = codes "posix"
family_name unknown = codes "unknown"

abbrev pub unsupported_reason : OsFamily → Text
unsupported_reason family =
    codes "OS family \""
    ++ (family_name family
        ++ codes "\" is not supported in v1 (Debian/Ubuntu/Mint only); see the host roadmap")

module _ (encode : List ℕ → Text) (decode : Text → List ℕ) {W : Type 0} where
  unfoldable pub adapter_for : OsFamily → CommandExecutor W → Capabilities W
  unfolding create_unsupported_adapter debian_adapter
  adapter_for debian executor = debian_adapter encode decode executor
  adapter_for other executor = create_unsupported_adapter (unsupported_reason other)

  unfoldable pub select_adapter : OsInfo → CommandExecutor W → Capabilities W
  unfolding adapter_for
  select_adapter os executor = adapter_for os.family executor
