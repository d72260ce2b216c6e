-- ===== src/Tests/Server.antt =====
-- Concrete inputs for packages/server.
use desk_ssh.Base.{Option, none, some, true, ◌≡◌, ◌≢◌, refl, sym, ap, ◌∙◌, some_inj, true-ne-false}
use desk_ssh.Js.Text.{Text, codes, text_eq}
use desk_ssh.Js.Text.Equality.{text_eq_refl}
use desk_ssh.Js.Number.{show, to_radix, digits}
use desk_ssh.Js.Map
use desk_ssh.Core.Session.{HostKeyInfo, password}
use desk_ssh.Server.KnownHosts.{KnownHosts, known, trust, open_store, load}
use desk_ssh.Server.Opener.{
  ConnectRequest, Client, IsStrict, connect, truthy, verify_host_key, host_port, host_key_mismatch,
  host_key_unknown, verdict,
}
use desk_ssh.Server.Opener.Trust.{IsTrusted}
use desk_ssh.Server.Opener.Connecting.{
  connect-IsTrusted, connect_changed_key, connect_first_contact,
}

abbrev presented_key : HostKeyInfo
presented_key = record { algorithm = codes "ssh-ed25519"; fingerprint = codes "SHA256:b" }

-- A client that connects only if the verifier answers yes.
abbrev client : Client
client = record {
  presented = some presented_key;
  failure = λ answer. elim answer [ some true ↦ none | _ ↦ some (codes "refused") ];
}

client-IsStrict : IsStrict client
client-IsStrict = record { rejected = λ e. cc; unasked = λ e. cc }

abbrev request : Option Text → ConnectRequest
request confirmed = record {
  host = codes "h";
  port = none;
  username = codes "u";
  auth = password (codes "pw");
  trust_fingerprint = confirmed;
}

abbrev no_hosts : KnownHosts
no_hosts = open_store none

abbrev old_host : KnownHosts
old_host = trust (host_port (request none)) (codes "SHA256:a") no_hosts

different : codes "SHA256:a" ≢ codes "SHA256:b"
unfolding text_eq
different e =
    true-ne-false (sym (text_eq_refl (codes "SHA256:a")) ∙ ap (text_eq (codes "SHA256:a")) e)

connect-IsTrusted_example :
    (info : HostKeyInfo) × (client.presented ≡ some info)
    × IsTrusted
        (known (host_port (request (some (codes "SHA256:b")))) no_hosts)
        (some (codes "SHA256:b"))
        info.fingerprint
    × (truthy (
          known
            (host_port (request (some (codes "SHA256:b"))))
            (connect client (request (some (codes "SHA256:b"))) no_hosts).1)
        ≡ some info.fingerprint)
unfolding connect verdict verify_host_key host_port known open_store text_eq Map.get load
connect-IsTrusted_example =
    connect-IsTrusted client client-IsStrict (request (some (codes "SHA256:b"))) no_hosts refl

connect_changed_key_example :
    connect client (request (some (codes "SHA256:b"))) old_host
    ≡ (some (host_key_mismatch (codes "SHA256:b") (codes "SHA256:a")), old_host)
unfolding host_port known trust open_store text_eq Map.get Map.set load show to_radix digits
connect_changed_key_example =
    connect_changed_key client client-IsStrict (request (some (codes "SHA256:b"))) old_host
      presented_key (codes "SHA256:a") refl refl (λ e. different (sym e))

connect_first_contact_example :
    connect client (request (some (codes "SHA256:a"))) no_hosts
    ≡ (some (host_key_unknown (codes "SHA256:b") (codes "ssh-ed25519")), no_hosts)
unfolding host_port known open_store Map.get load
connect_first_contact_example =
    connect_first_contact client client-IsStrict (request (some (codes "SHA256:a"))) no_hosts
      presented_key refl refl (λ e. different (some_inj e))
