-- ===== src/Server/Opener/Connecting.antt =====
-- The connection of packages/server/src/opener.ts: what is trusted, refused and stored.
use desk_ssh.Base.{◌≡◌, ◌≢◌, ◌∙◌, none, some, inl, inr, Option-cases}
use desk_ssh.Js.Text.{Text}
use desk_ssh.Core.Session.{HostKeyInfo}
use desk_ssh.Server.KnownHosts.{KnownHosts, known}
use desk_ssh.Server.Opener.{
  ConnectRequest, truthy, host_port, Client, IsStrict, answer_of, connect, host_key_mismatch,
  host_key_unknown,
}
use desk_ssh.Server.Opener.Trust.{
  asked, connect_open, connect_fail, accept_trusted, open_rest, refuse, untrusted_changed,
  untrusted_first, translate_changed, translate_first, IsTrusted,
}

module _ (client : Client) (strict : IsStrict client) (req : ConnectRequest)
    (store : KnownHosts) where
  -- If a session opens, the host has presented a key that is the known one, or that the user has
  -- confirmed where none was known; and from then on it is the known key of this host and port. The
  -- SSH client is strict about the verifier's answer.
  pub connect-IsTrusted :
      (connect client req store).0 ≡ none
      → (info : HostKeyInfo) × (client.presented ≡ some info)
        × IsTrusted (known (host_port req) store) req.trust_fingerprint info.fingerprint
        × (truthy (known (host_port req) (connect client req store).1) ≡ some info.fingerprint)
  connect-IsTrusted h = elim (Option-cases (client.failure (answer_of (asked client req store)))) [
    | inl e ↦ finish e (
        open_rest client strict (known (host_port req) store) req.trust_fingerprint client.presented
          e)
    | inr (err, e) ↦ absurd (failed e)
  ]
    where
      failed : {err : Text} → client.failure (answer_of (asked client req store)) ≡ some err → ⊥
      failed e = cc (rw (connect_fail client req store e) at h)

      finish :
          client.failure (answer_of (asked client req store)) ≡ none
          → ((info : HostKeyInfo) × (client.presented ≡ some info)
              × IsTrusted (known (host_port req) store) req.trust_fingerprint info.fingerprint)
          → (info : HostKeyInfo) × (client.presented ≡ some info)
            × IsTrusted (known (host_port req) store) req.trust_fingerprint info.fingerprint
            × (truthy (known (host_port req) (connect client req store).1) ≡ some info.fingerprint)
      finish e (info, p, t) = (
        info,
        p,
        t,
        rw (connect_open client req store e, p)
            (accept_trusted (host_port req) req.trust_fingerprint info store t),
      )

  -- A host that presents a key other than the known one is refused as a possible attack, with both
  -- fingerprints, whatever the user has confirmed; and the store keeps the known key. The SSH client is
  -- strict about the verifier's answer.
  pub connect_changed_key :
      (info : HostKeyInfo) (k : Text)
      → client.presented ≡ some info
      → truthy (known (host_port req) store) ≡ some k
      → info.fingerprint ≢ k
      → connect client req store ≡ (some (host_key_mismatch info.fingerprint k), store)
  connect_changed_key info k p e ne =
      let (err, fails) =
        refuse client strict (known (host_port req) store) req.trust_fingerprint info
          (untrusted_changed _ _ e ne) in
      connect_fail client req store {err = err} (rw p fails)
      ∙ rw p
          (rw (translate_changed (known (host_port req) store) req.trust_fingerprint info err e ne))

  -- A first contact whose key the user has not confirmed is refused with the key to confirm, and
  -- nothing is stored. The SSH client is strict about the verifier's answer.
  pub connect_first_contact :
      (info : HostKeyInfo)
      → client.presented ≡ some info
      → truthy (known (host_port req) store) ≡ none
      → truthy req.trust_fingerprint ≢ some info.fingerprint
      → connect client req store ≡ (some (host_key_unknown info.fingerprint info.algorithm), store)
  connect_first_contact info p e ne =
      let (err, fails) =
        refuse client strict (known (host_port req) store) req.trust_fingerprint info
          (untrusted_first _ _ e ne) in
      connect_fail client req store {err = err} (rw p fails)
      ∙ rw p
          (rw (translate_first (known (host_port req) store) req.trust_fingerprint info err e ne))
