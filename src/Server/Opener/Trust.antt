-- ===== src/Server/Opener/Trust.antt =====
-- Trust on first use: packages/server/src/opener.ts.
use desk_ssh.Base.{
  ◌≡◌, ◌≢◌, ◌↔◌, refl, sym, ap, ◌∙◌, arith, Option, none, some, Bool, true, false, ◌⊎◌, inl, inr,
  Option-cases, some_inj, Bool-cases, [], ◌∷◌, if◌then◌else◌,
}
use mathlib.Core.Path.{subst}
use desk_ssh.Js.Text.{Text, text_eq}
use desk_ssh.Js.Text.Equality.{text_eq_iff, text_eq_refl, text_eq_ne}
use desk_ssh.Js.Map.Laws.{get-set}
use desk_ssh.Core.Session.{HostKeyInfo}
use desk_ssh.Server.KnownHosts.{KnownHosts, known, trust}
use desk_ssh.Server.Opener.{
  ConnectRequest, Rejection, unknown, mismatch, truthy, verify_host_key, host_port, Client,
  IsStrict, verdict, answer_of, accept, translate, connect, host_key_mismatch, host_key_unknown,
}

-- The presented key is the known one, or no key is known and the user has confirmed this one.
abbrev pub IsTrusted : Option Text → Option Text → Text → Type 0
IsTrusted old confirmed fingerprint =
    (truthy old ≡ some fingerprint) ⊎ ((truthy old ≡ none) × (truthy confirmed ≡ some fingerprint))

verify_sound :
    (old confirmed : Option Text) (info : HostKeyInfo)
    → (verify_host_key old confirmed info).0 ≡ true
    → IsTrusted old confirmed info.fingerprint
unfolding verify_host_key
verify_sound (some (c ∷ s)) confirmed info h =
    inl (ground (arith, text_eq_iff info.fingerprint (c ∷ s)))
verify_sound (some []) (some (c ∷ s)) info h =
    inr (refl, ground (arith, text_eq_iff (c ∷ s) info.fingerprint))
verify_sound none (some (c ∷ s)) info h =
    inr (refl, ground (arith, text_eq_iff (c ∷ s) info.fingerprint))
verify_sound (some []) (some []) info h = cc
verify_sound (some []) none info h = cc
verify_sound none (some []) info h = cc
verify_sound none none info h = cc

verify_complete :
    (old confirmed : Option Text) (info : HostKeyInfo)
    → IsTrusted old confirmed info.fingerprint
    → (verify_host_key old confirmed info).0 ≡ true
unfolding verify_host_key
verify_complete old confirmed info (inl e) =
    rw (e, verify_host_key) (rw (text_eq_refl info.fingerprint))
verify_complete old confirmed info (inr (e, f)) =
    rw (e, f, verify_host_key) (rw (text_eq_refl info.fingerprint))

-- The verifier answers yes exactly for a trusted key.
pub verify_host_key_iff :
    (old confirmed : Option Text) (info : HostKeyInfo)
    → ((verify_host_key old confirmed info).0 ≡ true) ↔ IsTrusted old confirmed info.fingerprint
verify_host_key_iff old confirmed info =
    (verify_sound old confirmed info, verify_complete old confirmed info)

module _ (client : Client) (req : ConnectRequest) (store : KnownHosts) where
  -- The fingerprint that is stored for the host and port of the request.
  abbrev pub stored : Option Text
  stored = known (host_port req) store

  abbrev pub asked : Option (Bool × Option Rejection)
  asked = verdict stored req.trust_fingerprint client.presented

  pub connect_open :
      client.failure (answer_of asked) ≡ none
      → connect client req store ≡ (none, accept (host_port req) stored client.presented store)
  unfolding connect
  connect_open e = rw (e, connect)

  pub connect_fail :
      {err : Text}
      → client.failure (answer_of asked) ≡ some err
      → connect client req store ≡ (some (translate stored client.presented asked err), store)
  unfolding connect
  connect_fail e = rw (e, connect)

known-trust :
    (j host fingerprint : Text) (store : KnownHosts)
    → known j (trust host fingerprint store)
      ≡ (if text_eq host j then some fingerprint else known j store)
unfolding known trust
known-trust j host fingerprint store = get-set j host fingerprint store.map

truthy_idem : (o : Option Text) {x : Text} → truthy o ≡ some x → truthy (some x) ≡ some x
truthy_idem none h = cc
truthy_idem (some []) h = cc
truthy_idem (some (c ∷ s)) h = subst (λ y. truthy (some y) ≡ some y) (some_inj h) refl

pub accept_trusted :
    (host : Text) (confirmed : Option Text) (info : HostKeyInfo) (store : KnownHosts)
    → IsTrusted (known host store) confirmed info.fingerprint
    → truthy (known host (accept host (known host store) (some info) store)) ≡ some info.fingerprint
unfolding accept
accept_trusted host confirmed info store (inl e) = rw (e, accept) e
accept_trusted host confirmed info store (inr (e, f)) =
    rw (e, accept) (rw (known-trust, text_eq_refl host) (truthy_idem confirmed f))

answer-verdict :
    (old confirmed : Option Text) (info : HostKeyInfo)
    → answer_of (verdict old confirmed (some info)) ≡ some (verify_host_key old confirmed info).0
unfolding verdict
answer-verdict old confirmed info = refl

verdict-none : (old confirmed : Option Text) → answer_of (verdict old confirmed none) ≡ none
unfolding verdict
verdict-none old confirmed = refl

module _ (client : Client) (strict : IsStrict client) (old confirmed : Option Text) where
  pub open_rest :
      (p : Option HostKeyInfo)
      → client.failure (answer_of (verdict old confirmed p)) ≡ none
      → (info : HostKeyInfo) × (p ≡ some info) × IsTrusted old confirmed info.fingerprint
  open_rest none h = absurd (strict.unasked (rw verdict-none at h))
  open_rest (some info) h = elim (Bool-cases (verify_host_key old confirmed info).0) [
    | inl trusted ↦ (info, refl, verify_sound old confirmed info trusted)
    | inr refused ↦ absurd (strict.rejected (rw (answer-verdict, refused) at h))
  ]

  pub refuse :
      (info : HostKeyInfo)
      → ¬ (IsTrusted old confirmed info.fingerprint)
      → (err : Text) × (client.failure (answer_of (verdict old confirmed (some info))) ≡ some err)
  refuse info untrusted =
      elim (Option-cases (client.failure (answer_of (verdict old confirmed (some info))))) [
        | inl e ↦ absurd (go (open_rest (some info) e))
        | inr s ↦ s
      ]
    where
      go : ((i : HostKeyInfo) × (some info ≡ some i) × IsTrusted old confirmed i.fingerprint) → ⊥
      go (i, e, t) =
          untrusted (subst (λ j. IsTrusted old confirmed j.fingerprint) (sym (some_inj e)) t)

pub untrusted_changed :
    (old confirmed : Option Text) {f k : Text}
    → truthy old ≡ some k
    → f ≢ k
    → ¬ (IsTrusted old confirmed f)
untrusted_changed old confirmed e ne (inl t) = ne (some_inj (sym t ∙ e))
untrusted_changed old confirmed e ne (inr (t, u)) = cc

pub untrusted_first :
    (old confirmed : Option Text) {f : Text}
    → truthy old ≡ none
    → truthy confirmed ≢ some f
    → ¬ (IsTrusted old confirmed f)
untrusted_first old confirmed e ne (inl t) = cc
untrusted_first old confirmed e ne (inr (t, u)) = ne u

module _ (old confirmed : Option Text) (info : HostKeyInfo) where
  pub verify_changed :
      {k : Text}
      → truthy old ≡ some k
      → info.fingerprint ≢ k
      → verify_host_key old confirmed info ≡ (false, some mismatch)
  unfolding verify_host_key
  verify_changed {k} e ne = rw (e, verify_host_key) (rw (text_eq_ne info.fingerprint k ne))

  pub translate_changed :
      (err : Text) {k : Text}
      → truthy old ≡ some k
      → info.fingerprint ≢ k
      → translate old (some info) (verdict old confirmed (some info)) err
        ≡ host_key_mismatch info.fingerprint k
  unfolding verdict translate
  translate_changed err {k} e ne = rw (verify_changed e ne) (rw (e, translate))

  pub verify_first :
      truthy old ≡ none
      → truthy confirmed ≢ some info.fingerprint
      → verify_host_key old confirmed info ≡ (false, some unknown)
  unfolding verify_host_key
  verify_first e ne = elim (Option-cases (truthy confirmed)) [
    | inl n ↦ rw (e, n, verify_host_key)
    | inr (c, s) ↦
        rw (e, s, verify_host_key) (rw (text_eq_ne c info.fingerprint (λ q. ne (s ∙ ap some q))))
  ]

  pub translate_first :
      (err : Text)
      → truthy old ≡ none
      → truthy confirmed ≢ some info.fingerprint
      → translate old (some info) (verdict old confirmed (some info)) err
        ≡ host_key_unknown info.fingerprint info.algorithm
  unfolding verdict
  translate_first err e ne = rw (verify_first e ne) (unfold translate in refl)
