-- ===== src/Web/Login/Trust.antt =====
-- packages/web/src/App.tsx: a host key is trusted only after it was shown.
use desk_ssh.Base.{List, [], ◌∷◌, Option, none, some, ◌≡◌, ◌⊎◌, inl, inr, refl, All, All-imp}
use desk_ssh.Js.Text.{Text}
use desk_ssh.Js.Number.{Num}
use desk_ssh.Web.Client.{ConnectInput}
use desk_ssh.Web.Login.{
  HostKeyPrompt, ConnectResult, connected, verify_host_key, App, initial, attempt, responded,
  trusting, confirmed, Event, submitted, answered, refused, trusted, rejected, disconnected, step,
  run_all, handle_submit, confirm_host_key,
}

-- The user was asked about this key for this request.
abbrev pub WasShown : ConnectInput → HostKeyPrompt → List (ConnectInput × HostKeyPrompt) → Type 0
WasShown input prompt [] = ⊥
WasShown input prompt ((i, p) ∷ rest) = ((input ≡ i) × (prompt ≡ p)) ⊎ WasShown input prompt rest

-- The request trusts no key, or one that was shown for the same request before.
abbrev pub IsHonest : List (ConnectInput × HostKeyPrompt) → ConnectInput → Type 0
IsHonest shown r =
    (r.trust_fingerprint ≡ none)
    ⊎ ((input : ConnectInput) × ((prompt : HostKeyPrompt) × ((r ≡ trusting prompt input)
            × WasShown input prompt shown)))

abbrev IsAsked :
    Option ConnectInput → Option HostKeyPrompt → List (ConnectInput × HostKeyPrompt) → Type 0
IsAsked none none shown = Unit
IsAsked (some input) (some prompt) shown = WasShown input prompt shown
IsAsked _ _ shown = ⊥

-- What holds of every state.
pub record IsWellFormed (s : App) : Type 0 where
  pub honest : All (IsHonest s.shown) s.sent
  pub asked : IsAsked s.pending s.host_key s.shown

IsHonest-cons :
    (shown : List (ConnectInput × HostKeyPrompt)) (q : ConnectInput × HostKeyPrompt)
    (r : ConnectInput)
    → IsHonest shown r
    → IsHonest (q ∷ shown) r
IsHonest-cons shown (i, p) r (inl e) = inl e
IsHonest-cons shown (i, p) r (inr (input, (prompt, (e, w)))) = inr (input, (prompt, (e, inr w)))

responded-IsWellFormed :
    (input : ConnectInput) (r : ConnectResult) (s : App)
    → IsWellFormed s
    → IsWellFormed (responded input r s)
unfolding responded
responded-IsWellFormed input (connected info) s h = record { honest = h.honest; asked = h.asked }
responded-IsWellFormed input (verify_host_key p) s h = record {
  honest = All-imp _ _ (IsHonest-cons s.shown (input, p)) s.sent h.honest;
  asked = inl (refl, refl);
}

confirmed-IsWellFormed :
    (pending : Option ConnectInput) (host_key : Option HostKeyPrompt) (s : App)
    → IsAsked pending host_key s.shown
    → IsWellFormed s
    → IsWellFormed (confirmed pending host_key s)
unfolding attempt
confirmed-IsWellFormed none host_key s a h = h
confirmed-IsWellFormed (some input) none s a h = h
confirmed-IsWellFormed (some input) (some prompt) s a h = record {
  honest = (inr (input, (prompt, (refl, a))), h.honest);
  asked = tt;
}

step-IsWellFormed :
    (to_number : Text → Num) (e : Event) (s : App)
    → IsWellFormed s
    → IsWellFormed (step to_number e s)
unfolding step confirm_host_key attempt handle_submit
step-IsWellFormed to_number (submitted form) s h = record {
  honest = (inl refl, h.honest);
  asked = h.asked;
}
step-IsWellFormed to_number (answered input r) s h = responded-IsWellFormed input r s h
step-IsWellFormed to_number (refused message) s h = record { honest = h.honest; asked = h.asked }
step-IsWellFormed to_number trusted s h = confirmed-IsWellFormed s.pending s.host_key s h.asked h
step-IsWellFormed to_number rejected s h = record { honest = h.honest; asked = tt }
step-IsWellFormed to_number disconnected s h = record { honest = h.honest; asked = h.asked }

run_all-IsWellFormed :
    (to_number : Text → Num) (es : List Event) (s : App)
    → IsWellFormed s
    → IsWellFormed (run_all to_number es s)
run_all-IsWellFormed to_number [] s h = h
run_all-IsWellFormed to_number (e ∷ es) s h =
    run_all-IsWellFormed to_number es (step to_number e s) (step-IsWellFormed to_number e s h)

-- Whatever happens since the start: each request that was sent either trusts no host key, or is a
-- request for which the user was shown a key before, with the fingerprint of that key.
pub run_all-IsHonest :
    (to_number : Text → Num) (es : List Event)
    → let s = run_all to_number es initial in All (IsHonest s.shown) s.sent
run_all-IsHonest to_number es =
    (run_all-IsWellFormed to_number es initial (record { honest = tt; asked = tt })).honest
