-- ===== src/Server/Terminal/Closing.antt =====
-- packages/server/src/terminal.ts: whether the shell of a terminal is closed with its socket.
use desk_ssh.Base.{
  Bool, true, false, List, [], ◌∷◌, Option, none, some, ◌≡◌, refl, arith, ◌↔◌, inl, inr, Bool-cases,
  true-ne-false, sym, ◌∙◌,
}
use desk_ssh.Js.Json.{Json, null, boolean, number, string, array, object}
use desk_ssh.Server.Terminal.{
  Bridge, Message, ignored, thrown, input, resize, read_message, opening, running, Event,
  shell_opened, shell_failed, shell_ended, socket_closed, output, message, handled, is_running,
  step, run, IsOffered, AllOffered,
}

abbrev not_open : Bool → Bool
not_open true = false
not_open false = true

-- The shell runs, and is closed if the socket is.
pub record IsBound (s : Bridge) : Type 0 where
  pub runs : s.shell ≡ running
  pub together : s.shell_closed ≡ not_open s.socket_open

handled-IsBound : (m : Message) (s : Bridge) → IsBound s → IsBound (handled m s)
handled-IsBound ignored s h = h
handled-IsBound thrown s h = record { runs = h.runs; together = h.together }
handled-IsBound (input text) s h = record { runs = h.runs; together = h.together }
handled-IsBound (resize cols rows) s h = record { runs = h.runs; together = h.together }

step-IsBound : (e : Event) (s : Bridge) → IsBound s → IsBound (step e s)
unfolding step
step-IsBound shell_opened s h = ground arith
step-IsBound shell_failed s h = ground arith
step-IsBound shell_ended s h = ground arith
step-IsBound socket_closed s h = ground arith
step-IsBound (output chunk) s h = ground arith
step-IsBound (message value) s h = elim (Bool-cases (is_running s.shell)) [
  | inl e ↦ rw e (handled-IsBound (read_message value) s h)
  | inr e ↦ rw e h
]

run-IsBound : (es : List Event) (s : Bridge) → IsBound s → IsBound (run es s)
run-IsBound [] s h = h
run-IsBound (e ∷ es) s h = run-IsBound es (step e s) (step-IsBound e s h)

-- Once the shell runs while the socket is open: whatever happens then, the shell is closed exactly if
-- the socket is.
pub run-shell_closed :
    (s : Bridge) (es : List Event)
    → s.shell ≡ running
    → s.socket_open ≡ true
    → s.shell_closed ≡ false
    → ((run es s).shell_closed ≡ true) ↔ ((run es s).socket_open ≡ false)
run-shell_closed s es r o c =
    let h = run-IsBound es s (record { runs = r; together = rw (o, c) refl }) in
    (λ e. ground (arith, h.together), λ e. ground (arith, h.together))

-- The socket is closed, and the shell was not.
pub record IsLeft (s : Bridge) : Type 0 where
  pub gone : s.socket_open ≡ false
  pub unclosed : s.shell_closed ≡ false

handled-IsLeft : (m : Message) (s : Bridge) → IsLeft s → IsLeft (handled m s)
handled-IsLeft ignored s h = h
handled-IsLeft thrown s h = record { gone = h.gone; unclosed = h.unclosed }
handled-IsLeft (input text) s h = record { gone = h.gone; unclosed = h.unclosed }
handled-IsLeft (resize cols rows) s h = record { gone = h.gone; unclosed = h.unclosed }

step-IsLeft : (e : Event) (s : Bridge) → IsOffered e s → IsLeft s → IsLeft (step e s)
unfolding step
step-IsLeft shell_opened s o h = ground arith
step-IsLeft shell_failed s o h = ground arith
step-IsLeft shell_ended s o h = ground arith
step-IsLeft socket_closed s o h = absurd (true-ne-false (sym o ∙ h.gone))
step-IsLeft (output chunk) s o h = ground arith
step-IsLeft (message value) s o h = elim (Bool-cases (is_running s.shell)) [
  | inl e ↦ rw e (handled-IsLeft (read_message value) s h)
  | inr e ↦ rw e h
]

run-IsLeft : (es : List Event) (s : Bridge) → AllOffered es s → IsLeft s → IsLeft (run es s)
run-IsLeft [] s o h = h
run-IsLeft (e ∷ es) s (o, os) h = run-IsLeft es (step e s) os (step-IsLeft e s o h)

gone_of : (t : Bridge) → t.shell ≡ opening → (step socket_closed t).socket_open ≡ false
unfolding step
gone_of t o = ground arith

unclosed_of :
    (t : Bridge)
    → t.shell ≡ opening
    → t.shell_closed ≡ false
    → (step socket_closed t).shell_closed ≡ false
unfolding step
unclosed_of t o c = ground arith

-- If the socket closes while the shell is still being opened, then the shell is never closed by the
-- bridge, whatever happens then, its opening included.
pub socket_closed_early :
    (s : Bridge) (es : List Event)
    → s.shell ≡ opening
    → s.shell_closed ≡ false
    → AllOffered es (step socket_closed s)
    → (run es (step socket_closed s)).shell_closed ≡ false
socket_closed_early s es o c a = (run-IsLeft es (step socket_closed s) a (left s o c)).unclosed
  where
    left : (t : Bridge) → t.shell ≡ opening → t.shell_closed ≡ false → IsLeft (step socket_closed t)
    left t o c = record { gone = gone_of t o; unclosed = unclosed_of t o c }

thrown_null : (v : Option Json) → read_message v ≡ thrown → v ≡ some null
unfolding read_message
thrown_null none h = cc
thrown_null (some null) h = refl
thrown_null (some (object o)) h = ground arith
thrown_null (some (boolean b)) h = cc
thrown_null (some (number n)) h = cc
thrown_null (some (string t)) h = cc
thrown_null (some (array items)) h = cc

-- The listener throws exactly at the message `null`.
pub read_message_thrown : (v : Option Json) → (read_message v ≡ thrown) ↔ (v ≡ some null)
read_message_thrown v = (thrown_null v, λ e. rw e (unfold read_message in refl))
