-- ===== src/Server/Gateway/Reading.antt =====
-- packages/server/src/gateway.ts: reading the body of a request, and the response to one that failed.
-- The bytes arrive in chunks; `JSON.parse` and the decoding of UTF-8 are parameters.
use desk_ssh.Base.{
  ℕ, ◌+◌, List, [], ◌∷◌, ◌++◌, length, Option, none, some, ltb, if◌then◌else◌, ◌≡◌, refl, arith,
  length-append, append_assoc, Bool-cases, inl, inr, append-nil, true, ◌≤◌, ◌<◌, lt→ltb,
}
use mathlib.Core.Path.{subst}
use desk_ssh.Js.Text.{Text, codes}
use desk_ssh.Js.Json.{Json, string, object, no_fields, field}
use desk_ssh.Server.Gateway.Body.{Checked, good, bad}

abbrev pub max_body_bytes : ℕ
max_body_bytes = 1000000

-- What `handle` was rejected with.
pub data Failure : Type 0 where
  http_error : (status : ℕ) (message : Text) → Failure
  error : (message : Text) → Failure
  not_an_error : Failure

abbrev error_body : Text → Json
error_body message = object (field (codes "error") (string message) no_fields)

-- The status and the value of the response, unless one was begun.
unfoldable pub failure_response : Failure → ℕ × Json
failure_response (http_error status message) = (status, error_body message)
failure_response (error message) = (500, error_body message)
failure_response not_an_error = (500, error_body (codes "Internal error"))

abbrev pub concat : List (List ℕ) → List ℕ
concat [] = []
concat (chunk ∷ chunks) = chunk ++ concat chunks

module _ (max : ℕ) (utf8 : List ℕ → Text) (parse : Text → Option Json) where
  abbrev parsed_body : Option Json → Checked Json
  parsed_body (some v) = good v
  parsed_body none = bad 400 (codes "Invalid JSON body")

  -- The `end` event.
  unfoldable pub body_of : Text → Checked Json
  body_of [] = good (object no_fields)
  body_of (c ∷ raw) = parsed_body (parse (c ∷ raw))

  abbrev too_large : Checked Json
  too_large = bad 413 (codes "Request body too large")

  -- The `data` events, given the chunks that were kept; `size` is their length.
  unfoldable pub read_chunks : ℕ → List ℕ → List (List ℕ) → Checked Json
  unfolding body_of
  read_chunks size kept [] = body_of (utf8 kept)
  read_chunks size kept (chunk ∷ chunks) =
      let rest = read_chunks (size + length chunk) (kept ++ chunk) chunks in
      if ltb max (size + length chunk) then too_large else rest

  unfoldable pub read_json_body : List (List ℕ) → Checked Json
  unfolding read_chunks
  read_json_body chunks = read_chunks 0 [] chunks

  -- What the bytes spell: an empty object if there are none.
  abbrev spelled : Text → Option Json → Checked Json
  spelled [] v = good (object no_fields)
  spelled (c ∷ raw) none = bad 400 (codes "Invalid JSON body")
  spelled (c ∷ raw) (some v) = good v

  -- What a body of these bytes is worth, written without the loop and its helpers.
  abbrev pub whole_body : List ℕ → Checked Json
  whole_body bytes =
      if ltb max (length bytes)
      then bad 413 (codes "Request body too large")
      else spelled (utf8 bytes) (parse (utf8 bytes))

  body_of-spelled : (raw : Text) → body_of raw ≡ spelled raw (parse raw)
  unfolding body_of
  body_of-spelled [] = refl
  body_of-spelled (c ∷ raw) = go (parse (c ∷ raw))
    where
      go : (v : Option Json) → parsed_body v ≡ spelled (c ∷ raw) v
      go none = refl
      go (some v) = refl

  read_chunks_lem :
      (kept : List ℕ) (chunks : List (List ℕ))
      → length kept ≤ max
      → read_chunks (length kept) kept chunks ≡ whole_body (kept ++ concat chunks)
  unfolding read_chunks
  read_chunks_lem kept [] h = rw (append-nil, body_of-spelled) (ground arith)
  read_chunks_lem kept (chunk ∷ chunks) h =
      elim (Bool-cases (ltb max (length kept + length chunk))) [
        | inl e ↦ rw (e, over (ground arith)) refl
        | inr e ↦ rw e (
            subst
              (λ n.
                read_chunks n (kept ++ chunk) chunks
                ≡ whole_body (kept ++ (chunk ++ concat chunks)))
              (length-append kept chunk)
              (rw append_assoc at
                (read_chunks_lem (kept ++ chunk) chunks (rw length-append (ground arith)))))
      ]
    where
      over :
          max < length kept + length chunk
          → ltb max (length (kept ++ (chunk ++ concat chunks))) ≡ true
      over k = lt→ltb _ _ (
          omega (
            arith,
            length-append kept (chunk ++ concat chunks),
            length-append chunk (concat chunks),
          ))

  read_json_body-whole_body :
      (chunks : List (List ℕ)) → read_json_body chunks ≡ whole_body (concat chunks)
  unfolding read_json_body
  read_json_body-whole_body chunks = read_chunks_lem [] chunks (omega arith)

-- However the bytes of a body arrive in chunks, what is read is that of the bytes as a whole: status
-- 413 if they are more than 1,000,000, else an empty object if they spell the empty text, else the value
-- that `JSON.parse` gives for the text, or status 400 where it gives none.
pub read_json_body_lem :
    (utf8 : List ℕ → Text) (parse : Text → Option Json) (chunks : List (List ℕ))
    → read_json_body max_body_bytes utf8 parse chunks
      ≡ whole_body 1000000 utf8 parse (concat chunks)
read_json_body_lem utf8 parse chunks = read_json_body-whole_body max_body_bytes utf8 parse chunks
