-- ===== src/Core/Session/HostKey.antt =====
-- Reading the algorithm of a host key: packages/core/src/session/ssh-session.ts.
use native.Mathlib.Nat.{mod-eq_of_lt}
use desk_ssh.Base.{
  ap₂, some_inj, ◌∙◌, ℕ, zero, suc, ◌+◌, ◌*◌, ◌/◌, ◌%◌, ◌^◌, ◌≤◌, ◌<◌, List, [], ◌∷◌, ◌++◌, Bool,
  true, Option, none, some, ◌≡◌, ◌≢◌, ◌↔◌, ◌⊎◌, inl, inr, refl, arith, All, length, length-append,
  take, drop, take-append, ap,
}
use desk_ssh.Js.Text.{Text}
use desk_ssh.Core.Session.{HostKeyInfo, read_uint32_be, ascii, key_algorithm, host_verifier}

-- An SSH string: four bytes of length, most significant first, and the bytes (RFC 4251, section 5).
pub ssh_string : List ℕ → List ℕ
ssh_string s =
    (length s / 2 ^ 24) % 256
    ∷ (length s / 2 ^ 16) % 256
    ∷ (length s / 2 ^ 8) % 256
    ∷ length s % 256
    ∷ s

uint32_bytes :
    (n : ℕ)
    → n < 2 ^ 32
    → (((n / 2 ^ 24) % 256 * 256 + (n / 2 ^ 16) % 256) * 256 + (n / 2 ^ 8) % 256) * 256 + n % 256
      ≡ n
uint32_bytes n h = omega arith

length-pos : (s : List ℕ) → s ≢ [] → 0 < length s
length-pos [] h = absurd (h refl)
length-pos (b ∷ s) h = omega arith

length-drop4 : (s : List ℕ) → length (drop 4 s) + 4 ≤ length s ⊎ (drop 4 s ≡ [])
length-drop4 (a ∷ b ∷ c ∷ d ∷ s) = inl (omega arith)
length-drop4 [] = inr refl
length-drop4 (a ∷ []) = inr refl
length-drop4 (a ∷ b ∷ []) = inr refl
length-drop4 (a ∷ b ∷ c ∷ []) = inr refl

ascii_same : (s : List ℕ) → All (λ b. b < 128) s → ascii s ≡ s
unfolding ascii
ascii_same [] h = refl
ascii_same (b ∷ s) (h, hs) = ap₂ (λ c t. c ∷ t) (mod-eq_of_lt h) (ascii_same s hs)

key_algorithm_claimed :
    (a b c d : ℕ) (s : List ℕ) (n : ℕ)
    → ((a * 256 + b) * 256 + c) * 256 + d ≡ n
    → 0 < n
    → n ≤ length s
    → key_algorithm (a ∷ b ∷ c ∷ d ∷ s) ≡ ascii (take n s)
unfolding key_algorithm
key_algorithm_claimed a b c d s n e pos fits = rw (e, key_algorithm) (ground arith)

-- The algorithm of a key blob that begins with an SSH string of ASCII bytes is that string, whatever
-- follows it; the string is not empty and its length fits in four bytes.
pub key_algorithm-ssh_string :
    (name rest : List ℕ)
    → name ≢ []
    → length name < 2 ^ 32
    → All (λ b. b < 128) name
    → key_algorithm (ssh_string name ++ rest) ≡ name
unfolding ssh_string
key_algorithm-ssh_string name rest ne small plain =
    key_algorithm_claimed _ _ _ _ (name ++ rest) (length name) (uint32_bytes (length name) small)
      (length-pos name ne) (omega (arith, length-append name rest))
    ∙ rw (take-append name rest) (ascii_same name plain)

length-take-le : (n : ℕ) (s : List ℕ) → length (take n s) ≤ length s
length-take-le zero s = omega arith
length-take-le (suc n) [] = omega arith
length-take-le (suc n) (b ∷ s) = omega (arith, length-take-le n s)

length-ascii : (s : List ℕ) → length (ascii s) ≡ length s
unfolding ascii
length-ascii [] = refl
length-ascii (b ∷ s) = ap suc (length-ascii s)

-- A blob that does not hold as many bytes as it claims yields no algorithm, and an algorithm that is
-- not empty lies within the blob, behind the four bytes of the length.
pub key_algorithm_bounds :
    (key : List ℕ)
    → ((4 + read_uint32_be key ≤ length key) ⊎ (key_algorithm key ≡ []))
      × ((key_algorithm key ≡ []) ⊎ (length (key_algorithm key) + 4 ≤ length key))
unfolding key_algorithm
key_algorithm_bounds key = (
  ground arith,
  ground (
    arith,
    length-ascii (take (read_uint32_be key) (drop 4 key)),
    length-take-le (read_uint32_be key) (drop 4 key),
    length-drop4 key,
  ),
)

-- A key is accepted only if the caller has given a callback that answered yes for the algorithm and
-- the fingerprint of this very key; with no callback, or one that throws, it is rejected.
pub host_verifier_iff :
    (verify : Option (HostKeyInfo → Option Bool)) (fingerprint : List ℕ → Text) (key : List ℕ)
    → (host_verifier verify fingerprint key ≡ true) ↔ (
        (f : HostKeyInfo → Option Bool) × (verify ≡ some f)
        × (f (record { algorithm = key_algorithm key; fingerprint = fingerprint key }) ≡ some true))
unfolding host_verifier
host_verifier_iff none fingerprint key = (λ h. cc, λ h. cc)
host_verifier_iff (some f) fingerprint key = (λ h. (f, refl, ground arith), λ (g, e, h). go g e h)
  where
    info : HostKeyInfo
    info = record { algorithm = key_algorithm key; fingerprint = fingerprint key }

    go :
        (g : HostKeyInfo → Option Bool)
        → some f ≡ some g
        → g info ≡ some true
        → host_verifier (some f) fingerprint key ≡ true
    go g e h = rw (some_inj e, h)
