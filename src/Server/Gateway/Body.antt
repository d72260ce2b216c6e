-- ===== src/Server/Gateway/Body.antt =====
-- packages/server/src/gateway.ts: the validation of a request's body. The text of a body is parsed by
-- `JSON.parse`; a body is the value that it returned.
use desk_ssh.Base.{ℕ, List, [], ◌∷◌, ◌++◌, Bool, false, Option, none, some, if◌then◌else◌}
use desk_ssh.Js.Text.{Text, codes, text_eq, join}
use desk_ssh.Js.Json.{Json, null, string, array, object, Fields, no_fields, field}
use desk_ssh.Core.Session.{SshAuth, password, private_key}
use desk_ssh.Server.Manager.{SessionEntry, Manager, get}

-- A checked value, or the status and the message of the response.
pub data Checked {ℓ} (A : Type ℓ) : Type ℓ where
  good : A → Checked A
  bad : ℕ → Text → Checked A

abbrev pub and_then {ℓ κ} : {A : Type ℓ} {B : Type κ} → Checked A → (A → Checked B) → Checked B
and_then (good a) k = k a
and_then (bad status message) k = bad status message

unfoldable pub field_of : Text → Fields → Option Json
field_of key no_fields = none
field_of key (field k v rest) = if text_eq k key then some v else field_of key rest

-- `body[key]`: no value but an object has a field of the names that the gateway reads, and reading a
-- field of `null` throws a `TypeError`, which becomes status 500.
unfoldable pub property_of : Text → Json → Checked (Option Json)
unfolding field_of
property_of key null =
    bad 500 (codes "Cannot read properties of null (reading '" ++ (key ++ codes "')"))
property_of key (object fields) = good (field_of key fields)
property_of key other = good none

-- `typeof value === 'string'`.
abbrev pub text_of : Option Json → Option Text
text_of (some (string s)) = some s
text_of other = none

abbrev pub required : Text → Option Text → Checked Text
required key (some (c ∷ s)) = good (c ∷ s)
required key other = bad 400 (codes "Missing or invalid \"" ++ (key ++ codes "\""))

unfoldable pub as_string : Json → Text → Checked Text
unfolding property_of
as_string body key = and_then (property_of key body) (λ v. required key (text_of v))

-- The table of allowed words, with what each stands for.
unfoldable pub choose {ℓ} : {A : Type ℓ} → Text → List (Text × A) → Option A
unfolding text_eq
choose s [] = none
choose s ((w, a) ∷ rest) = if text_eq w s then some a else choose s rest

abbrev words {ℓ} : {A : Type ℓ} → List (Text × A) → List Text
words [] = []
words ((w, a) ∷ rest) = w ∷ words rest

abbrev pub allowed_only {ℓ} : {A : Type ℓ} → Text → List (Text × A) → Option A → Checked A
allowed_only key table (some a) = good a
allowed_only key table none = bad 400 (
    codes "Invalid \""
    ++ (key ++ (codes "\": expected one of " ++ join (codes ", ") (words table))))

abbrev pub chosen {ℓ} : {A : Type ℓ} → List (Text × A) → Option Text → Option A
chosen table none = none
chosen table (some s) = choose s table

unfoldable pub as_one_of {ℓ} : {A : Type ℓ} → Json → Text → List (Text × A) → Checked A
unfolding property_of choose
as_one_of body key table =
    and_then (property_of key body) (λ v. allowed_only key table (chosen table (text_of v)))

pub data Elevate : Type 0 where
  current : (password : Text) → Elevate
  user : (name password : Text) → Elevate

abbrev pub kind_is : Text → Fields → Bool
kind_is kind o = elim (text_of (field_of (codes "kind") o)) [
  | some s ↦ text_eq s kind
  | none ↦ false
]

abbrev text_field : Text → Fields → Option Text
text_field key o = text_of (field_of key o)

abbrev pub map_option : {A B : Type 0} → (A → B) → Option A → Option B
map_option f none = none
map_option f (some a) = some (f a)

abbrev pub map_both : {A B C : Type 0} → (A → B → C) → Option A → Option B → Option C
map_both f (some a) (some b) = some (f a b)
map_both f _ _ = none

abbrev pub first_of : {A : Type 0} → Option A → Option A → Option A
first_of (some a) other = some a
first_of none other = other

abbrev pub as_current : Fields → Option Elevate
as_current o =
    if kind_is (codes "current") o
    then map_option current (text_field (codes "password") o)
    else none

abbrev pub as_user : Fields → Option Elevate
as_user o =
    if kind_is (codes "user") o
    then map_both user (text_field (codes "user") o) (text_field (codes "password") o)
    else none

abbrev pub invalid_elevate : Text
invalid_elevate = codes "Invalid \"elevate\": expected { kind: \"current\"|\"user\", … }"

abbrev pub elevate_required : Option Elevate → Checked (Option Elevate)
elevate_required (some e) = good (some e)
elevate_required none = bad 400 invalid_elevate

unfoldable pub parse_elevate : Option Json → Checked (Option Elevate)
unfolding field_of text_eq
parse_elevate none = good none
parse_elevate (some null) = good none
parse_elevate (some (object o)) = elevate_required (first_of (as_current o) (as_user o))
parse_elevate (some (array items)) = bad 400 invalid_elevate
parse_elevate (some other) = bad 400 (codes "Invalid \"elevate\"")

abbrev pub as_password : Fields → Option SshAuth
as_password o =
    if kind_is (codes "password") o
    then map_option password (text_field (codes "password") o)
    else none

abbrev pub as_private_key : Fields → Option SshAuth
as_private_key o =
    if kind_is (codes "privateKey") o
    then map_option (λ key. private_key key (text_field (codes "passphrase") o))
        (text_field (codes "privateKey") o)
    else none

abbrev pub auth_required : Option SshAuth → Checked SshAuth
auth_required (some auth) = good auth
auth_required none = bad 400 (codes "Invalid \"auth\": expected password or privateKey")

unfoldable pub parse_auth : Option Json → Checked SshAuth
unfolding field_of text_eq
parse_auth (some (object o)) = auth_required (first_of (as_password o) (as_private_key o))
parse_auth (some (array items)) = auth_required none
parse_auth other = bad 400 (codes "Missing \"auth\"")

abbrev pub known_session : {S : Type 0} → Option (SessionEntry S) → Checked (SessionEntry S)
known_session (some entry) = good entry
known_session none = bad 404 (codes "Unknown session")

unfoldable pub require_session : {S : Type 0} → Manager S → Json → Checked (SessionEntry S)
unfolding as_string get
require_session manager body =
    and_then (as_string body (codes "sessionId")) (λ id. known_session (get id manager))
