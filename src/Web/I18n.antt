-- ===== src/Web/I18n.antt =====
-- packages/web/src/i18n/index.ts: the choice of a language and the messages.
pub mod English
pub mod Spanish
pub mod Placeholders
pub mod Fallback
use desk_ssh.Base.{
  ℕ, List, [], ◌∷◌, ◌++◌, Bool, true, false, Option, none, some, or_else, ◌==◌, if◌then◌else◌,
  String,
}
use desk_ssh.Js.Text.{Text, codes, text_eq, split, to_lower_case, is_word}
use desk_ssh.Js.Map
use desk_ssh.Js.Map.{Map}
use desk_ssh.Web.I18n.English.{en}
use desk_ssh.Web.I18n.Spanish.{es}

pub data Locale : Type 0 where
  english spanish : Locale

abbrev pub Catalog : Type 0
Catalog = List (String × String)

-- `catalogs[locale]`.
unfoldable pub catalog : Locale → Catalog
catalog english = en
catalog spanish = es

-- The base of a language tag, if it is a supported locale; the empty base is not.
unfoldable pub supported : List Text → Option Locale
supported [] = none
supported (base ∷ rest) =
    if text_eq base (codes "en")
    then some english
    else if text_eq base (codes "es")
    then some spanish
    else none

unfoldable pub detect_locale : List Text → Locale
detect_locale [] = english
detect_locale (lang ∷ preferred) = elim (supported (split b'-' (to_lower_case lang))) [
  | some locale ↦ locale
  | none ↦ detect_locale preferred
]

unfoldable pub template : Catalog → Text → Option Text
template [] key = none
template ((k, v) ∷ rest) key = if text_eq (codes k) key then some (codes v) else template rest key

-- Where the search for `/\{(\w+)\}/g` stands: outside of braces, or behind a brace and these units.
pub data Scan : Type 0 where
  outside : Scan
  inside : Text → Scan

-- The text that stays of a brace that no placeholder follows.
abbrev pub pending_text : Scan → Text
pending_text outside = []
pending_text (inside name) = b'{' ∷ name

-- A placeholder with a value, or as it stands.
unfoldable pub fill : Map Text → Text → Text
fill params name = elim (Map.get name params) [ some v ↦ v | none ↦ b'{' ∷ name ++ codes "}" ]

abbrev pub restart : ℕ → Scan
restart c = if c == b'{' then inside [] else outside

abbrev pub plain_unit : ℕ → Text
plain_unit c = if c == b'{' then [] else c ∷ []

-- One unit: what is appended to the result, and where the search goes on.
unfoldable pub scan_unit : Map Text → Scan → ℕ → Text × Scan
scan_unit params outside c = (plain_unit c, restart c)
scan_unit params (inside []) c =
    if is_word c then ([], inside (c ∷ [])) else (b'{' ∷ plain_unit c, restart c)
scan_unit params (inside (d ∷ name)) c =
    if is_word c
    then ([], inside (d ∷ name ++ c ∷ []))
    else if c == b'}'
    then (fill params (d ∷ name), outside)
    else (b'{' ∷ (d ∷ name ++ plain_unit c), restart c)

unfoldable pub replace_all : Map Text → Scan → Text → Text
replace_all params scan [] = pending_text scan
replace_all params scan (c ∷ s) =
    let step = scan_unit params scan c in step.0 ++ replace_all params step.1 s

-- A key that is missing from the locale's catalog falls back to English; `none` for a key of neither.
unfoldable pub translate : Locale → Text → Option (Map Text) → Option Text
translate locale key params =
    elim (or_else (lift (template (catalog locale) key)) (template en key)) [
      | none ↦ none
      | some text ↦ some (elim params [ none ↦ text | some m ↦ replace_all m outside text ])
    ]
  where
    lift : Option Text → Option (Option Text)
    lift none = none
    lift (some t) = some (some t)
