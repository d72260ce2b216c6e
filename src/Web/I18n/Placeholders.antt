-- ===== src/Web/I18n/Placeholders.antt =====
-- packages/web/src/i18n/index.ts: the catalogues have the same keys, and what replacing yields.
use desk_ssh.Base.{
  ℕ, List, [], ◌∷◌, ◌++◌, append_assoc, append-nil, Bool, true, false, Option, none, some, is_some,
  if◌then◌else◌, ==_ne, All, ◌≡◌, refl, sym, ap, ◌∙◌, Bool-cases, inl, inr,
}
use desk_ssh.Js.Text.{Text, codes, text_eq, is_word, is_digit, split, to_lower_case}
use desk_ssh.Js.Text.Split.{Lacks}
use desk_ssh.Js.Map.{Map, get}
use desk_ssh.Web.I18n.English.{en}
use desk_ssh.Web.I18n.Spanish.{es}
use desk_ssh.Web.I18n.{
  Locale, english, spanish, Catalog, catalog, template, outside, inside, scan_unit, replace_all,
  fill, detect_locale, supported,
}

abbrev keys_of : Catalog → List Text
keys_of [] = []
keys_of ((k, v) ∷ rest) = codes k ∷ keys_of rest

abbrev lists : List Text → Text → Bool
lists [] key = false
lists (k ∷ ks) key = if text_eq k key then true else lists ks key

template_some : (c : Catalog) (key : Text) → is_some (template c key) ≡ lists (keys_of c) key
unfolding template
template_some [] key = refl
template_some ((k, v) ∷ rest) key = elim (Bool-cases (text_eq (codes k) key)) [
  | inl e ↦ rw e refl
  | inr e ↦ rw e (template_some rest key)
]

same_keys : keys_of es ≡ keys_of en
unfolding en es
same_keys = refl

-- A key has a message in a locale exactly if it has one in English.
pub catalog_keys_same :
    (locale : Locale) (key : Text)
    → is_some (template (catalog locale) key) ≡ is_some (template en key)
unfolding catalog
catalog_keys_same english key = refl
catalog_keys_same spanish key =
    template_some es key ∙ (ap (λ ks. lists ks key) same_keys ∙ sym (template_some en key))

module _ (params : Map Text) where
  -- Behind an open brace, word characters are kept back.
  replace_inside :
      (d : ℕ) (word name rest : Text)
      → All (λ c. is_word c ≡ true) name
      → replace_all params (inside (d ∷ word)) (name ++ rest)
        ≡ replace_all params (inside (d ∷ word ++ name)) rest
  unfolding replace_all scan_unit
  replace_inside d word [] rest h = rw append-nil refl
  replace_inside d word (c ∷ name) rest (e, h) =
      rw (e, replace_inside d (word ++ c ∷ []) name rest h, append_assoc word (c ∷ []) name)

  replace_plain :
      (before rest : Text)
      → Lacks b'{' before
      → replace_all params outside (before ++ rest) ≡ before ++ replace_all params outside rest
  unfolding replace_all scan_unit
  replace_plain [] rest h = refl
  replace_plain (c ∷ before) rest (n, h) = rw (==_ne c b'{' n, replace_plain before rest h)

  fill-some : (name value : Text) → get name params ≡ some value → fill params name ≡ value
  unfolding fill
  fill-some name value e = rw (e, fill)

  replace_name :
      (c : ℕ) (name rest : Text)
      → All (λ c. is_word c ≡ true) (c ∷ name)
      → replace_all params outside (b'{' ∷ c ∷ (name ++ b'}' ∷ rest))
        ≡ fill params (c ∷ name) ++ replace_all params outside rest
  unfolding replace_all scan_unit
  replace_name c name rest (e, h) =
      rw (e, replace_inside c [] name (b'}' ∷ rest) h) (unfold is_word is_digit in refl)

  -- The first placeholder of a message, when a value is given for its name, is replaced by that
  -- value; the text before it stays, the value is not searched again, and the search goes on behind.
  pub replace_all_placeholder :
      (before : Text) (c : ℕ) (name rest value : Text)
      → Lacks b'{' before
      → All (λ c. is_word c ≡ true) (c ∷ name)
      → get (c ∷ name) params ≡ some value
      → replace_all params outside (before ++ b'{' ∷ c ∷ (name ++ b'}' ∷ rest))
        ≡ before ++ (value ++ replace_all params outside rest)
  replace_all_placeholder before c name rest value h w e =
      rw (replace_plain before (b'{' ∷ c ∷ (name ++ b'}' ∷ rest)) h, replace_name c name rest w)
        (ap (λ t. before ++ (t ++ replace_all params outside rest)) (fill-some (c ∷ name) value e))

-- The language whose base `split('-')[0]` of the tag in lower case is.
abbrev pub base_locale : Text → Option Locale
base_locale lang = supported (split b'-' (to_lower_case lang))

-- The locale is that of the first preferred language that is supported.
pub detect_locale_first :
    (before : List Text) (lang : Text) (locale : Locale) (rest : List Text)
    → All (λ l. base_locale l ≡ none) before
    → base_locale lang ≡ some locale
    → detect_locale (before ++ lang ∷ rest) ≡ locale
unfolding detect_locale
detect_locale_first [] lang locale rest h e = rw (e, detect_locale)
detect_locale_first (l ∷ ls) lang locale rest (n, h) e =
    rw (n, detect_locale) (detect_locale_first ls lang locale rest h e)

-- The locale is English if none of the preferred languages is supported.
pub detect_locale_default :
    (langs : List Text) → All (λ l. base_locale l ≡ none) langs → detect_locale langs ≡ english
unfolding detect_locale
detect_locale_default [] h = refl
detect_locale_default (l ∷ ls) (n, h) = rw (n, detect_locale) (detect_locale_default ls h)
