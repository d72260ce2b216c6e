-- ===== src/Web/I18n/Fallback.antt =====
-- packages/web/src/i18n/index.ts: the fallback to English.
use desk_ssh.Base.{
  Option, none, some, is_some, false, ◌≡◌, refl, sym, ap, ◌∙◌, Option-cases, inl, inr,
  true-ne-false,
}
use desk_ssh.Js.Text.{Text}
use desk_ssh.Web.I18n.English.{en}
use desk_ssh.Web.I18n.{Locale, catalog, template, translate}
use desk_ssh.Web.I18n.Placeholders.{catalog_keys_same}

none_of_is_some : (o : Option Text) → is_some o ≡ false → o ≡ none
none_of_is_some none h = refl
none_of_is_some (some a) h = absurd (true-ne-false h)

-- Without parameters, a key is translated to the message of the locale's own catalogue, and to
-- nothing if there is none: no message falls back to English.
pub translate_own :
    (locale : Locale) (key : Text) → translate locale key none ≡ template (catalog locale) key
unfolding translate
translate_own locale key = elim (Option-cases (template (catalog locale) key)) [
  | inr (text, e) ↦ rw (e, translate)
  | inl e ↦ rw (
    e,
    none_of_is_some (template en key) (sym (catalog_keys_same locale key) ∙ ap is_some e),
    translate,
  )
]
