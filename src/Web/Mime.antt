-- ===== src/Web/Mime.antt =====
-- packages/web/src/features/desktop/apps/lib.ts: what kind of file a name stands for.
pub mod Inherited
use desk_ssh.Base.{
  ℕ, suc, List, [], ◌∷◌, ◌++◌, Bool, Option, none, some, drop, map, if◌then◌else◌, ◌||◌, String,
}
use desk_ssh.Js.Text.{Text, codes, text_eq, last_index_of, to_lower_case, ends_with}
use desk_ssh.Js.Map
use desk_ssh.Js.Map.{Map}
use desk_ssh.Web.Paths.{base_name}

-- What reading a property of an object literal gives: a value of its own, or what every object
-- inherits under that name.
pub data Property : Type 0 where
  own : Text → Property
  inherited : Text → Property

-- The names in lower case that every object inherits.
abbrev is_inherited : Text → Bool
is_inherited k = text_eq k (codes "constructor") || text_eq k (codes "__proto__")

unfoldable pub property : Map Text → Text → Option Property
property m k = elim (Map.get k m) [
  | some v ↦ some (own v)
  | none ↦ if is_inherited k then some (inherited k) else none
]

abbrev pub row : String × String → Text × Text
row (k, v) = (codes k, codes v)

abbrev pub image_mime : Map Text
image_mime = map row (
    ("png", "image/png")
    ∷ ("jpg", "image/jpeg")
    ∷ ("jpeg", "image/jpeg")
    ∷ ("gif", "image/gif")
    ∷ ("webp", "image/webp")
    ∷ ("bmp", "image/bmp")
    ∷ ("svg", "image/svg+xml")
    ∷ ("avif", "image/avif")
    ∷ ("ico", "image/x-icon")
    ∷ [])

unfoldable pub image_mime_for : Text → Option Property
image_mime_for name = elim (last_index_of b'.' name) [
  | none ↦ none
  | some dot ↦ property image_mime (to_lower_case (drop (suc dot) name))
]

unfoldable pub is_pdf : Text → Bool
is_pdf name = ends_with (to_lower_case name) (codes ".pdf")

abbrev pub monaco_lang : Map Text
monaco_lang = map row (
    ("c", "c")
    ∷ ("h", "c")
    ∷ ("cpp", "cpp")
    ∷ ("cc", "cpp")
    ∷ ("cxx", "cpp")
    ∷ ("hpp", "cpp")
    ∷ ("hh", "cpp")
    ∷ ("cs", "csharp")
    ∷ ("java", "java")
    ∷ ("py", "python")
    ∷ ("pyw", "python")
    ∷ ("js", "javascript")
    ∷ ("mjs", "javascript")
    ∷ ("cjs", "javascript")
    ∷ ("jsx", "javascript")
    ∷ ("ts", "typescript")
    ∷ ("tsx", "typescript")
    ∷ ("sql", "sql")
    ∷ ("html", "html")
    ∷ ("htm", "html")
    ∷ ("xml", "xml")
    ∷ ("svg", "xml")
    ∷ ("json", "json")
    ∷ ("md", "markdown")
    ∷ ("markdown", "markdown")
    ∷ ("css", "css")
    ∷ ("scss", "scss")
    ∷ ("less", "less")
    ∷ ("sh", "shell")
    ∷ ("bash", "shell")
    ∷ ("yaml", "yaml")
    ∷ ("yml", "yaml")
    ∷ ("go", "go")
    ∷ ("rs", "rust")
    ∷ ("php", "php")
    ∷ ("rb", "ruby")
    ∷ ("ini", "ini")
    ∷ ("conf", "ini")
    ∷ ("toml", "ini")
    ∷ [])

abbrev or_plaintext : Option Property → Property
or_plaintext none = own (codes "plaintext")
or_plaintext (some p) = p

unfoldable pub monaco_language_for : Text → Property
monaco_language_for name =
    let seg = base_name name in
    if text_eq seg (codes "Dockerfile")
    then own (codes "dockerfile")
    else if text_eq seg (codes "Makefile")
    then own (codes "makefile")
    else elim (last_index_of b'.' seg) [
      | none ↦ own (codes "plaintext")
      | some dot ↦ or_plaintext (property monaco_lang (to_lower_case (drop (suc dot) seg)))
    ]
