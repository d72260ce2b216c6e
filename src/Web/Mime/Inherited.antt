-- ===== src/Web/Mime/Inherited.antt =====
-- packages/web/src/features/desktop/apps/lib.ts: the lookup of an extension.
use desk_ssh.Base.{◌∷◌, ◌++◌, some, ◌≡◌, refl, ◌∙◌}
use desk_ssh.Js.Text.{Text, codes, text_eq, to_lower_case}
use desk_ssh.Js.Text.Split.{Lacks, Lacks-of_test}
use desk_ssh.Js.Map.{get}
use desk_ssh.Web.Paths.Laws.{last_index_of-append, drop_after}
use desk_ssh.Web.Mime.{inherited, property, image_mime, image_mime_for}

-- The type of an image is looked up by what stands behind the last dot of the name, in lower case.
pub image_mime_for_extension :
    (stem extension : Text)
    → Lacks b'.' extension
    → image_mime_for (stem ++ b'.' ∷ extension) ≡ property image_mime (to_lower_case extension)
unfolding image_mime_for
image_mime_for_extension stem extension h =
    rw (image_mime_for, last_index_of-append b'.' stem extension h, drop_after stem b'.' extension)

-- Every name that ends in `.constructor` is taken for an image: its type is the function that the
-- table inherits under that key.
pub image_mime_for_constructor :
    (stem : Text)
    → image_mime_for (stem ++ codes ".constructor") ≡ some (inherited (codes "constructor"))
unfolding to_lower_case property get text_eq
image_mime_for_constructor stem =
    image_mime_for_extension stem (codes "constructor")
      (Lacks-of_test b'.' (codes "constructor") refl)
    ∙ refl
