-- ===== src/Web/Bytes.antt =====
-- packages/web/src/features/desktop/apps/lib.ts: bytes and text in base64. A string of bytes is a list of
-- units below 256. `atob`, which throws on malformed text, `btoa`, `TextDecoder` and `TextEncoder`
-- belong to the browser and are parameters.
use desk_ssh.Base.{Bool, not, [], ◌∷◌, Option, none, some, take, ◌≡◌}
use desk_ssh.Js.Text.{Text, includes}

pub record Codec : Type 0 where
  pub atob : Text → Option Text
  pub btoa : Text → Text
  pub decode : Text → Text
  pub encode : Text → Text

module _ (c : Codec) where
  unfoldable pub base64_to_bytes : Text → Option Text
  base64_to_bytes base64 = c.atob base64

  abbrev decoded : Option Text → Option Text
  decoded none = none
  decoded (some bytes) = some (c.decode bytes)

  unfoldable pub base64_to_text : Text → Option Text
  unfolding base64_to_bytes
  base64_to_text base64 = decoded (base64_to_bytes base64)

  unfoldable pub text_to_base64 : Text → Text
  text_to_base64 text = c.btoa (c.encode text)

  abbrev pub sampled : Option Text → Option Bool
  sampled none = none
  sampled (some bytes) = some (not (includes (take 4096 bytes) (0 ∷ [])))

  -- `none` where `atob` throws.
  unfoldable pub looks_like_text : Text → Option Bool
  unfolding includes
  looks_like_text base64 = sampled (c.atob base64)

  module _ (text : Text) (bytes : c.atob (c.btoa (c.encode text)) ≡ some (c.encode text)) where
    pub base64_to_text-text_to_base64 :
        c.decode (c.encode text) ≡ text → base64_to_text (text_to_base64 text) ≡ some text
    unfolding base64_to_text text_to_base64
    base64_to_text-text_to_base64 h = rw (bytes, h)

    pub looks_like_text-text_to_base64 :
        looks_like_text (text_to_base64 text) ≡ sampled (some (c.encode text))
    unfolding looks_like_text text_to_base64
    looks_like_text-text_to_base64 = rw bytes
