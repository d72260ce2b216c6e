-- ===== src/Server/Static.antt =====
-- packages/server/src/static.ts: the files of the web interface. `decodeURIComponent`, `normalize`, `join`,
-- `extname` and what the file system tells of a path are parameters.
pub mod Upward
pub mod Inside
use desk_ssh.Base.{
  ℕ, Bool, true, false, not, ◌&&◌, ◌||◌, List, [], ◌∷◌, ◌++◌, map, Option, none, some, or_else,
  if◌then◌else◌, ◌==◌, ◌≡◌, ◌≢◌, ◌⊎◌, inl, inr, refl, sym, ◌∙◌, ap, arith, All, Bool-cases,
  some_inj,
}
use mathlib.Core.Path.{subst}
use desk_ssh.Js.Text.{Text, codes, starts_with, split}
use desk_ssh.Js.Map
use desk_ssh.Js.Map.{Map}
use desk_ssh.Web.Mime.{row}
use desk_ssh.Core.Exec.{Outcome, done, threw}

-- What stands at a path.
pub data Entry : Type 0 where
  absent folder file : Entry

pub record Node : Type 0 where
  -- `none` where `decodeURIComponent` throws.
  pub decode : Text → Option Text
  pub normalize : Text → Text
  pub join : Text → Text → Text
  pub extname : Text → Text
  pub entry_at : Text → Entry

abbrev pub mime : Map Text
mime = map row (
    (".html", "text/html; charset=utf-8")
    ∷ (".js", "text/javascript; charset=utf-8")
    ∷ (".css", "text/css; charset=utf-8")
    ∷ (".json", "application/json; charset=utf-8")
    ∷ (".svg", "image/svg+xml")
    ∷ (".png", "image/png")
    ∷ (".jpg", "image/jpeg")
    ∷ (".ico", "image/x-icon")
    ∷ (".woff", "font/woff")
    ∷ (".woff2", "font/woff2")
    ∷ [])

abbrev pub is_up : ℕ → ℕ → ℕ → Bool
is_up a b c = (a == b'.') && ((b == b'.') && ((c == b'/') || (c == b'\\')))

-- `s.replace(/^(\.\.[/\\])+/, '')`.
unfoldable pub strip_up : Text → Text
strip_up (a ∷ b ∷ c ∷ s) = let rest = strip_up s in if is_up a b c then rest else a ∷ b ∷ c ∷ s
strip_up s = s

-- The file that is sent and its content type.
pub record Served : Type 0 where
  pub file_path : Text
  pub content_type : Text

abbrev pub is_file : Entry → Bool
is_file file = true
is_file _ = false

abbrev pub is_absent : Entry → Bool
is_absent absent = true
is_absent _ = false

module _ (n : Node) where
  unfoldable pub sent : Text → Served
  sent path = record {
    file_path = path;
    content_type = or_else (Map.get (n.extname path) mime) (codes "application/octet-stream");
  }

  unfoldable pub serve_path : (dir path : Text) → Option Served
  unfolding sent
  serve_path dir path =
      let index = n.join dir (codes "index.html") in
      if not (starts_with path dir)
      then none
      else if is_file (n.entry_at path)
      then some (sent path)
      else if is_absent (n.entry_at index)
      then none
      else some (sent index)

  abbrev pub serve_decoded : Text → Option Text → Outcome (Option Served)
  serve_decoded dir none = threw (codes "URI malformed")
  serve_decoded dir (some url) = done (serve_path dir (n.join dir (strip_up (n.normalize url))))

  -- `none` where the request is left to the routes.
  unfoldable pub serve_static : (dir url_path : Text) → Outcome (Option Served)
  unfolding serve_path strip_up
  serve_static dir url_path = serve_decoded dir (n.decode url_path)
