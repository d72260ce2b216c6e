-- ===== src/Web/Stallman/Reading.antt =====
-- packages/web/src/features/desktop/apps/StallmanApp.tsx: what is saved is what a later load shows.
use desk_ssh.Base.{ℕ, true, false, [], ◌∷◌, some, take, ◌≡◌, arith, ==_refl}
use desk_ssh.Js.Text.{Text, includes}
use desk_ssh.Web.Bytes.{
  Codec, text_to_base64, base64_to_text-text_to_base64, looks_like_text-text_to_base64,
}
use desk_ssh.Web.Stallman.{
  Editor, Write, response, ctrl_s, step, loaded, arrived, save, save_to, checked, onto, write_of,
  is_active, shown,
}

module _ (c : Codec) (text : Text) (bytes : c.atob (c.btoa (c.encode text)) ≡ some (c.encode text))
    (decodes : c.decode (c.encode text) ≡ text)
    (no_nul : includes (take 4096 (c.encode text)) (0 ∷ []) ≡ false) where
  loaded-text_to_base64 :
      (path : Text) (t : Editor)
      → loaded c path (some (text_to_base64 c text)) t ≡ shown path text t
  unfolding loaded checked onto
  loaded-text_to_base64 path t = rw (
    looks_like_text-text_to_base64 c text bytes,
    base64_to_text-text_to_base64 c text bytes decodes,
    no_nul,
  )

saved_write :
    (c : Codec) (s : Editor) (w : Write)
    → s.path ≡ some w.path
    → (step c ctrl_s s).writes ≡ w ∷ s.writes
    → w.base64 ≡ text_to_base64 c s.text
unfolding step save save_to write_of
saved_write c s w p e = ground (arith, p)

-- If `atob` undoes `btoa` and the decoder the encoder on the text of an open file, and there is no
-- NUL in the first 4096 bytes of its encoding: the response that holds what a save has written
-- shows an editor that waits for it this text, as unchanged.
pub response-save :
    (c : Codec) (s t : Editor) (w : Write) (run : ℕ)
    → c.atob (c.btoa (c.encode s.text)) ≡ some (c.encode s.text)
    → c.decode (c.encode s.text) ≡ s.text
    → includes (take 4096 (c.encode s.text)) (0 ∷ []) ≡ false
    → s.path ≡ some w.path
    → (step c ctrl_s s).writes ≡ w ∷ s.writes
    → t.active ≡ some run
    → step c (response run w.path (some w.base64)) t ≡ shown w.path s.text t
unfolding step arrived
response-save c s t w run a d n p e q =
    let waits : is_active t.active run ≡ true = ground (arith, ==_refl run) in
    rw (waits, saved_write c s w p e) (loaded-text_to_base64 c s.text a d n w.path t)
