-- ===== src/Core/Session/Output.antt =====
-- What `exec` of packages/core/src/session/ssh-session.ts collects.
use desk_ssh.Base.{ℕ, List, [], ◌∷◌, ◌++◌, append_assoc, append-nil, Option, none, ◌≡◌, ◌∙◌}
use desk_ssh.Js.Text.{Text}
use desk_ssh.Core.Exec.{ExecResult}
use desk_ssh.Core.Session.{Chunk, out, err, collect, exec_result}

module _ (decode : List ℕ → Text) where
  -- The texts of the chunks of one stream, one behind the other.
  abbrev pub out_text : List Chunk → Text
  out_text [] = []
  out_text (out bytes ∷ chunks) = decode bytes ++ out_text chunks
  out_text (err bytes ∷ chunks) = out_text chunks

  abbrev pub err_text : List Chunk → Text
  err_text [] = []
  err_text (out bytes ∷ chunks) = err_text chunks
  err_text (err bytes ∷ chunks) = decode bytes ++ err_text chunks

  collect_lem :
      (chunks : List Chunk) (code : Option ℕ) (r : ExecResult)
      → collect decode chunks code r ≡ record {
        stdout = r.stdout ++ out_text chunks;
        stderr = r.stderr ++ err_text chunks;
        exit_code = code;
      }
  unfolding collect
  collect_lem [] code r = rw (append-nil r.stdout, append-nil r.stderr)
  collect_lem (out bytes ∷ chunks) code r =
      collect_lem chunks code (record r { stdout = r.stdout ++ decode bytes })
      ∙ rw (append_assoc r.stdout (decode bytes) (out_text chunks))
  collect_lem (err bytes ∷ chunks) code r =
      collect_lem chunks code (record r { stderr = r.stderr ++ decode bytes })
      ∙ rw (append_assoc r.stderr (decode bytes) (err_text chunks))

  -- However the chunks of the two streams come interleaved, the output is the texts of the output's
  -- chunks in order, the error output those of its own, and the exit code that of the close event.
  pub exec_result_lem :
      (chunks : List Chunk) (code : Option ℕ)
      → exec_result decode chunks code
        ≡ record { stdout = out_text chunks; stderr = err_text chunks; exit_code = code }
  unfolding exec_result
  exec_result_lem chunks code =
      collect_lem chunks code (record { stdout = []; stderr = []; exit_code = none })
