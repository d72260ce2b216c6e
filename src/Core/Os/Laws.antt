-- ===== src/Core/Os/Laws.antt =====
-- packages/core/src/os.ts: when a system stays unknown.
use desk_ssh.Base.{
  [], ◌∷◌, Bool, true, false, not, ◌||◌, none, some, ◌≡◌, refl, ◌↔◌, Bool-cases, inl, inr, sym, ◌∙◌,
  true-ne-false,
}
use desk_ssh.Js.Text.{Text, codes, trim, non_empty}
use desk_ssh.Js.Map
use desk_ssh.Core.Exec.{ExecResult}
use desk_ssh.Core.Os.{
  OsFamily, debian, rhel, arch, posix, unknown, os_info, family_for, parse_os_release,
  known_or_posix, is_zero, some_text,
}

-- `/etc/os-release` was not read, or is blank.
abbrev pub is_unreadable : ExecResult → Bool
is_unreadable release = not (is_zero release.exit_code) || not (non_empty (trim release.stdout))

known_or_posix_lem : (f : OsFamily) → known_or_posix f ≡ unknown → ⊥
known_or_posix_lem unknown h = cc
known_or_posix_lem debian h = cc
known_or_posix_lem rhel h = cc
known_or_posix_lem arch h = cc
known_or_posix_lem posix h = cc

module _ (release uname : ExecResult) where
  unread_family :
      is_unreadable release ≡ true
      → (os_info release uname).family ≡ elim (some_text (trim uname.stdout)) as (λ x. OsFamily) [
        | none ↦ unknown
        | some k ↦ posix
      ]
  unfolding os_info
  unread_family e = rw e refl

  read_family :
      is_unreadable release ≡ false
      → ((f : OsFamily) × ((os_info release uname).family ≡ known_or_posix f))
  unfolding os_info
  read_family e = (
    family_for (Map.get (codes "ID") (parse_os_release release.stdout))
        (Map.get (codes "ID_LIKE") (parse_os_release release.stdout)),
    rw e refl,
  )

kernel_lem :
    (t : Text)
    → (elim (some_text t) as (λ x. OsFamily) [ none ↦ unknown | some k ↦ posix ] ≡ unknown)
      ↔ (t ≡ [])
kernel_lem [] = ((λ e. refl), (λ e. refl))
kernel_lem (c ∷ t) = ((λ e. cc), (λ e. cc))

-- The family is unknown exactly if the kernel has no name and `/etc/os-release` was not read or is
-- blank.
pub os_info-unknown_iff :
    (release uname : ExecResult)
    → ((os_info release uname).family ≡ unknown)
      ↔ ((trim uname.stdout ≡ []) × (is_unreadable release ≡ true))
os_info-unknown_iff release uname = elim (Bool-cases (is_unreadable release)) [
  | inl e ↦ (
    λ u. ((kernel_lem (trim uname.stdout)).0 (sym (unread_family release uname e) ∙ u), e),
    λ (t, _). unread_family release uname e ∙ (kernel_lem (trim uname.stdout)).1 t,
  )
  | inr e ↦ (
    λ u. absurd (
        known_or_posix_lem (read_family release uname e).0
          (sym (read_family release uname e).1 ∙ u)),
    λ (_, t). absurd (true-ne-false (sym t ∙ e)),
  )
]
