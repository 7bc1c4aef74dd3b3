-- ===== src/Tests/Discovery.antt =====
-- The `.git` file of a linked worktree at a concrete input.
use wtp.Base.{◌≡◌, refl, none, some, [], ◌∷◌, ◌++◌, if◌then◌else◌}
use wtp.Base.Text.{str, ◌==◌, has_byte}
use wtp.FilePath.Plain.{absolute}
use wtp.Maintenance.Discover.{main_repo_from_git_file}
use wtp.Maintenance.Discover.Linked.{git_file_text, main_repo_from_git_file-linked}

main_repo_from_git_file-linked_example :
    main_repo_from_git_file
      (λ path. path == str "/r/.git")
      (str "/w/q/.git")
      (some (git_file_text (str "r" ∷ []) (str "q")))
    ≡ (if absolute ((str "r" ∷ []) ++ str ".git" ∷ []) == str "/r/.git"
        then some (absolute (str "r" ∷ []))
        else none)
unfolding ◌==◌ has_byte
main_repo_from_git_file-linked_example =
    main_repo_from_git_file-linked (λ path. path == str "/r/.git") (str "/w/q/.git") (str "r" ∷ [])
      (str "q") (record { given = refl; no_dot = refl; no_dots = refl; no_slash = refl }, tt)
      (record { given = refl; no_dot = refl; no_dots = refl; no_slash = refl })
      (record { given = refl; dark = refl })
