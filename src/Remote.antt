-- ===== src/Remote.antt =====
-- internal/remote/parse.go: remote URLs, repository identifiers and state keys.
pub mod Keys
pub mod Identifiers
use wtp.Base.{
  ℕ, zero, suc, ◌≡◌, Bool, true, false, not, ◌&&◌, ◌||◌, Option, none, some, List, [], ◌∷◌, ◌++◌,
}
use wtp.Base.{if◌then◌else◌}
use wtp.Base.Result.{Result, ok, err, ◌>>=◌}
use wtp.Base.Text.{
  Str, str, ◌==◌, cut, contains, cut_byte, split_n, after_last, trim_prefix, trim_suffix,
}

pub record RepoIdentifier : Type 0 where
  pub host : Str
  pub owner : Str
  pub repo : Str

pub data ParseError : Type 0 where
  empty_url invalid_url missing_segments missing_colon : ParseError

abbrev pub github_host : Str
github_host = str "github.com"

abbrev pub git_suffix : Str
git_suffix = str ".git"

abbrev pub slash : ℕ
slash = b'/'

abbrev pub scheme_mark : Str
scheme_mark = str "://"

-- `len(segments) < 2 || segments[0] == "" || segments[1] == ""`, and the two segments if not.
owner_and_repo : List Str → Option (Str × Str)
owner_and_repo (owner ∷ repo ∷ rest) =
    if owner == [] || repo == [] then none else some (owner, repo)
owner_and_repo _ = none

identifier_of : Str → Option (Str × Str) → Result ParseError RepoIdentifier
identifier_of host none = err missing_segments
identifier_of host (some (owner, repo)) = ok (record { host = host; owner = owner; repo = repo })

-- `parseSCP` behind the first colon.
scp_parts : Option (Str × Str) → Result ParseError RepoIdentifier
unfolding owner_and_repo identifier_of
scp_parts none = err missing_colon
scp_parts (some (host_part, path_part)) =
    identifier_of (after_last b'@' host_part)
      (owner_and_repo (split_n 3 slash (trim_suffix git_suffix path_part)))

unfoldable pub parse_scp : Str → Result ParseError RepoIdentifier
unfolding scp_parts
parse_scp remote_url = scp_parts (cut_byte b':' remote_url)

-- The part of `Parse` behind `url.Parse`, which gives a host name and a path, or fails.
parse_path : Option (Str × Str) → Result ParseError RepoIdentifier
unfolding owner_and_repo identifier_of
parse_path none = err invalid_url
parse_path (some (hostname, path)) =
    identifier_of hostname
      (owner_and_repo (split_n 3 slash (trim_suffix git_suffix (trim_prefix (slash ∷ []) path))))

-- "Normalise github.com host to empty string."
normalise : RepoIdentifier → RepoIdentifier
normalise r = record r { host = if r.host == github_host then [] else r.host }

is_scp : Str → Bool
is_scp remote_url = not (contains scheme_mark remote_url) && contains (str ":") remote_url

-- `url_parse` stands for `url.Parse` followed by `Hostname()` and `Path`.
module _ (url_parse : Str → Option (Str × Str)) where
  unfoldable pub parse : Str → Result ParseError RepoIdentifier
  unfolding is_scp parse_path normalise
  parse remote_url =
      if remote_url == []
      then err empty_url
      else ((if is_scp remote_url then parse_scp remote_url else parse_path (url_parse remote_url))
          >>= λ r. ok (normalise r))

unfoldable pub storage_path : RepoIdentifier → Str
storage_path r =
    if r.host == []
    then r.owner ++ slash ∷ r.repo
    else r.host ++ slash ∷ (r.owner ++ slash ∷ r.repo)

abbrev pub separator : Str
separator = str "::"

unfoldable pub state_key : RepoIdentifier → Str → Str
state_key r branch = storage_path r ++ separator ++ branch

key_parts : Str → Option (Str × Str) → Str × Str
key_parts key none = (key, [])
key_parts key (some p) = p

unfoldable pub parse_state_key : Str → Str × Str
unfolding key_parts
parse_state_key key = key_parts key (cut separator key)
