-- ===== src/Remote/Identifiers.antt =====
-- What parsing a remote URL yields.
use wtp.Base.{
  ◌≡◌, ◌≢◌, refl, sym, ap, ◌∙◌, true, false, Option, none, some, List, [], ◌∷◌, ◌++◌, arith, inl,
  inr,
}
use wtp.Base.{Bool-cases, Option-cases, if◌then◌else◌}
use wtp.Base.Result.{Result, ok, err, ◌>>=◌}
use wtp.Base.Text.{Str, ◌==◌, contains, has_byte, cut_byte, split_n, after_last, trim_suffix}
use wtp.Base.Text.Laws.{eq_iff, cut_byte-append, cut_byte-eq-some, cut_byte-eq-none}
use wtp.Base.Text.Laws.{
  eq_nil-append_cons, contains-append_cons, trim_suffix-append, trim_prefix-append,
  after_last-append,
}
use wtp.Remote.{
  RepoIdentifier, ParseError, slash, git_suffix, github_host, scheme_mark, owner_and_repo,
  identifier_of,
}
use wtp.Remote.{parse_scp, parse_path, is_scp, normalise, parse}

-- Owner and repository are two segments that are not empty, and github.com is written as no host.
no_slash : (t : Str) → cut_byte slash t ≡ none → has_byte slash t ≡ false
unfolding cut_byte has_byte
no_slash [] e = refl
no_slash (c ∷ t) e = elim (Option-cases (cut_byte slash t)) [
  | inl f ↦ ground (arith, no_slash t f)
  | inr (p, f) ↦ ground (arith, f)
]

pub record IsCanonical (r : RepoIdentifier) : Type 0 where
  pub owner_segment : has_byte slash r.owner ≡ false
  pub repo_segment : has_byte slash r.repo ≡ false
  pub owner_given : r.owner ≢ []
  pub repo_given : r.repo ≢ []
  pub host_short : r.host ≢ github_host

module _ (o r : Str) where
  abbrev AreSegments : Type 0
  AreSegments = (has_byte slash o ≡ false) × (has_byte slash r ≡ false) × (o ≢ []) × (r ≢ [])

  first_two-segments :
      (a b : Str) (rest : List Str)
      → has_byte slash a ≡ false
      → has_byte slash b ≡ false
      → owner_and_repo (a ∷ b ∷ rest) ≡ some (o, r)
      → AreSegments
  unfolding owner_and_repo
  first_two-segments a b rest ha hb h = ground (arith, eq_iff a [], eq_iff b [])

  behind_owner-segments :
      (a t : Str)
      → has_byte slash a ≡ false
      → owner_and_repo (a ∷ split_n 2 slash t) ≡ some (o, r)
      → AreSegments
  unfolding split_n
  behind_owner-segments a t ha h = elim (Option-cases (cut_byte slash t)) [
    | inl e ↦ first_two-segments a t [] ha (no_slash t e) (rw (e, split_n) at h)
    | inr ((b, u), e) ↦
        first_two-segments a b (u ∷ []) ha (cut_byte-eq-some slash t b u e).0 (rw (e, split_n) at h)
  ]

  one_segment : (s : Str) → owner_and_repo (s ∷ []) ≡ some (o, r) → ⊥
  unfolding owner_and_repo
  one_segment s h = cc

  owner_and_repo-segments :
      (s : Str) → owner_and_repo (split_n 3 slash s) ≡ some (o, r) → AreSegments
  unfolding split_n
  owner_and_repo-segments s h = elim (Option-cases (cut_byte slash s)) [
    | inl e ↦ absurd (one_segment s (rw (e, split_n) at h))
    | inr ((a, t), e) ↦
        behind_owner-segments a t (cut_byte-eq-some slash s a t e).0 (rw (e, split_n) at h)
  ]

identifier_of-segments :
    (host s : Str) (r : RepoIdentifier)
    → identifier_of host (owner_and_repo (split_n 3 slash s)) ≡ ok r
    → AreSegments r.owner r.repo
unfolding identifier_of
identifier_of-segments host s r h = elim (Option-cases (owner_and_repo (split_n 3 slash s))) [
  | inl e ↦ ground (arith, e)
  | inr ((o, p), e) ↦
      let same : r ≡ record { host = host; owner = o; repo = p } =
        cc (h, ap (identifier_of host) e) in
      rw same (owner_and_repo-segments o p s e)
]

parse_scp-segments :
    (url : Str) (r : RepoIdentifier) → parse_scp url ≡ ok r → AreSegments r.owner r.repo
unfolding parse_scp
parse_scp-segments url r h = elim (Option-cases (cut_byte b':' url)) [
  | inl e ↦ cc (rw e at h)
  | inr ((a, b), e) ↦
      identifier_of-segments (after_last b'@' a) (trim_suffix git_suffix b) r (rw e at h)
]

parse_path-segments :
    (parts : Option (Str × Str)) (r : RepoIdentifier)
    → parse_path parts ≡ ok r
    → AreSegments r.owner r.repo
unfolding parse_path
parse_path-segments none r h = cc
parse_path-segments (some (host, path)) r h = identifier_of-segments host _ r h

normalise-host : (r : RepoIdentifier) → (normalise r).host ≢ github_host
unfolding normalise
normalise-host r = ground (arith, eq_iff r.host github_host)

canonical :
    (m : Result ParseError RepoIdentifier) (r : RepoIdentifier)
    → ((q : RepoIdentifier) → m ≡ ok q → AreSegments q.owner q.repo)
    → (m >>= λ q. ok (normalise q)) ≡ ok r
    → IsCanonical r
unfolding normalise
canonical (ok q) r segments h =
    let same : r ≡ normalise q = cc in
    let (o, p, no_owner, no_repo) = segments q refl in
    rw same (record {
      owner_segment = o;
      repo_segment = p;
      owner_given = no_owner;
      repo_given = no_repo;
      host_short = normalise-host q;
    })
canonical (err e) r segments h = ground arith

-- Whatever `url.Parse` answers, an identifier that `Parse` returns has an owner and a repository
-- that are not empty and hold no slash, and its host is never written github.com.
pub parse-IsCanonical :
    (url_parse : Str → Option (Str × Str)) (url : Str) (r : RepoIdentifier)
    → parse url_parse url ≡ ok r
    → IsCanonical r
unfolding parse
parse-IsCanonical url_parse url r h = elim (Bool-cases (url == [])) [
  | inl e ↦ ground (arith, e)
  | inr e ↦ elim (Bool-cases (is_scp url)) [
    | inl f ↦ canonical (parse_scp url) r (λ q. parse_scp-segments url q) (rw (e, f, parse) at h)
    | inr f ↦
        canonical (parse_path (url_parse url)) r (λ q. parse_path-segments (url_parse url) q)
          (rw (e, f, parse) at h)
  ]
]

module _ (owner repo : Str) (owner_segment : has_byte slash owner ≡ false)
    (repo_segment : has_byte slash repo ≡ false) (owner_given : owner ≢ [])
    (repo_given : repo ≢ []) where
  two_segments : owner_and_repo (owner ∷ repo ∷ []) ≡ some (owner, repo)
  unfolding owner_and_repo
  two_segments = ground (arith, eq_iff owner [], eq_iff repo [])

  owner_and_repo-pair :
      owner_and_repo (split_n 3 slash (owner ++ slash ∷ repo)) ≡ some (owner, repo)
  unfolding split_n
  owner_and_repo-pair =
      rw (cut_byte-append slash owner repo owner_segment, split_n)
        (rw (cut_byte-eq-none slash repo repo_segment, split_n) two_segments)

  -- The SCP-style URL `user@host:owner/repo.git`, and the path `/owner/repo.git`.
  abbrev pub scp_url : Str → Str → Str
  scp_url user host = (user ++ b'@' ∷ host) ++ b':' ∷ ((owner ++ slash ∷ repo) ++ git_suffix)

  parse_scp-scp_url :
      (user host : Str)
      → has_byte b':' (user ++ b'@' ∷ host) ≡ false
      → has_byte b'@' host ≡ false
      → parse_scp (scp_url user host) ≡ ok (record { host = host; owner = owner; repo = repo })
  unfolding parse_scp identifier_of
  parse_scp-scp_url user host no_colon no_at = rw (
    cut_byte-append b':' (user ++ b'@' ∷ host) ((owner ++ slash ∷ repo) ++ git_suffix) no_colon,
    trim_suffix-append git_suffix (owner ++ slash ∷ repo),
    after_last-append b'@' user host no_at,
    owner_and_repo-pair,
  )

  parse_path-pair :
      (host : Str)
      → parse_path (some (host, (slash ∷ []) ++ ((owner ++ slash ∷ repo) ++ git_suffix)))
        ≡ ok (record { host = host; owner = owner; repo = repo })
  unfolding parse_path identifier_of
  parse_path-pair host = rw (
    trim_prefix-append (slash ∷ []) ((owner ++ slash ∷ repo) ++ git_suffix),
    trim_suffix-append git_suffix (owner ++ slash ∷ repo),
    owner_and_repo-pair,
  )

  abbrev identifier : Str → RepoIdentifier
  identifier host = record {
    host = if host == github_host then [] else host;
    owner = owner;
    repo = repo;
  }

  parse-scp_url :
      (url_parse : Str → Option (Str × Str)) (user host : Str)
      → has_byte b':' (user ++ b'@' ∷ host) ≡ false
      → has_byte b'@' host ≡ false
      → contains scheme_mark (scp_url user host) ≡ false
      → parse url_parse (scp_url user host) ≡ ok (identifier host)
  unfolding parse is_scp normalise
  parse-scp_url url_parse user host no_colon no_at no_scheme = rw (
    eq_nil-append_cons (user ++ b'@' ∷ host) b':' ((owner ++ slash ∷ repo) ++ git_suffix),
    no_scheme,
    contains-append_cons b':' (user ++ b'@' ∷ host) ((owner ++ slash ∷ repo) ++ git_suffix),
    parse_scp-scp_url user host no_colon no_at,
  )

  parse-https :
      (url_parse : Str → Option (Str × Str)) (host https : Str)
      → https == [] ≡ false
      → contains scheme_mark https ≡ true
      → url_parse https ≡ some (host, (slash ∷ []) ++ ((owner ++ slash ∷ repo) ++ git_suffix))
      → parse url_parse https ≡ ok (identifier host)
  unfolding parse is_scp normalise
  parse-https url_parse host https given scheme parsed =
      rw (given, scheme, parsed, parse_path-pair host)

  -- The SCP-style URL of a repository and a URL with a scheme, from which `url.Parse` reads the same
  -- host and the path `/owner/repo.git`, give the same identifier: that owner and that repository,
  -- at the host, or at no host if it is github.com.
  parse-scp_url_eq_https :
      (url_parse : Str → Option (Str × Str)) (user host https : Str)
      → has_byte b':' (user ++ b'@' ∷ host) ≡ false
      → has_byte b'@' host ≡ false
      → contains scheme_mark (scp_url user host) ≡ false
      → https == [] ≡ false
      → contains scheme_mark https ≡ true
      → url_parse https ≡ some (host, (slash ∷ []) ++ ((owner ++ slash ∷ repo) ++ git_suffix))
      → (parse url_parse (scp_url user host)
          ≡ ok (record {
            host = if host == github_host then [] else host;
            owner = owner;
            repo = repo;
          }))
        × (parse url_parse https ≡ parse url_parse (scp_url user host))
  parse-scp_url_eq_https url_parse user host https no_colon no_at no_scheme given scheme parsed =
      let one = parse-scp_url url_parse user host no_colon no_at no_scheme in
      (one, parse-https url_parse host https given scheme parsed ∙ sym one)
