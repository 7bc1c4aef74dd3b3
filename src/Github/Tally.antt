-- ===== src/Github/Tally.antt =====
-- The counts of a CI status add up, whatever states the checks are in.
use wtp.Base.{ℕ, ◌+◌, ◌≤◌, ◌≡◌, refl, List, [], ◌∷◌, arith, if◌then◌else◌, ltb}
use wtp.Base.Text.{str}
use wtp.Base.Lists.{length}
use wtp.Github.{
  CiStatus, CheckEntry, Bucket, passes, fails, waits, skips, bucket, count, count_all, tally,
}

abbrev is_bucket : Bucket → Bucket → ℕ
is_bucket passes passes = 1
is_bucket fails fails = 1
is_bucket waits waits = 1
is_bucket skips skips = 1
is_bucket _ _ = 0

-- How many checks fall into a bucket.
pub in_bucket : Bucket → List CheckEntry → ℕ
in_bucket b [] = 0
in_bucket b (c ∷ cs) = is_bucket b (bucket c.state) + in_bucket b cs

all_buckets :
    (cs : List CheckEntry)
    → in_bucket passes cs + in_bucket fails cs + in_bucket waits cs + in_bucket skips cs ≡ length cs
unfolding in_bucket
all_buckets [] = refl
all_buckets (c ∷ cs) = ground (arith, all_buckets cs)

count_all-counts :
    (cs : List CheckEntry) (ci : CiStatus)
    → in_bucket skips cs ≤ ci.total
    → ((count_all cs ci).passing ≡ ci.passing + in_bucket passes cs)
      × ((count_all cs ci).failing ≡ ci.failing + in_bucket fails cs)
      × ((count_all cs ci).pending ≡ ci.pending + in_bucket waits cs)
      × ((count_all cs ci).total + in_bucket skips cs ≡ ci.total)
unfolding count_all in_bucket
count_all-counts [] ci h = omega arith
count_all-counts (c ∷ cs) ci h = ground (arith, count_all-counts cs (count (bucket c.state) ci))

-- The total counts the checks that are not skipped, each of which passes, fails or is pending; the
-- skipped ones are the rest. The status fails if some check fails, else waits if one is pending.
tally-counts :
    (cs : List CheckEntry)
    → ((tally cs).total ≡ (tally cs).passing + (tally cs).failing + (tally cs).pending)
      × ((tally cs).total + in_bucket skips cs ≡ length cs)
      × ((tally cs).failing ≡ in_bucket fails cs)
      × ((tally cs).state ≡ (
          if ltb 0 (in_bucket fails cs)
          then str "failing"
          else if ltb 0 (in_bucket waits cs)
          then str "pending"
          else str "passing"))
unfolding tally
tally-counts cs =
    let ci : CiStatus = record {
      state = [];
      total = length cs;
      passing = 0;
      failing = 0;
      pending = 0;
    } in
    let (p, f, w, t) = count_all-counts cs ci (omega (arith, all_buckets cs)) in
    let f' : (count_all cs ci).failing ≡ in_bucket fails cs = omega (arith, f) in
    let w' : (count_all cs ci).pending ≡ in_bucket waits cs = omega (arith, w) in
    (omega (arith, all_buckets cs), t, f', rw (f', w'))
