-- ===== src/Handlers/Quota.antt =====
-- What the quota guard counts.
use cf_networking_release.Prelude.{
  ℕ, ◌+◌, String, ◌≡◌, ◌↔◌, refl, ap, ◌∙◌, sym, ℤ, pos, Bool, true, false, List, [], ◌∷◌, ◌++◌, All,
  All-contains, Result, ok, arith, contains, keep_if, length, str_eq, eq_iff,
}
use cf_networking_release.Prelude.Int.{◌≤ℤ◌, ltb_ℤ}
use cf_networking_release.Assoc.{lookup, put, lookup-put, string_eq}
use cf_networking_release.Store.Models.{Policy}
use cf_networking_release.Handlers.{
  TokenResponse, DataStore, app_guid_set, unique_app_guids, is_network_admin,
}
use cf_networking_release.Handlers.Guards.{
  or_zero, zero_counts, count_sources, source_counts, check_counts, check_quota,
}

-- How many of the policies start at the app.
unfoldable pub count_from : String → List Policy → ℕ
unfolding keep_if
count_from guid policies = length (keep_if (λ p. str_eq p.source.id guid) policies)

count_from-append :
    (guid : String) (xs ys : List Policy)
    → count_from guid (xs ++ ys) ≡ count_from guid xs + count_from guid ys
unfolding count_from
count_from-append guid [] ys = omega arith
count_from-append guid (x ∷ xs) ys = ground (arith, count_from-append guid xs ys)

zero_counts-zero :
    (guid : String) (guids : List String) (set : List (String × ℕ))
    → or_zero (lookup guid set) ≡ 0
    → or_zero (lookup guid (zero_counts guids set)) ≡ 0
unfolding zero_counts
zero_counts-zero guid [] set h = h
zero_counts-zero guid (g ∷ guids) set h =
    zero_counts-zero guid guids (put g 0 set) (ground (arith, lookup-put g guid 0 set))

count_sources-count :
    (guid : String) (policies : List Policy) (set : List (String × ℕ))
    → or_zero (lookup guid (count_sources policies set))
      ≡ or_zero (lookup guid set) + count_from guid policies
unfolding count_sources count_from
count_sources-count guid [] set = omega arith
count_sources-count guid (p ∷ policies) set = ground (
  arith,
  count_sources-count guid policies (put p.source.id (or_zero (lookup p.source.id set) + 1) set),
  lookup-put p.source.id guid (or_zero (lookup p.source.id set) + 1) set,
  eq_iff p.source.id guid,
  ap (λ k. or_zero (lookup k set)),
)

source_counts-count :
    (guid : String) (policies : List Policy) (known : List String)
    → or_zero (lookup guid (source_counts policies known)) ≡ count_from guid policies
unfolding source_counts
source_counts-count guid policies known = omega (
  arith,
  count_sources-count guid policies (zero_counts known []),
  zero_counts-zero guid known [] (unfold lookup in refl),
)

-- The app's policies, with those to come, are within the quota.
abbrev pub InQuota : ℤ → List Policy → List Policy → String → Type 0
InQuota max_policies current policies guid =
    pos (count_from guid (current ++ policies)) ≤ℤ max_policies

check_counts_iff :
    (max_policies : ℤ) (current policies : List Policy) (known guids : List String)
    → (check_counts max_policies (source_counts current known) (source_counts policies known) guids
        ≡ true)
      ↔ All (InQuota max_policies current policies) guids
unfolding check_counts
check_counts_iff max_policies current policies known [] = (λ h. tt, λ h. refl)
check_counts_iff max_policies current policies known (g ∷ guids) =
    rw (source_counts-count g current known, source_counts-count g policies known)
      (
        λ h. (
          omega (arith, count_from-append g current policies, first (ground arith)),
          (check_counts_iff max_policies current policies known guids).0 (ground arith),
        ),
        λ h. ground (
          arith,
          count_from-append g current policies,
          (check_counts_iff max_policies current policies known guids).1 h.1,
          h.0,
        ),
      )
  where
    first :
        ltb_ℤ max_policies (pos (count_from g current + count_from g policies)) ≡ false
        → pos (count_from g current + count_from g policies) ≤ℤ max_policies
    first e = ground arith

-- For a user that is no network admin and a database that answers, the quota guard lets a request
-- pass exactly if no app that the new policies name would have more policies starting at it, old and
-- new together, than the maximum.
pub check_quota_iff :
    {S : Type 0} (store : DataStore S) (max_policies : ℤ) (visit : List String → List String)
    (policies current : List Policy) (user : TokenResponse) (s s' : S)
    → contains "network.admin" user.scope ≡ false
    → ((guid : String) (xs : List String) → contains guid (visit xs) ≡ contains guid xs)
    → store.by_guids (unique_app_guids visit policies) [] false s ≡ (ok current, s')
    → (check_quota store max_policies visit policies user s ≡ (ok true, s')) ↔ (
        (guid : String)
        → contains guid (app_guid_set policies []) ≡ true
        → InQuota max_policies current policies guid)
unfolding check_quota is_network_admin unique_app_guids
check_quota_iff {S} store max_policies visit policies current user s s' other visits answered =
    rw (other, answered) (to, from)
  where
    known : List String
    known = visit (app_guid_set policies [])

    checked : Bool
    checked =
        check_counts max_policies (source_counts current known) (source_counts policies known) known

    each : (checked ≡ true) ↔ All (InQuota max_policies current policies) known
    each = check_counts_iff max_policies current policies known known

    to :
        Path (Result Bool × S) (ok checked, s') (ok true, s')
        → (guid : String) → contains guid (app_guid_set policies []) ≡ true
        → InQuota max_policies current policies guid
    to h guid m =
        (All-contains (InQuota max_policies current policies) known).0 (each.0 (ground arith)) guid
          (visits guid (app_guid_set policies []) ∙ m)

    from :
        ((guid : String)
          → contains guid (app_guid_set policies []) ≡ true
          → InQuota max_policies current policies guid)
        → Path (Result Bool × S) (ok checked, s') (ok true, s')
    from h = rw (
        each.1 (
          (All-contains (InQuota max_policies current policies) known).1
            (λ guid m. h guid (sym (visits guid (app_guid_set policies [])) ∙ m))))
