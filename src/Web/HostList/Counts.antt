-- ===== src/Web/HostList/Counts.antt =====
-- What the counts, the filters and the search show.
use docksight.Base.{
  ◌+◌, ◌≤◌, String, Bool, true, false, not, ◌≡◌, refl, ◌&&◌, List, [], ◌∷◌, ◌++◌, ◌==◌, length,
  Bool-cases, inl, inr, arith, All, length-take, take-drop, ◌∙◌, sym, drop, ap, ◌≢◌, eq_iff,
  take-all,
}
use docksight.Text.{trim}
use docksight.Hosts.{HostDto}
use docksight.Web.HostList.{
  HostFilter, all, online, offline, keep, is_online, online_count, offline_count, in_filter,
  in_query, filtered_hosts, is_match, search_results,
}

module _ {Num : Type 0} where
  keep-same :
      (p q : HostDto Num → Bool) (hosts : List (HostDto Num))
      → ((h : HostDto Num) → p h ≡ q h)
      → keep p hosts ≡ keep q hosts
  unfolding keep
  keep-same p q [] e = refl
  keep-same p q (h ∷ hosts) e = rw (e h, keep-same p q hosts e) refl

  keep-All :
      (p : HostDto Num → Bool) (hosts : List (HostDto Num)) → All (λ h. p h ≡ true) (keep p hosts)
  unfolding keep
  keep-All p [] = tt
  keep-All p (h ∷ hosts) = elim (Bool-cases (p h)) [
    | inl e ↦ rw e (e, keep-All p hosts)
    | inr e ↦ rw e (keep-All p hosts)
  ]

  count-split :
      (p : HostDto Num → Bool) (hosts : List (HostDto Num))
      → length (keep p hosts) + length (keep (λ h. not (p h)) hosts) ≡ length hosts
  unfolding keep
  count-split p [] = refl
  count-split p (h ∷ hosts) = elim (Bool-cases (p h)) [
    | inl e ↦ rw e (ground (arith, count-split p hosts))
    | inr e ↦ rw e (ground (arith, count-split p hosts))
  ]

  in_filter-blank :
      (lower : String → String) (f : HostFilter) (value : String) (h : HostDto Num)
      → value ≡ ""
      → (in_filter f h && in_query lower value h) ≡ in_filter f h
  in_filter-blank lower f value h e = rw e (ground arith)

  keep-all : (hosts : List (HostDto Num)) → keep (λ h. true) hosts ≡ hosts
  unfolding keep
  keep-all [] = refl
  keep-all (h ∷ hosts) = rw (keep-all hosts) refl

  filtered-blank :
      (lower : String → String) (f : HostFilter) (query : String) (hosts : List (HostDto Num))
      → lower (trim query) ≡ ""
      → filtered_hosts lower f query hosts ≡ keep (in_filter f) hosts
  unfolding filtered_hosts
  filtered-blank lower f query hosts e =
      keep-same _ _ hosts (λ h. in_filter-blank lower f (lower (trim query)) h e)

  -- With neither a query nor a filter every host is shown.
  pub filtered-all :
      (lower : String → String) (query : String) (hosts : List (HostDto Num))
      → lower (trim query) ≡ ""
      → filtered_hosts lower all query hosts ≡ hosts
  filtered-all lower query hosts e = filtered-blank lower all query hosts e ∙ keep-all hosts

  -- Without a query the page shows every host under "all", and under the other two filters as many as
  -- their counts say, which add up to all of them; with a query it shows only hosts that match it and
  -- the filter.
  pub filtered_hosts_lem :
      (lower : String → String) (query : String) (hosts : List (HostDto Num))
      → (online_count hosts + offline_count hosts ≡ length hosts)
        × (lower (trim query) ≡ ""
            → (length (filtered_hosts lower all query hosts) ≡ length hosts)
              × (length (filtered_hosts lower online query hosts) ≡ online_count hosts)
              × (length (filtered_hosts lower offline query hosts) ≡ offline_count hosts))
        × ((filter : HostFilter)
            → All
                (λ h. (in_filter filter h && in_query lower (lower (trim query)) h) ≡ true)
                (filtered_hosts lower filter query hosts))
  unfolding filtered_hosts online_count offline_count
  filtered_hosts_lem lower query hosts = (
    count-split is_online hosts,
    λ e. (
      ap length (filtered-blank lower all query hosts e ∙ keep-all hosts),
      ap length (filtered-blank lower online query hosts e),
      ap length (filtered-blank lower offline query hosts e),
    ),
    λ filter. keep-All _ hosts,
  )

  -- The search shows nothing without a query, and otherwise no more than six hosts, the first of those
  -- that match it, and all of them where they are no more than six.
  pub search_results_lem :
      (lower : String → String) (query : String) (hosts : List (HostDto Num))
      → let found = search_results lower query hosts in
        let matching = keep (is_match lower (lower (trim query))) hosts in
        (length found ≤ 6)
        × (lower (trim query) ≡ "" → found ≡ [])
        × (lower (trim query) ≢ ""
            → ((rest : List (HostDto Num)) × (matching ≡ found ++ rest))
              × (length matching ≤ 6 → found ≡ matching))
  unfolding search_results
  search_results_lem lower query hosts =
      let value = lower (trim query) in
      let matching = keep (is_match lower value) hosts in
      (
        elim (Bool-cases (value == "")) [
          | inl e ↦ rw e (omega arith)
          | inr e ↦ rw e (ground (arith, length-take 6 matching))
        ],
        λ e. rw e refl,
        λ ne.
            let e : (value == "") ≡ false = ground (arith, eq_iff value "", ne) in
            (
              (drop 6 matching, rw e (sym (take-drop 6 matching))),
              λ short. rw e (take-all 6 matching short),
            ),
      )
