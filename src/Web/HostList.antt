-- ===== src/Web/HostList.antt =====
-- The lists of hosts of the web client: the counts and the filter of
-- apps/web/src/features/hosts/HostsPage.tsx, and GlobalSearch of
-- apps/web/src/components/layout/Topbar.tsx. toLowerCase is a parameter.
pub mod Counts
use docksight.Base.{
  ℕ, suc, String, Bool, true, false, not, ◌&&◌, ◌||◌, List, [], ◌∷◌, ◌==◌, length, take,
  if◌then◌else◌,
}
use docksight.Text.{trim, includes}
use docksight.Hosts.{HostDto}
use docksight.Web.HostName.{host_display_name}
use docksight.Web.HostName.Shown.{received_host}

pub data HostFilter : Type 0 where
  all online offline : HostFilter

module _ {Num : Type 0} where
  -- `filter`
  unfoldable pub keep : (HostDto Num → Bool) → List (HostDto Num) → List (HostDto Num)
  keep p [] = []
  keep p (h ∷ hosts) = let rest = keep p hosts in if p h then h ∷ rest else rest

  abbrev pub is_online : HostDto Num → Bool
  is_online h = h.status == "ONLINE"

  -- The two counts.
  unfoldable pub online_count : List (HostDto Num) → ℕ
  unfolding keep
  online_count hosts = length (keep is_online hosts)

  unfoldable pub offline_count : List (HostDto Num) → ℕ
  unfolding keep
  offline_count hosts = length (keep (λ h. not (is_online h)) hosts)

  abbrev pub in_filter : HostFilter → HostDto Num → Bool
  in_filter all h = true
  in_filter online h = is_online h
  in_filter offline h = not (is_online h)

  module _ (lower : String → String) where
    abbrev pub shown_name : HostDto Num → String
    shown_name h = host_display_name (received_host h)

    abbrev pub in_query : String → HostDto Num → Bool
    in_query value h =
        value == ""
        || includes value (lower (shown_name h))
        || includes value (lower h.hostname)
        || includes value (lower h.os)
        || includes value (lower h.architecture)
        || includes value (lower h.version)

    -- `filtered`
    unfoldable pub filtered_hosts : HostFilter → String → List (HostDto Num) → List (HostDto Num)
    unfolding keep includes trim
    filtered_hosts filter query hosts =
        keep (λ h. in_filter filter h && in_query (lower (trim query)) h) hosts

    abbrev pub is_match : String → HostDto Num → Bool
    is_match value h =
        includes value (lower (shown_name h))
        || includes value (lower h.hostname)
        || includes value (lower h.os)
        || includes value (lower h.uuid)

    -- `results` of the search: the first six.
    unfoldable pub search_results : String → List (HostDto Num) → List (HostDto Num)
    unfolding keep includes trim
    search_results query hosts =
        let value = lower (trim query) in
        if value == "" then [] else take 6 (keep (is_match value) hosts)
