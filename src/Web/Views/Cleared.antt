-- ===== src/Web/Views/Cleared.antt =====
-- What clearing the filters shows, and which tab a link opens.
use docksight.Base.{String, false, ◌≡◌, refl, List, [], ◌∷◌, Option, none, some, arith}
use docksight.Text.{trim}
use docksight.Hosts.{HostDto}
use docksight.Web.HostList.Counts.{filtered-all}
use docksight.Web.Views.{
  HostsQuery, no_match, cards, HostsSearch, clear_filters, hosts_view, TabKey, overview, containers,
  images, networks, volumes, logs, metrics, tab_text, tab_of,
}

-- Where no host matches the filters, clearing them shows every host, of which there is at least one.
pub hosts_view-clear_filters :
    {Num : Type 0}
    → (lower : String → String) (s : HostsSearch) (q : HostsQuery Num) → lower "" ≡ ""
    → hosts_view lower s q ≡ no_match
    → (h : HostDto Num) × ((hosts : List (HostDto Num)) × ((q.hosts ≡ some (h ∷ hosts))
          × (hosts_view lower (clear_filters s) q ≡ cards (h ∷ hosts))))
unfolding hosts_view trim
hosts_view-clear_filters lower s q blank e = go q.hosts refl
  where
    go :
        (o : Option (List (HostDto _)))
        → q.hosts ≡ o
        → (h : HostDto _) × ((hosts : List (HostDto _)) × ((q.hosts ≡ some (h ∷ hosts))
              × (hosts_view lower (clear_filters s) q ≡ cards (h ∷ hosts))))
    go none f = absurd (ground (arith, e, f))
    go (some []) f = absurd (ground (arith, e, f))
    go (some (h ∷ hosts)) f =
        let idle : q.is_loading ≡ false = ground (arith, e) in
        let fine : q.is_error ≡ false = ground (arith, e) in
        (h, (hosts, (f, rw (idle, fine, f) (rw (filtered-all lower "" (h ∷ hosts) blank) refl))))

-- A link to a tab opens that tab.
pub tab_of_lem : (t : TabKey) → tab_of (some (tab_text t)) ≡ t
unfolding tab_of
tab_of_lem overview = refl
tab_of_lem containers = refl
tab_of_lem images = refl
tab_of_lem networks = refl
tab_of_lem volumes = refl
tab_of_lem logs = refl
tab_of_lem metrics = refl
