-- ===== src/Web/Views.antt =====
-- Which of its views a page shows for the state of its query: apps/web/src/features/hosts/HostsPage.tsx
-- and HostDetailsPage.tsx, with the tab in the URL of the latter. toLowerCase is a parameter.
pub mod Cleared
use docksight.Base.{
  String, Bool, true, false, List, [], ◌∷◌, Option, none, some, or_else, ◌==◌, if◌then◌else◌,
}
use docksight.Hosts.{HostDto}
use docksight.Web.HostList.{HostFilter, all, filtered_hosts}
use docksight.Web.Rename.{find_host}

-- What the pages read of the query of the hosts.
pub record HostsQuery (Num : Type 0) : Type 0 where
  pub is_loading : Bool
  pub is_error : Bool
  pub hosts : Option (List (HostDto Num))

pub data HostsView (Num : Type 0) : Type 0 where
  skeleton error no_hosts no_match : HostsView Num
  cards : List (HostDto Num) → HostsView Num

-- The search field and the chips of the page.
pub record HostsSearch : Type 0 where
  pub query : String
  pub filter : HostFilter

-- "Clear filters"
abbrev pub clear_filters : HostsSearch → HostsSearch
clear_filters s = record { query = ""; filter = all }

module _ {Num : Type 0} where
  abbrev cards_or : HostsView Num → List (HostDto Num) → HostsView Num
  cards_or empty [] = empty
  cards_or empty (h ∷ hosts) = cards (h ∷ hosts)

  abbrev known_view : (lower : String → String) → HostsSearch → List (HostDto Num) → HostsView Num
  known_view lower s [] = no_hosts
  known_view lower s (h ∷ hosts) =
      cards_or no_match (filtered_hosts lower s.filter s.query (h ∷ hosts))

  unfoldable pub hosts_view :
      (lower : String → String) → HostsSearch → HostsQuery Num → HostsView Num
  hosts_view lower s q =
      if q.is_loading
      then skeleton
      else if q.is_error
      then error
      else known_view lower s (or_else q.hosts [])

pub data TabKey : Type 0 where
  overview containers images networks volumes logs metrics : TabKey

pub data DetailsView (Num : Type 0) : Type 0 where
  loading failed not_found : DetailsView Num
  details : HostDto Num → TabKey → DetailsView Num

abbrev tab_text : TabKey → String
tab_text overview = "overview"
tab_text containers = "containers"
tab_text images = "images"
tab_text networks = "networks"
tab_text volumes = "volumes"
tab_text logs = "logs"
tab_text metrics = "metrics"

abbrev pub tab_keys : List TabKey
tab_keys = overview ∷ containers ∷ images ∷ networks ∷ volumes ∷ logs ∷ metrics ∷ []

abbrev find_tab : List TabKey → String → TabKey
find_tab [] param = overview
find_tab (t ∷ keys) param = if tab_text t == param then t else find_tab keys param

-- `tab`, of the parameter in the URL
unfoldable pub tab_of : Option String → TabKey
tab_of none = overview
tab_of (some param) = find_tab tab_keys param

module _ {Num : Type 0} where
  abbrev found_view : Option (HostDto Num) → TabKey → DetailsView Num
  found_view none tab = not_found
  found_view (some h) tab = details h tab

  unfoldable pub details_view :
      (host_id : String) → (tab : Option String) → HostsQuery Num → DetailsView Num
  unfolding find_host tab_of
  details_view host_id tab q =
      if q.is_loading
      then loading
      else if q.is_error
      then failed
      else found_view (find_host host_id (or_else q.hosts [])) (tab_of tab)
