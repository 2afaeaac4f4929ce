-- ===== src/Web/Selection.antt =====
-- The entry that a page has selected, and the effects that choose one: MetricsPage of
-- apps/web/src/features/metrics, and LogsTab and MetricsTab of
-- apps/web/src/features/hosts/HostDetailsPage.tsx.
pub mod Settled
use docksight.Base.{
  String, Bool, true, false, ◌&&◌, ◌||◌, not, List, [], ◌∷◌, Option, none, some, or_else, is_some,
  ◌==◌, if◌then◌else◌,
}
use docksight.Json.{filled}

-- What the pages read of a host or a container: its id, and whether its state is "running".
pub record Entry : Type 0 where
  pub id : String
  pub running : Bool

-- `entries.find((entry) => entry.id === id)`
unfoldable pub find_entry : Option String → List Entry → Option Entry
find_entry id [] = none
find_entry none (e ∷ entries) = none
find_entry (some id) (e ∷ entries) =
    let rest = find_entry (some id) entries in if e.id == id then some e else rest

unfoldable pub find_running : List Entry → Option Entry
find_running [] = none
find_running (e ∷ entries) = let rest = find_running entries in if e.running then some e else rest

-- `id && entries.some((entry) => entry.id === id)`
abbrev pub is_selected : Option String → List Entry → Bool
is_selected id entries = is_some (filled id) && is_some (find_entry id entries)

-- The effect of MetricsPage.
unfoldable pub select_first : List Entry → Option String → Option String
unfolding find_entry
select_first [] id = none
select_first (e ∷ entries) id = if is_selected id (e ∷ entries) then id else some e.id

-- The effect of LogsTab, which prefers a running container.
unfoldable pub select_running : List Entry → Option String → Option String
unfolding find_entry find_running
select_running [] id = none
select_running (e ∷ entries) id =
    if is_selected id (e ∷ entries) then id else some ((or_else (find_running (e ∷ entries)) e).id)

abbrev first_entry : List Entry → Option Entry
first_entry [] = none
first_entry (e ∷ entries) = some e

abbrev entry_or : Option Entry → Option Entry → Option Entry
entry_or (some e) other = some e
entry_or none other = other

-- The container that MetricsPage and MetricsTab show.
unfoldable pub shown_entry : Option String → List Entry → Option Entry
unfolding find_entry
shown_entry id entries = entry_or (find_entry id entries) (first_entry entries)
