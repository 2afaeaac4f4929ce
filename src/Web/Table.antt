-- ===== src/Web/Table.antt =====
-- What apps/web/src/components/ContainerTable.tsx computes for the table, and
-- apps/web/src/components/ui/pagination.tsx for the bar below it. toLowerCase is a parameter.
pub mod Pages
pub mod Bar
pub mod Filters
use docksight.Base.{
  ℕ, zero, suc, ◌+◌, ◌-◌, ◌*◌, ◌/◌, min, max, String, Bool, true, false, not, ◌&&◌, ◌||◌, Option,
  none, some, List, [], ◌∷◌, ◌++◌, ◌==◌, length, slice, leb, ltb, eqb, or_else, if◌then◌else◌,
}
use docksight.Text.{trim, includes}
use docksight.Web.Commands.{ContainerRow}

pub data StatusFilter : Type 0 where
  all running exited paused restarting : StatusFilter

abbrev pub page_size : ℕ
page_size = 10

pub record Tally : Type 0 where
  pub running : ℕ
  pub exited : ℕ
  pub paused : ℕ
  pub restarting : ℕ

abbrev pub filter_text : StatusFilter → String
filter_text all = "all"
filter_text running = "running"
filter_text exited = "exited"
filter_text paused = "paused"
filter_text restarting = "restarting"

abbrev pub no_tally : Tally
no_tally = record { running = 0; exited = 0; paused = 0; restarting = 0 }

-- One more of a state that the tally has.
unfoldable pub count_state : String → Tally → Tally
count_state state t =
    if state == "running"
    then record t { running = suc t.running }
    else if state == "exited"
    then record t { exited = suc t.exited }
    else if state == "paused"
    then record t { paused = suc t.paused }
    else if state == "restarting"
    then record t { restarting = suc t.restarting }
    else t

abbrev pub in_filter : StatusFilter → String → Bool
in_filter all state = true
in_filter filter state = state == filter_text filter

module _ (lower : String → String) where
  abbrev pub state_of : {Num : Type 0} → ContainerRow Num → String
  state_of row = lower row.container.state

  unfoldable pub counts : {Num : Type 0} → List (ContainerRow Num) → Tally → Tally
  unfolding count_state
  counts [] t = t
  counts (row ∷ rows) t = counts rows (count_state (state_of row) t)

  abbrev pub in_query : {Num : Type 0} → String → ContainerRow Num → Bool
  in_query value row =
      value == ""
      || includes value (lower row.container.name)
      || includes value (lower row.container.image)
      || includes value (lower row.container.id)
      || includes value (lower (or_else row.hostname ""))

  abbrev pub is_shown : {Num : Type 0} → StatusFilter → String → ContainerRow Num → Bool
  is_shown filter value row = in_filter filter (state_of row) && in_query value row

  abbrev pub keep_shown :
      {Num : Type 0} → StatusFilter → String → List (ContainerRow Num) → List (ContainerRow Num)
  keep_shown filter value [] = []
  keep_shown filter value (row ∷ rows) =
      let rest = keep_shown filter value rows in
      if is_shown filter value row then row ∷ rest else rest

  -- `filtered`
  unfoldable pub filtered :
      {Num : Type 0} → StatusFilter → String → List (ContainerRow Num) → List (ContainerRow Num)
  filtered filter query rows = keep_shown filter (lower (trim query)) rows

-- The count that is shown beside a filter.
abbrev pub filter_count :
    {Num : Type 0} → (lower : String → String) → StatusFilter → List (ContainerRow Num) → ℕ
filter_count lower all rows = length rows
filter_count lower running rows = (counts lower rows no_tally).running
filter_count lower exited rows = (counts lower rows no_tally).exited
filter_count lower paused rows = (counts lower rows no_tally).paused
filter_count lower restarting rows = (counts lower rows no_tally).restarting

-- Math.max(1, Math.ceil(total / PAGE_SIZE))
abbrev pub page_count : ℕ → ℕ
page_count total = max 1 ((total + (page_size - 1)) / page_size)

abbrev pub current_page : ℕ → ℕ → ℕ
current_page page total = min page (page_count total)

-- `visible`: the rows of the page that is shown.
unfoldable pub visible {ℓ} : {A : Type ℓ} → ℕ → List A → List A
visible page rows =
    let current = current_page page (length rows) in
    slice ((current - 1) * page_size) (current * page_size) rows

-- `first` and `last` of the bar.
abbrev pub first_shown : (page total size : ℕ) → ℕ
first_shown page total size = if eqb total 0 then 0 else (page - 1) * size + 1

abbrev pub last_shown : (page total size : ℕ) → ℕ
last_shown page total size = min (page * size) total

pub data PageEntry : Type 0 where
  number : ℕ → PageEntry
  gap : PageEntry

-- The numbers from `value` on, `count` of them.
abbrev pub numbers_from : (value count : ℕ) → List PageEntry
numbers_from value zero = []
numbers_from value (suc count) = number value ∷ numbers_from (suc value) count

abbrev pub gap_if : Bool → List PageEntry
gap_if true = gap ∷ []
gap_if false = []

-- buildPages; the loop runs from `start` to `end`.
unfoldable pub build_pages : (page page_count : ℕ) → List PageEntry
build_pages page page_count =
    let start = max 2 (page - 1) in
    let end = min (page_count - 1) (page + 1) in
    if leb page_count 7
    then numbers_from 1 page_count
    else (number 1 ∷ [])
      ++ gap_if (ltb 2 start)
      ++ numbers_from start (suc end - start)
      ++ gap_if (ltb end (page_count - 1))
      ++ (number page_count ∷ [])
