-- ===== src/Tests/Pages.antt =====
-- The table of containers, its dialog, the names of the hosts and the charts.
use docksight.Base.{
  ℕ, ◌≤◌, ◌≡◌, refl, true, false, Option, none, some, List, [], ◌∷◌, ◌++◌, ◌+◌, min, ◌-◌, take,
  drop, ◌-◌, take, drop, map, length, arith,
}
use docksight.Text.{trim, trim_start, trim_end}
use docksight.Protocol.Container.{stop, remove}
use docksight.Protocol.Messages.{AgentStatus}
use docksight.Agents.{Agent}
use docksight.HostMetrics.{HostMetricsSnapshot}
use docksight.Web.Confirm.{
  ConfirmRequest, Dialog, new_dialog, DialogEvent, asked, checked, dismissed, confirmed,
}
use docksight.Web.Confirm.Promises.{asked_by, open_promise, run_settles}
use docksight.Web.Commands.{
  ContainerRow, delete_question, new_commands, PageEvent, clicked, box_checked, accepted, page_step,
  run_page,
}
use docksight.Web.Commands.Laws.{sends, page_step-sends}
use docksight.Web.Table.{page_count, current_page, visible, first_shown, last_shown}
use docksight.Web.Table.Pages.{pages_to, visible_bounds, pages_to-page_count}
use docksight.Web.HostInventory.{InventoryHost, HostQuery, all_rows, by_host_id}
use docksight.Web.HostInventory.Totals.{sum_cards, running_rows, by_host_id-all_rows}
use docksight.Web.Metrics.{MetricsResponse, ChartHistory, rendered, answered, run_history}
use docksight.Web.Metrics.History.{IsChart, run_history-IsChart}

abbrev twelve : List ℕ
twelve = 1 ∷ 2 ∷ 3 ∷ 4 ∷ 5 ∷ 6 ∷ 7 ∷ 8 ∷ 9 ∷ 10 ∷ 11 ∷ 12 ∷ []

visible_bounds_example :
    let shown = visible 5 twelve in
    let first = first_shown (current_page 5 (length twelve)) (length twelve) 10 in
    let last = last_shown (current_page 5 (length twelve)) (length twelve) 10 in
    (length shown ≤ 10)
    × (min 1 (length twelve) ≤ length shown)
    × (shown ≡ drop (first - 1) (take last twelve))
    × (1 ≤ length twelve → (1 ≤ first) × (last ≡ first - 1 + length shown))
    × (length twelve ≡ 0 → (first ≡ 0) × (last ≡ 0))
visible_bounds_example = visible_bounds 5 twelve (ground arith)

pages_to-page_count_example : pages_to (page_count (length twelve)) twelve ≡ twelve
pages_to-page_count_example = pages_to-page_count twelve

abbrev web_row : ContainerRow ℕ
web_row = record {
  container = record {
    id = "c1";
    name = "/web";
    image = "nginx";
    status = "Up 2 hours";
    state = "running";
    ports = [];
    created = 1;
  };
  host_id = some "h1";
  hostname = none;
}

abbrev page_events : List (PageEvent ℕ)
page_events = clicked web_row stop ∷ clicked web_row remove ∷ box_checked true ∷ []

page_step-sends_example :
    (page_step none accepted (run_page none page_events new_commands)).sent
    ≡ (run_page none page_events new_commands).sent
      ++ sends none accepted (run_page none page_events new_commands).dialog
page_step-sends_example = page_step-sends none page_events accepted

abbrev dialog_events : List (DialogEvent ℕ)
dialog_events =
    asked 1 (delete_question web_row)
    ∷ checked true
    ∷ confirmed
    ∷ asked 2 (delete_question web_row)
    ∷ asked 3 (delete_question web_row)
    ∷ []

run_settles_example :
    map (λ p. p.0) (docksight.Web.Confirm.run dialog_events new_dialog).1
      ++ open_promise (docksight.Web.Confirm.run dialog_events new_dialog).0.resolve_ref
    ≡ asked_by dialog_events
run_settles_example = run_settles dialog_events

abbrev build_host : Agent
build_host = record {
  id = "a1";
  uuid = "u1";
  hostname = "ip-10-0-0-1";
  display_name = some " build ";
  os = "linux";
  architecture = "x64";
  version = "1";
  status = AgentStatus.online;
  last_seen = none;
  created_at = 1;
  updated_at = 1;
}

build_host-trim : trim build_host.hostname ≡ build_host.hostname
unfolding trim trim_start trim_end
build_host-trim = refl

abbrev no_snapshot : Option (HostMetricsSnapshot ℕ)
no_snapshot = none

abbrev reading : MetricsResponse ℕ
reading = record {
  host_id = "h1";
  cpu = some (record { usage_percent = 5; cores = 2; load_avg = none });
  memory =
      some (record { total_bytes = 4; used_bytes = 1; available_bytes = 3; usage_percent = 25 });
  collected_at = some "2026-01-01T12:00:00Z";
}

abbrev new_history : ChartHistory ℕ
new_history = record { host_ref = some "h1"; history = [] }

new_history-IsChart : IsChart new_history.history
new_history-IsChart = (ground arith, refl)

run_history-IsChart_example :
    IsChart
      (run_history
        (rendered (some "h1") ∷ answered reading ∷ answered reading ∷ [])
        new_history).history
run_history-IsChart_example =
    run_history-IsChart (rendered (some "h1") ∷ answered reading ∷ answered reading ∷ [])
      new_history new_history-IsChart

abbrev two_hosts : List InventoryHost
two_hosts =
    record { id = "h1"; name = record { hostname = "a"; display_name = none } }
    ∷ record { id = "h2"; name = record { hostname = "b"; display_name = none } }
    ∷ []

abbrev one_answer : List (HostQuery ℕ)
one_answer =
    record {
      containers = some (web_row.container ∷ web_row.container ∷ []);
      is_loading = false;
      is_error = false;
    }
    ∷ []

by_host_id-all_rows_example :
    (sum_cards (λ s. s) (λ e. e.total) two_hosts (by_host_id (λ s. s) two_hosts one_answer)
      ≡ length (all_rows two_hosts one_answer))
    × (sum_cards (λ s. s) (λ e. e.running) two_hosts (by_host_id (λ s. s) two_hosts one_answer)
        ≡ running_rows (λ s. s) (all_rows two_hosts one_answer))
by_host_id-all_rows_example = by_host_id-all_rows (λ s. s) two_hosts one_answer refl
