-- ===== src/Web/LogStream/Lossless.antt =====
-- What the view shows is what the stream has sent, whether or not the user has paused it.
use docksight.Base.{
  ℕ, String, ◌≡◌, sym, ap, ◌∙◌, ◌≤◌, false, List, [], ◌++◌, length, take_last, take_last-short,
  append_nil,
}
use docksight.Web.LogStream.View.{LogEvent, max_entries, new_view, run, received}
use docksight.Web.LogStream.Shows.{new_view-Shows, run-Shows}

module _ {ℓ} {A : Type ℓ} (to_text : ℕ → String) where
  -- After any events, a view that is not paused shows exactly the last 5,000 of the entries that have
  -- come since the stream was started or the view was cleared, even if it was paused in between.
  pub run-received :
      (es : List (LogEvent A))
      → (run to_text es new_view).held ≡ false
      → (run to_text es new_view).entries ≡ take_last max_entries (received es [])
  run-received es h =
      let v = run to_text es new_view in
      let s = run-Shows to_text es [] new_view new_view-Shows in
      sym (take_last-short max_entries v.entries s.entries_bound)
      ∙ ap (take_last max_entries)
          (sym (append_nil v.entries) ∙ sym (ap (v.entries ++◌) (s.none_held h)))
      ∙ s.all_kept

  -- After any events, no more than 5,000 entries are shown and no more than 5,000 are held, and the number
  -- of held entries that the user reads is right.
  pub run-bounds :
      (es : List (LogEvent A))
      → let v = run to_text es new_view in
        (length v.entries ≤ 5000) × (length v.buffer ≤ 5000) × (v.buffered_count ≡ length v.buffer)
  run-bounds es =
      let s = run-Shows to_text es [] new_view new_view-Shows in
      (s.entries_bound, s.buffer_bound, s.counted)
