-- ===== src/Web/LogStream/Shows.antt =====
-- A view of the log holds what it is to show: an invariant of every event.
use docksight.Base.{
  ℕ, String, Option, none, ◌≡◌, refl, sym, ap, subst, if◌then◌else◌, ◌∙◌, ◌≤◌, Bool, true, false,
  inl, inr, List, [], ◌∷◌, ◌++◌, length, take_last, length-take_last, take_last-before,
  take_last-after, append_nil, append_assoc, Bool-cases, arith,
}
use docksight.Web.LogStream.View.{
  LogView, LogEvent, LogStreamStatus, connecting, live, paused, error, flush, started, unreachable,
  opened, disconnected, toggled, cleared, refused, chunk, max_entries, new_view, start, fail,
  open_stream, buffer_entries, show_entries, push_entries, toggle_pause, commit_paused, clear,
  apply, run, received, since,
}

-- What holds of a view that is to show `log`.
pub record Shows {ℓ} {A : Type ℓ} (log : List A) (v : LogView A) : Type ℓ where
  pub committed : v.held_ref ≡ v.held
  pub counted : v.buffered_count ≡ length v.buffer
  pub entries_bound : length v.entries ≤ max_entries
  pub buffer_bound : length v.buffer ≤ max_entries
  pub all_kept : take_last max_entries (v.entries ++ v.buffer) ≡ take_last max_entries log
  pub none_held : v.held ≡ false → v.buffer ≡ []

module _ {ℓ} {A : Type ℓ} where
  pub new_view-Shows : Shows [] (new_view {A = A})
  new_view-Shows = record {
    committed = refl;
    counted = refl;
    entries_bound = ground arith;
    buffer_bound = ground arith;
    all_kept = refl;
    none_held = λ e. refl;
  }

  buffer_entries-Shows :
      (log next : List A) (v : LogView A)
      → v.held ≡ true
      → Shows log v
      → Shows (log ++ next) (buffer_entries next v)
  unfolding buffer_entries
  buffer_entries-Shows log next v h s =
      let more = v.buffer ++ next in
      record {
        committed = s.committed;
        counted = refl;
        entries_bound = s.entries_bound;
        buffer_bound = length-take_last max_entries more;
        all_kept =
            take_last-after max_entries v.entries more
            ∙ ap (take_last max_entries) (sym (append_assoc v.entries v.buffer next))
            ∙ sym (take_last-before max_entries (v.entries ++ v.buffer) next)
            ∙ ap (λ l. take_last max_entries (l ++ next)) s.all_kept
            ∙ take_last-before max_entries log next;
        none_held = λ e. ground arith;
      }

  show_entries-Shows :
      (log next : List A) (v : LogView A)
      → v.held ≡ false
      → Shows log v
      → Shows (log ++ next) (show_entries next v)
  unfolding show_entries
  show_entries-Shows log next v h s =
      let more = v.entries ++ next in
      let none_left = s.none_held h in
      let kept : take_last max_entries v.entries ≡ take_last max_entries log =
        ap (take_last max_entries) (sym (append_nil v.entries) ∙ sym (ap (v.entries ++◌) none_left))
        ∙ s.all_kept in
      record {
        committed = s.committed;
        counted = s.counted;
        entries_bound = length-take_last max_entries more;
        buffer_bound = s.buffer_bound;
        all_kept =
            ap (λ b. take_last max_entries (take_last max_entries more ++ b)) none_left
            ∙ take_last-before max_entries more []
            ∙ ap (take_last max_entries) (append_nil more)
            ∙ sym (take_last-before max_entries v.entries next)
            ∙ ap (λ l. take_last max_entries (l ++ next)) kept
            ∙ take_last-before max_entries log next;
        none_held = λ e. none_left;
      }

  push_entries-Shows :
      (log next : List A) (v : LogView A) → Shows log v → Shows (log ++ next) (push_entries next v)
  unfolding push_entries
  push_entries-Shows log [] v s = subst (λ l. Shows l v) (sym (append_nil log)) s
  push_entries-Shows log (e ∷ es) v s =
      let C : Bool → LogView A =
        λ b. if b then buffer_entries (e ∷ es) v else show_entries (e ∷ es) v in
      elim (Bool-cases v.held_ref) [
        | inl t ↦
            subst (λ b. Shows (log ++ (e ∷ es)) (C b)) (sym t)
              (buffer_entries-Shows log (e ∷ es) v (sym s.committed ∙ t) s)
        | inr t ↦
            subst (λ b. Shows (log ++ (e ∷ es)) (C b)) (sym t)
              (show_entries-Shows log (e ∷ es) v (sym s.committed ∙ t) s)
      ]

  -- Resuming shows what was held.
  resume-Shows :
      (log : List A) (v : LogView A)
      → Shows log v
      → Shows log (record (flush v.buffer v) { status = live; held = false; held_ref = false })
  resume-Shows log v s = go v.buffer refl
    where
      go :
          (b : List A)
          → v.buffer ≡ b
          → Shows log (record (flush b v) { status = live; held = false; held_ref = false })
      go [] e = record {
        committed = refl;
        counted = s.counted;
        entries_bound = s.entries_bound;
        buffer_bound = s.buffer_bound;
        all_kept = s.all_kept;
        none_held = λ h. e;
      }
      go (x ∷ xs) e = record {
        committed = refl;
        counted = refl;
        entries_bound = length-take_last max_entries (v.entries ++ (x ∷ xs));
        buffer_bound = ground arith;
        all_kept =
            take_last-before max_entries (v.entries ++ (x ∷ xs)) []
            ∙ ap (take_last max_entries) (append_nil (v.entries ++ (x ∷ xs)))
            ∙ ap (λ b. take_last max_entries (v.entries ++ b)) (sym e)
            ∙ s.all_kept;
        none_held = λ h. refl;
      }

  toggle-Shows :
      (log : List A) (v : LogView A) → Shows log v → Shows log (commit_paused (toggle_pause v))
  unfolding commit_paused toggle_pause
  toggle-Shows log v s =
      let held : LogView A = record v { status = paused; held = true } in
      let C : Bool → LogView A =
        λ b. if b then record (flush v.buffer v) { status = live; held = false } else held in
      let D : Bool → LogView A = λ b. record (C b) { held_ref = (C b).held } in
      elim (Bool-cases v.held) [
        | inl t ↦ subst (λ b. Shows log (D b)) (sym t) (resume-Shows log v s)
        | inr t ↦
            subst (λ b. Shows log (D b)) (sym t)
              (record {
                committed = refl;
                counted = s.counted;
                entries_bound = s.entries_bound;
                buffer_bound = s.buffer_bound;
                all_kept = s.all_kept;
                none_held = λ h. ground arith;
              })
      ]

  -- A change of the status and the message alone.
  Shows-relabelled :
      (log : List A) (v : LogView A) (st : LogStreamStatus) (m : Option String)
      → Shows log v
      → Shows log (record v { status = st; message = m })
  Shows-relabelled log v st m s = record {
    committed = s.committed;
    counted = s.counted;
    entries_bound = s.entries_bound;
    buffer_bound = s.buffer_bound;
    all_kept = s.all_kept;
    none_held = s.none_held;
  }

  -- Nothing is shown and nothing is held.
  emptied-Shows :
      (v : LogView A) (st : LogStreamStatus) (m : Option String)
      → v.held_ref ≡ v.held
      → Shows []
          (record v { entries = []; buffer = []; buffered_count = 0; status = st; message = m })
  emptied-Shows v st m h = record {
    committed = h;
    counted = refl;
    entries_bound = ground arith;
    buffer_bound = ground arith;
    all_kept = refl;
    none_held = λ e. refl;
  }

module _ {ℓ} {A : Type ℓ} (to_text : ℕ → String) where
  apply-Shows :
      (e : LogEvent A) (log : List A) (v : LogView A)
      → Shows log v
      → Shows (since e log) (apply to_text e v)
  unfolding apply start fail open_stream clear
  apply-Shows started log v s = emptied-Shows v connecting none s.committed
  apply-Shows unreachable log v s = Shows-relabelled log v error _ s
  apply-Shows (refused status) log v s = Shows-relabelled log v error _ s
  apply-Shows opened log v s = Shows-relabelled log v _ v.message s
  apply-Shows disconnected log v s = Shows-relabelled log v error _ s
  apply-Shows toggled log v s = toggle-Shows log v s
  apply-Shows cleared log v s = emptied-Shows v v.status v.message s.committed
  apply-Shows (chunk next) log v s = push_entries-Shows log next v s

  pub run-Shows :
      (es : List (LogEvent A)) (log : List A) (v : LogView A)
      → Shows log v
      → Shows (received es log) (run to_text es v)
  unfolding run received
  run-Shows [] log v s = s
  run-Shows (e ∷ es) log v s =
      run-Shows es (since e log) (apply to_text e v) (apply-Shows e log v s)
