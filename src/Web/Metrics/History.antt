-- ===== src/Web/Metrics/History.antt =====
-- The history of the charts is short and has no reading twice in a row.
use docksight.Base.{
  ℕ, zero, suc, ◌-◌, ◌≡◌, refl, sym, subst, ◌≤◌, Bool, true, false, not, ◌&&◌, Option, none, some,
  List, [], ◌∷◌, ◌++◌, ◌==◌, inl, inr, Bool-cases, length, length-take_last, take_last-drop,
  take_last-drop, drop, arith,
}
use docksight.Json.{filled}
use docksight.Web.Metrics.{
  Sample, ChartHistory, last_collected, is_last, add_sample, reading_of, add_if, HistoryEvent,
  rendered, answered, same_host, history_step, run_history,
}

module _ {Num : Type 0} where
  -- No two readings that follow each other were taken at the same time.
  abbrev pub changes : List (Sample Num) → Bool
  changes [] = true
  changes (s ∷ []) = true
  changes (s ∷ t ∷ ts) = not (s.collected_at == t.collected_at) && changes (t ∷ ts)

  abbrev pub IsChart : List (Sample Num) → Type 0
  IsChart h = (length h ≤ 24) × (changes h ≡ true)

  changes-tail :
      (s : Sample Num) (ss : List (Sample Num)) → changes (s ∷ ss) ≡ true → changes ss ≡ true
  changes-tail s [] h = refl
  changes-tail s (t ∷ ts) h = ground (arith, h)

  changes-drop : (n : ℕ) (ss : List (Sample Num)) → changes ss ≡ true → changes (drop n ss) ≡ true
  changes-drop zero ss h = h
  changes-drop (suc n) [] h = refl
  changes-drop (suc n) (s ∷ ss) h = changes-drop n ss (changes-tail s ss h)

  changes-add :
      (ss : List (Sample Num)) (s : Sample Num)
      → is_last (last_collected ss) s.collected_at ≡ false
      → changes ss ≡ true
      → changes (ss ++ (s ∷ [])) ≡ true
  changes-add [] s e h = refl
  changes-add (t ∷ []) s e h = ground (arith, e)
  changes-add (t ∷ u ∷ us) s e h = ground (arith, h, changes-add (u ∷ us) s e)

  add_sample-IsChart :
      (s : Sample Num) (ss : List (Sample Num)) → IsChart ss → IsChart (add_sample s ss)
  unfolding add_sample
  add_sample-IsChart s ss h = elim (Bool-cases (is_last (last_collected ss) s.collected_at)) [
    | inl e ↦ rw e h
    | inr e ↦
        let more = ss ++ (s ∷ []) in
        let later =
          subst (λ l. changes l ≡ true) (sym (take_last-drop 24 more))
            (changes-drop (length more - 24) more (changes-add ss s e h.1)) in
        rw e (length-take_last 24 more, later)
  ]

  add_if-IsChart :
      (o : Option (Sample Num)) (c : ChartHistory Num)
      → IsChart c.history
      → IsChart (add_if o c).history
  add_if-IsChart none c h = h
  add_if-IsChart (some s) c h = add_sample-IsChart s c.history h

  history_step-IsChart :
      (e : HistoryEvent Num) (c : ChartHistory Num)
      → IsChart c.history
      → IsChart (history_step e c).history
  unfolding history_step
  history_step-IsChart (rendered host) c h = elim (Bool-cases (same_host c.host_ref host)) [
    | inl e ↦ rw e h
    | inr e ↦ rw e (ground arith, refl)
  ]
  history_step-IsChart (answered m) c h =
      add_if-IsChart (reading_of m.cpu m.memory (filled m.collected_at)) c h

  -- Whatever hosts the page shows and whatever answers come, the history of the charts has at most
  -- twenty-four readings, and no two that follow each other have the same time.
  pub run_history-IsChart :
      (es : List (HistoryEvent Num)) (c : ChartHistory Num)
      → IsChart c.history
      → IsChart (run_history es c).history
  unfolding run_history
  run_history-IsChart [] c h = h
  run_history-IsChart (e ∷ es) c h =
      run_history-IsChart es (history_step e c) (history_step-IsChart e c h)
