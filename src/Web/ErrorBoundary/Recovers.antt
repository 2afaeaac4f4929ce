-- ===== src/Web/ErrorBoundary/Recovers.antt =====
-- A broken page does not keep the user from the others.
use docksight.Base.{
  String, false, ◌≡◌, ◌≢◌, refl, Option, none, some, ◌==◌, eq_iff, eq_refl, arith, Option-cases,
  inl, inr,
}
use docksight.Web.ErrorBoundary.{Boundary, commit, did_update, update_key, retry, rendered_error}

module _ (thrown_by : String → Option String) where
  did_update-same : (s : Boundary) → did_update thrown_by s.reset_key s ≡ s
  unfolding did_update
  did_update-same s = elim (Option-cases s.error) [
    | inl e ↦ rw e refl
    | inr (m, e) ↦ rw (e, eq_refl s.reset_key) refl
  ]

  did_update-other :
      (previous key : String) (error : Option String)
      → (previous == key) ≡ false
      → (error ≡ none → thrown_by key ≡ none)
      → did_update thrown_by previous (record { reset_key = key; error = error })
        ≡ record { reset_key = key; error = thrown_by key }
  unfolding did_update commit
  did_update-other previous key none e h = rw (h refl) refl
  did_update-other previous key (some m) e h = rw e refl

  rendered_error-none :
      (o : Option String) (key : String)
      → rendered_error thrown_by o key ≡ none
      → thrown_by key ≡ none
  rendered_error-none none key e = e
  rendered_error-none (some m) key e = absurd (ground (arith, e))

  rendered_error-some :
      (o : Option String) (m key : String) → o ≡ some m → rendered_error thrown_by o key ≡ o
  rendered_error-some none m key e = absurd (ground (arith, e))
  rendered_error-some (some n) m key e = refl

  -- Whatever the boundary showed before: after a navigation to another route it shows that route's page,
  -- or the error that this page throws; trying again shows the page of the route where it no longer
  -- throws; and an update that does not change the route keeps an error.
  pub update_key_lem :
      (key : String) (s : Boundary)
      → (key ≢ s.reset_key
          → update_key thrown_by key s ≡ record { reset_key = key; error = thrown_by key })
        × (retry thrown_by s ≡ record { reset_key = s.reset_key; error = thrown_by s.reset_key })
        × ((m : String) → s.error ≡ some m → update_key thrown_by s.reset_key s ≡ s)
  unfolding update_key retry commit
  update_key_lem key s = (
    λ ne.
        let differs : (s.reset_key == key) ≡ false = ground (arith, eq_iff s.reset_key key, ne) in
        rw
          (did_update-other s.reset_key key (rendered_error thrown_by s.error key) differs
            (rendered_error-none s.error key))
          (did_update-same (record { reset_key = key; error = thrown_by key })),
    did_update-same (record { reset_key = s.reset_key; error = thrown_by s.reset_key }),
    λ m e.
        let kept : record {
          reset_key = s.reset_key;
          error = rendered_error thrown_by s.error s.reset_key;
        }
            ≡ s =
          cc (rendered_error-some s.error m s.reset_key e) in
        rw kept (rw (did_update-same s) (did_update-same s)),
  )
