-- ===== src/Web/ErrorBoundary.antt =====
-- apps/web/src/components/ErrorBoundary.tsx. What rendering the page of a route throws is a parameter.
-- After each update that React commits it calls componentDidUpdate with the properties of the one
-- before, and an error that the children throw is in the state of the same update.
pub mod Recovers
use docksight.Base.{String, Bool, true, false, Option, none, some, ◌==◌, if◌then◌else◌}

-- The state, with the `resetKey` that the boundary was last rendered with.
pub record Boundary : Type 0 where
  pub reset_key : String
  pub error : Option String

module _ (thrown_by : String → Option String) where
  abbrev pub rendered_error : Option String → String → Option String
  rendered_error none key = thrown_by key
  rendered_error (some error) key = some error

  -- One commit: the children are rendered unless there is an error, and may throw one.
  unfoldable pub commit : String → Boundary → Boundary
  commit key s = record { reset_key = key; error = rendered_error s.error key }

  abbrev is_error : Option String → Bool
  is_error none = false
  is_error (some error) = true

  -- componentDidUpdate: the error, after the update that its setState asks for.
  unfoldable pub did_update : (previous_key : String) → Boundary → Boundary
  did_update previous_key s =
      if is_error s.error
      then (if previous_key == s.reset_key
          then s
          else commit s.reset_key (record s { error = none }))
      else s

  -- An update with this key; the second componentDidUpdate sees the same key twice.
  unfoldable pub update_key : String → Boundary → Boundary
  update_key key s =
      let first = did_update s.reset_key (commit key s) in did_update first.reset_key first

  -- handleRetry
  unfoldable pub retry : Boundary → Boundary
  retry s = did_update s.reset_key (commit s.reset_key (record s { error = none }))
