-- ===== src/Dict.antt =====
-- A JavaScript `Map` with string keys: `get`, `set`, `delete` and the order of `entries()`. Clients
-- prove by the laws; the operations unfold so that a test can run.
mod Assoc
mod Map
pub use Assoc.{Absent, HasUniqueKeys, any_at, passes}
unfoldable pub use Map.{empty, get, set, delete, entries}
pub use Map.{
  Dict, get-empty, get-set, get-delete, get-entries, entries-HasUniqueKeys, any_at-entries,
}
