-- ===== src/Web/LogsView.antt =====
-- What apps/web/src/components/LogsViewer.tsx computes of the entries that it shows: their levels, the
-- filter, and the text that is copied and downloaded. toLowerCase is a parameter.
pub mod Levels
use docksight.Base.{
  ℕ, ◌+◌, String, Bool, true, false, not, ◌&&◌, ◌||◌, List, [], ◌∷◌, Option, none, some, or_else,
  leb, eqb, ◌==◌, if◌then◌else◌,
}
use docksight.Text.{code, concat, trim, includes}

pub record LogEntry : Type 0 where
  pub timestamp : String
  pub stream : String
  pub message : Option String

pub data Level : Type 0 where
  error warn info debug plain : Level

-- `\w`
abbrev pub is_word_char : ℕ → Bool
is_word_char c =
    (leb 48 c && leb c 57) || (leb 65 c && leb c 90) || (leb 97 c && leb c 122) || eqb c 95

-- A letter without regard to case, which for a pattern of ASCII letters concerns these alone.
abbrev pub lower_ascii : ℕ → ℕ
lower_ascii c = if leb 65 c && leb c 90 then c + 32 else c

-- The text after a word of the pattern, which the text must begin with.
unfoldable pub after_word : String → String → Option String
after_word String.[] s = some s
after_word (String.◌∷◌ k word) String.[] = none
after_word (String.◌∷◌ k word) (String.◌∷◌ c s) =
    let rest = after_word word s in if eqb (lower_ascii (code c)) (code k) then rest else none

abbrev pub starts_word_char : String → Bool
starts_word_char String.[] = false
starts_word_char (String.◌∷◌ c s) = is_word_char (code c)

-- The `\b` after the words, where there is one.
abbrev pub ends_there : (whole : Bool) → Option String → Bool
ends_there whole none = false
ends_there whole (some rest) = not (whole && starts_word_char rest)

unfoldable pub one_at : (whole : Bool) → List String → String → Bool
unfolding after_word
one_at whole [] s = false
one_at whole (word ∷ words) s = ends_there whole (after_word word s) || one_at whole words s

-- `/\b(words)\b/i.test(s)`, or without the last `\b`; `inside` tells whether a word character stands
-- before the text.
unfoldable pub has_word : (inside whole : Bool) → List String → String → Bool
unfolding one_at
has_word inside whole words String.[] = not inside && one_at whole words ""
has_word inside whole words (String.◌∷◌ c s) =
    let later = has_word (is_word_char (code c)) whole words s in
    (not inside && one_at whole words (String.◌∷◌ c s)) || later

abbrev pub error_words : List String
error_words = "error" ∷ "err" ∷ "fatal" ∷ "panic" ∷ "exception" ∷ "failed" ∷ []

abbrev pub warn_words : List String
warn_words = "warn" ∷ "warning" ∷ "deprecat" ∷ []

abbrev pub info_words : List String
info_words = "info" ∷ "notice" ∷ []

abbrev pub debug_words : List String
debug_words = "debug" ∷ "trace" ∷ []

-- detectLevel
unfoldable pub detect_level : LogEntry → Level
unfolding has_word
detect_level e =
    let message = or_else e.message "" in
    if has_word false true error_words message
    then error
    else if has_word false false warn_words message
    then warn
    else if has_word false true info_words message
    then info
    else if has_word false true debug_words message
    then debug
    else if e.stream == "stderr"
    then error
    else plain

module _ (lower : String → String) where
  abbrev pub in_message : String → Option String → Bool
  in_message value none = false
  in_message value (some message) = includes value (lower message)

  unfoldable pub keep_entries : String → List LogEntry → List LogEntry
  keep_entries value [] = []
  keep_entries value (e ∷ entries) =
      let rest = keep_entries value entries in if in_message value e.message then e ∷ rest else rest

  -- `filtered`
  unfoldable pub filtered_entries : String → List LogEntry → List LogEntry
  unfolding trim includes keep_entries
  filtered_entries query entries =
      let value = lower (trim query) in if value == "" then entries else keep_entries value entries

-- `${entry.timestamp} ${entry.message}`, where an undefined message is written as such.
abbrev pub entry_line : LogEntry → String
entry_line e = concat e.timestamp (concat " " (or_else e.message "undefined"))

-- What handleCopy and handleDownload write of the filtered entries.
unfoldable pub entries_text : List LogEntry → String
entries_text [] = ""
entries_text (e ∷ []) = entry_line e
entries_text (e ∷ f ∷ entries) = concat (entry_line e) (concat "\n" (entries_text (f ∷ entries)))
