-- ===== src/Web/Theme.antt =====
-- apps/web/src/stores/theme.ts: the theme, which the browser's storage keeps over a reload. Whether the
-- system prefers a dark theme is an argument.
use docksight.Base.{String, Bool, true, false, ◌≡◌, refl, Option, none, some, ◌==◌, if◌then◌else◌}

pub data Theme : Type 0 where
  light dark : Theme

abbrev theme_text : Theme → String
theme_text light = "light"
theme_text dark = "dark"

-- The theme of the store, the `dark` class of the document, and what localStorage has under the key.
pub record ThemeStore : Type 0 where
  pub theme : Theme
  pub dark_class : Bool
  pub stored : Option String

abbrev preferred : (prefers_dark : Bool) → Theme
preferred true = dark
preferred false = light

-- readInitialTheme in a browser
unfoldable pub read_initial_theme : Option String → (prefers_dark : Bool) → Theme
read_initial_theme none prefers_dark = preferred prefers_dark
read_initial_theme (some stored) prefers_dark =
    if stored == "light" then light else if stored == "dark" then dark else preferred prefers_dark

abbrev is_dark : Theme → Bool
is_dark light = false
is_dark dark = true

-- setTheme, with applyTheme in it
unfoldable pub set_theme : Theme → ThemeStore → ThemeStore
set_theme theme s = record {
  theme = theme;
  dark_class = is_dark theme;
  stored = some (theme_text theme);
}

abbrev other_theme : Theme → Theme
other_theme dark = light
other_theme light = dark

unfoldable pub toggle_theme : ThemeStore → ThemeStore
unfolding set_theme
toggle_theme s = set_theme (other_theme s.theme) s

set_theme-kept :
    (t : Theme) (prefers_dark : Bool) → read_initial_theme (some (theme_text t)) prefers_dark ≡ t
unfolding read_initial_theme
set_theme-kept light prefers_dark = refl
set_theme-kept dark prefers_dark = refl

other_theme-other_theme : (t : Theme) → other_theme (other_theme t) ≡ t
other_theme-other_theme light = refl
other_theme-other_theme dark = refl

-- A theme that was chosen is the theme after a reload, whatever the system prefers, and toggling twice
-- gives the same theme again.
pub set_theme_lem :
    (t : Theme) (s : ThemeStore) (prefers_dark : Bool)
    → (read_initial_theme (set_theme t s).stored prefers_dark ≡ t)
      × (read_initial_theme (toggle_theme s).stored prefers_dark ≡ (toggle_theme s).theme)
      × ((toggle_theme (toggle_theme s)).theme ≡ s.theme)
unfolding set_theme toggle_theme
set_theme_lem t s prefers_dark = (
  set_theme-kept t prefers_dark,
  set_theme-kept (other_theme s.theme) prefers_dark,
  other_theme-other_theme s.theme,
)
