-- ===== src/Web/Format.antt =====
-- shortImage and osLabel of apps/web/src/lib/format.ts; toLowerCase is a parameter. The other formats
-- stand on the calendar, on floating-point numbers or on UTF-16 units.
pub mod Images
use docksight.Base.{
  String, Bool, true, false, ◌||◌, List, [], ◌∷◌, ◌==◌, eqb, take_last, if◌then◌else◌,
}
use docksight.Text.{code, concat, includes, starts_with}

abbrev pub prepend : String → List String → List String
prepend c [] = c ∷ []
prepend c (part ∷ parts) = concat c part ∷ parts

-- `split('/')`
unfoldable pub split_slash : String → List String
split_slash String.[] = "" ∷ []
split_slash (String.◌∷◌ c s) =
    let rest = split_slash s in
    if eqb (code c) 47 then "" ∷ rest else prepend (String.◌∷◌ c "") rest

-- `join('/')`
unfoldable pub join_slash : List String → String
join_slash [] = ""
join_slash (s ∷ []) = s
join_slash (s ∷ t ∷ parts) = concat s (concat "/" (join_slash (t ∷ parts)))

-- shortImage; "—" stands for an image without a name.
unfoldable pub short_image : String → String
unfolding includes split_slash join_slash
short_image image =
    if image == ""
    then "—"
    else if includes "/" image
    then join_slash (take_last 2 (split_slash image))
    else image

-- osLabel
unfoldable pub os_label : (lower : String → String) → String → String
unfolding includes starts_with
os_label lower os =
    let value = lower os in
    if starts_with "win" value
    then "Windows"
    else if includes "darwin" value || includes "mac" value
    then "macOS"
    else if includes "linux" value
    then "Linux"
    else if os == ""
    then "Unknown"
    else os
