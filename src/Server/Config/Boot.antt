-- ===== src/Server/Config/Boot.antt =====
-- With which environments the server starts, and what it then has.
use docksight.Base.{
  String, ℕ, Bool, true, false, ◌≡◌, refl, ◌≢◌, ◌≤◌, ◌↔◌, ◌==◌, List, [], ◌∷◌, Option, none, some,
  or_else, ltb, arith, Bool-cases, inl, inr, eq_iff, subst,
}
use docksight.Json.{filled}
use docksight.Text.{trim, units, is_blank}
use docksight.Text.Trim.{trim-trim}
use docksight.Server.Config.{
  loaded, AuthEnv, is_duration, auth_config, DatabaseParts, DatabaseVars, database_url,
  build_database_url, database_parts, resolve_database_url, same_origin, origins, split_comma,
  filled_origins, resolve_cors_origin,
}
use docksight.Server.Config.Duration.{IsDuration, is_duration_lem}

long_full : (secret : String) → 32 ≤ units secret → (secret == "") ≡ false
unfolding units
long_full secret long = elim (Bool-cases (secret == "")) [
  | inl e ↦ absurd (omega (arith, subst (λ s. 32 ≤ units s) ((eq_iff secret "").0 e) long))
  | inr e ↦ e
]

module _ (decimal : ℕ → String) where
  -- The secret is there and long enough, and the lifetime is a duration.
  abbrev pub IsBootable : Option String → Option String → AuthEnv → Type 0
  IsBootable secret expires_in e =
      (secret ≡ some e.jwt_secret)
      × (32 ≤ units e.jwt_secret)
      × (e.jwt_expires_in ≡ trim (or_else expires_in "12h"))
      × IsDuration e.jwt_expires_in

  given_secret :
      (secret : Option String)
      → (or_else secret "" == "") ≡ false
      → secret ≡ some (or_else secret "")
  given_secret none e = absurd (ground (arith, e))
  given_secret (some s) e = refl

  -- The server starts exactly where JWT_SECRET is given with 32 UTF-16 units or more and JWT_EXPIRES_IN,
  -- by default 12h, is a duration once it is trimmed; it then uses that secret and that lifetime.
  pub auth_config_lem :
      (secret expires_in : Option String) (e : AuthEnv)
      → (auth_config decimal secret expires_in ≡ loaded e) ↔ IsBootable secret expires_in e
  unfolding auth_config
  auth_config_lem secret expires_in e = (boots, starts)
    where
      given : String
      given = or_else secret ""

      lifetime : String
      lifetime = trim (or_else expires_in "12h")

      boots : auth_config decimal secret expires_in ≡ loaded e → IsBootable secret expires_in e
      boots h = elim (Bool-cases (given == "")) [
        | inl empty ↦ absurd (ground (arith, h, empty))
        | inr full ↦ elim (Bool-cases (ltb (units given) 32)) [
          | inl short ↦ absurd (ground (arith, h, full, short))
          | inr long ↦ elim (Bool-cases (is_duration lifetime)) [
            | inr bad ↦ absurd (ground (arith, h, full, long, bad))
            | inl good ↦
                let same : record { jwt_secret = given; jwt_expires_in = lifetime } ≡ e =
                  ground (arith, h, full, long, good) in
                subst (IsBootable secret expires_in) same (
                  given_secret secret full,
                  ground (arith, long),
                  refl,
                  (is_duration_lem lifetime).0 good,
                )
          ]
        ]
      ]

      starts : IsBootable secret expires_in e → auth_config decimal secret expires_in ≡ loaded e
      starts (s, long, l, d) =
          let full : (e.jwt_secret == "") ≡ false = long_full e.jwt_secret long in
          let enough : ltb (units e.jwt_secret) 32 ≡ false = ground (arith, long) in
          let good : is_duration lifetime ≡ true =
            subst (λ t. is_duration t ≡ true) l ((is_duration_lem e.jwt_expires_in).1 d) in
          rw (s, full, enough, good) (ground (arith, l))

-- Every origin of a list is trimmed and not empty.
abbrev pub AllOrigins : List String → Type 0
AllOrigins [] = Unit
AllOrigins (o ∷ os) = ((trim o ≡ o) × (o ≢ "")) × AllOrigins os

filled_origins-AllOrigins : (parts : List String) → AllOrigins (filled_origins parts)
unfolding filled_origins
filled_origins-AllOrigins [] = tt
filled_origins-AllOrigins (part ∷ parts) = elim (Bool-cases (trim part == "")) [
  | inl e ↦ rw e (filled_origins-AllOrigins parts)
  | inr e ↦
      rw e (
        (trim-trim part, ground (arith, e, eq_iff (trim part) "")),
        filled_origins-AllOrigins parts,
      )
]

-- In production without CORS_ORIGINS only the server's own origin is let in; the origins that are
-- configured are let in trimmed, and none of them is empty, also where a comma stands at an end or
-- twice.
pub resolve_cors_origin_lem :
    (configured : String) (production : Bool)
    → (resolve_cors_origin none true ≡ same_origin)
      × (is_blank configured ≡ true → resolve_cors_origin (some configured) true ≡ same_origin)
      × (is_blank configured ≡ false
          → (os : List String) × ((resolve_cors_origin (some configured) production ≡ origins os)
              × AllOrigins os))
unfolding resolve_cors_origin
resolve_cors_origin_lem configured production = (
  refl,
  λ e. rw e refl,
  λ e. (_, (rw e refl, filled_origins-AllOrigins (split_comma configured))),
)

filled_or :
    (o : Option String) (other : String)
    → (other == "") ≡ false
    → filled (some (or_else (filled o) other)) ≡ some (or_else (filled o) other)
filled_or none other e = rw e refl
filled_or (some s) other e = elim (Bool-cases (s == "")) [
  | inl blank ↦ rw blank (rw e refl)
  | inr full ↦ rw full (rw full refl)
]

build_database_url_full :
    (encode : String → String) (p : DatabaseParts) → (build_database_url encode p == "") ≡ false
unfolding build_database_url
build_database_url_full encode p =
    let full : build_database_url encode p ≢ "" = λ e. cc e in
    ground (arith, eq_iff (build_database_url encode p) "", full)

-- The URL that the configuration makes is never empty, so that the database service gets one and no
-- start fails for want of it; a DATABASE_URL that is not empty is used as it is.
pub resolve_database_url_lem :
    (encode number : String → String) (e : DatabaseVars) (fallback : Option String)
    → let url = database_url encode number e in
      (resolve_database_url (some url) fallback ≡ loaded url)
      × ((given : String) → e.url ≡ some given → given ≢ "" → url ≡ given)
unfolding resolve_database_url database_url
resolve_database_url_lem encode number e fallback = (
  rw
      (filled_or e.url (build_database_url encode (database_parts number e))
        (build_database_url_full encode (database_parts number e)))
      refl,
  λ given p full. ground (arith, p, eq_iff given "", full),
)
