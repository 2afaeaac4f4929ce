-- ===== src/Users/Race.antt =====
-- Two calls of createFirstAdmin of apps/server/src/setup/setup.service.ts at the same time.
use docksight.Base.{◌≤◌, String, false, ◌≡◌, refl, none, some, ltb, ◌==◌, eq_iff, ◌≢◌, arith}
use docksight.Text.{units}
use docksight.Http.{ok}
use docksight.Users.{
  admin, User, UserData, by_email, row, UserTable, Passwords, AuthUser, to_safe_user, to_auth_user,
  register, normalize_email, has_any_user, create_first_admin,
}

module _ (db : UserTable) (pw : Passwords) where
  open db use {Table, find_unique, count, create}

  abbrev pub admin_data : (email password salt : String) → UserData
  admin_data email password salt = record {
    email = normalize_email pw (some email);
    username = none;
    password_hash = pw.hash salt password;
    role = admin;
  }

  -- What a setup accepts: an email that is not blank and that no user has, and a long password.
  abbrev pub Accepted : (email password : String) → Table → Type 0
  Accepted email password t =
      (normalize_email pw (some email) ≢ "")
      × (8 ≤ units password)
      × (find_unique (by_email (normalize_email pw (some email))) t ≡ none)

  -- A setup that counted no user creates the administrator, whatever the table is by then, if the
  -- database takes the row.
  create_first_admin-created :
      (email password salt : String) (counted looked t s : Table) (u : User)
      → count counted ≡ 0
      → Accepted email password looked
      → create (admin_data email password salt) t ≡ row s u
      → create_first_admin db pw email password salt counted looked t
        ≡ (s, ok (to_auth_user (to_safe_user u)))
  unfolding create_first_admin has_any_user register
  create_first_admin-created email password salt counted looked t s u empty (full, long, free)
        made =
      let e = normalize_email pw (some email) in
      let no_user : ltb 0 (count counted) ≡ false = ground (arith, empty) in
      let is_full : (e == "") ≡ false = ground (arith, eq_iff e "", full) in
      let is_long : ltb (units password) 8 ≡ false = ground (arith, long) in
      rw (no_user, is_full, is_long, free, made) refl

  -- Two setups that both count the users of an empty instance, and look up their emails, before
  -- either has created its own: both are answered with an administrator, and there are two, where the
  -- setups accept what they are given and the database takes both rows.
  pub setups_race :
      (email password salt other_email other_password other_salt : String) (t s s' : Table)
      (u u' : User)
      → count t ≡ 0
      → Accepted email password t
      → Accepted other_email other_password t
      → create (admin_data email password salt) t ≡ row s u
      → create (admin_data other_email other_password other_salt) s ≡ row s' u'
      → (a : AuthUser) × ((a' : AuthUser) × ((create_first_admin db pw email password salt t t t
              ≡ (s, ok a))
            × (create_first_admin db pw other_email other_password other_salt t t s ≡ (s', ok a'))
            × (a.role ≡ admin)
            × (a'.role ≡ admin)
            × (count s' ≡ 2)))
  setups_race email password salt email' password' salt' t s s' u u' empty one two made made' =
      let (_, _, role, _, more) = db.create_row (admin_data email password salt) t made in
      let (_, _, role', _, more') = db.create_row (admin_data email' password' salt') s made' in
      (
        to_auth_user (to_safe_user u),
        (
          to_auth_user (to_safe_user u'),
          (
            create_first_admin-created email password salt t t t s u empty one made,
            create_first_admin-created email' password' salt' t t s s' u' empty two made',
            role,
            role',
            omega (arith, empty, more, more'),
          ),
        ),
      )
