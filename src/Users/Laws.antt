-- ===== src/Users/Laws.antt =====
-- What a registration leaves, who can log in after it, and how often the setup can run.
use docksight.Base.{
  suc, ◌≤◌, ◌<◌, String, true, false, ◌≡◌, Option, none, some, or_else, ltb, ◌==◌, eq_iff, arith,
  Bool-cases, inl, inr, subst, sym, ap, ◌∙◌,
}
use docksight.Text.{units}
use docksight.Http.{conflict, Response, ok, thrown}
use docksight.Users.{
  UserRole, admin, viewer, User, UserData, by_email, Created, row, taken, broken, UserTable,
  Passwords, RegisterUserInput, SafeUser, AuthUser, to_safe_user, to_auth_user, created_answer,
  register_checked, register, normalize_email, trimmed, validate_credentials, verify_password,
  find_by_email_with_secret, has_any_user, create_first_admin, setup_required, auth_answer,
}

module _ (db : UserTable) (pw : Passwords) where
  open db use {Table, find_unique, count, create}

  created_answer-ok :
      (c : Created Table) (t s : Table) (u : SafeUser)
      → created_answer db pw c t ≡ (s, ok u)
      → (w : User) × ((c ≡ row s w) × (u ≡ to_safe_user w))
  created_answer-ok (row s' w) t s u e = (w, (cc e, cc e))
  created_answer-ok taken t s u e = cc
  created_answer-ok (broken m) t s u e = cc

  register_checked-created :
      (email password : String) (username : Option String) (role : Option UserRole) (salt : String)
      (mail name t s : Table) (u : SafeUser)
      → register_checked db pw email password username role salt mail name t ≡ (s, ok u)
      → let d : UserData = record {
        email = email;
        username = username;
        password_hash = pw.hash salt password;
        role = or_else role viewer;
      } in
        ((email == "") ≡ false)
        × (ltb (units password) 8 ≡ false)
        × (find_unique (by_email email) mail ≡ none)
        × (created_answer db pw (create d t) t ≡ (s, ok u))
  register_checked-created email password username role salt mail name t s u e = ground arith

  -- What a registration that succeeds has checked and left.
  pub register_checked-ok :
      (email password : String) (username : Option String) (role : Option UserRole) (salt : String)
      (mail name t s : Table) (u : SafeUser)
      → register_checked db pw email password username role salt mail name t ≡ (s, ok u)
      → ((email == "") ≡ false)
        × (8 ≤ units password)
        × (w : User) × ((u ≡ to_safe_user w)
            × ((w.password_hash ≡ pw.hash salt password)
                × ((w.role ≡ or_else role viewer)
                    × ((w.email ≡ email)
                        × ((find_unique (by_email email) mail ≡ none)
                            × ((find_unique (by_email email) s ≡ some w)
                                × (count s ≡ suc (count t))))))))
  register_checked-ok email password username role salt mail name t s u e =
      let d : UserData = record {
        email = email;
        username = username;
        password_hash = pw.hash salt password;
        role = or_else role viewer;
      } in
      let (filled, long, free, made) =
        register_checked-created email password username role salt mail name t s u e in
      let (w, (new, safe)) = created_answer-ok (create d t) t s u made in
      let (same_mail, hashed, role, found, more) = db.create_row d t new in
      (filled, ground arith, w, (safe, (hashed, (role, (same_mail, (free, (found, more)))))))

  long_filled : (password : String) → 8 ≤ units password → (password == "") ≡ false
  unfolding units
  long_filled password long = elim (Bool-cases (password == "")) [
    | inl e ↦
        let short = subst (λ p. 8 ≤ units p) ((eq_iff password "").0 e) long in
        absurd (omega (arith, short))
    | inr e ↦ e
  ]

  verify_password_hash :
      (salt password : String)
      → 8 ≤ units password
      → verify_password pw password (pw.hash salt password) ≡ true
  unfolding verify_password
  verify_password_hash salt password long = ground (
    arith,
    long_filled password long,
    eq_iff (pw.hash salt password) "",
    pw.hash_filled salt password,
    pw.compare_hash salt password,
  )

  -- Who has just registered can log in with the same email and password, and is told the user that
  -- the registration answered; one who gave no role is no administrator.
  pub login_after_register :
      (input : RegisterUserInput) (salt : String) (mail name t s : Table) (u : SafeUser)
      → register db pw input salt mail name t ≡ (s, ok u)
      → (validate_credentials db pw input.email input.password s ≡ some u)
        × (u.role ≡ or_else input.role viewer)
  unfolding register validate_credentials find_by_email_with_secret
  login_after_register input salt mail name t s u e =
      let email = normalize_email pw input.email in
      let password = or_else input.password "" in
      let (filled, long, w, (safe, (hashed, (role, (same_mail, (free, (found, more))))))) =
        register_checked-ok email password (trimmed input.username) input.role salt mail name t s u
          e in
      let same : verify_password pw password w.password_hash ≡ true =
        subst (λ h. verify_password pw password h ≡ true) (sym hashed)
          (verify_password_hash salt password long) in
      (rw (filled, found, same) (ap some (sym safe)), ap (λ v. v.role) safe ∙ role)

  auth_answer-ok :
      (r : Table × Response SafeUser) (s : Table) (a : AuthUser)
      → auth_answer db pw r ≡ (s, ok a)
      → (u : SafeUser) × ((r ≡ (s, ok u)) × (a ≡ to_auth_user u))
  auth_answer-ok (t, ok u) s a e = (u, (cc e, cc e))
  auth_answer-ok (t, thrown m) s a e = cc

  -- Where there is a user when the setup counts them, it refuses and changes nothing.
  pub create_first_admin_refused :
      (email password salt : String) (counted looked t : Table)
      → 0 < count counted
      → create_first_admin db pw email password salt counted looked t
        ≡ (t, thrown (conflict "DockSight has already been set up"))
  unfolding create_first_admin has_any_user
  create_first_admin_refused email password salt counted looked t some_user = ground arith

  abbrev first_admin : (email password : String) → RegisterUserInput
  first_admin email password = record {
    email = some email;
    password = some password;
    username = none;
    role = some admin;
  }

  -- What a setup that succeeds has done: it counted no user, and registered an administrator.
  create_first_admin-ok :
      (email password salt : String) (counted looked t s : Table) (a : AuthUser)
      → create_first_admin db pw email password salt counted looked t ≡ (s, ok a)
      → (count counted ≡ 0)
        × (u : SafeUser) × ((register db pw (first_admin email password) salt looked looked t
              ≡ (s, ok u))
            × (a ≡ to_auth_user u))
  unfolding create_first_admin has_any_user
  create_first_admin-ok email password salt counted looked t s a e =
      let made = register db pw (first_admin email password) salt looked looked t in
      let (empty, answered) : (ltb 0 (count counted) ≡ false)
          × (auth_answer db pw made ≡ (s, ok a)) =
        ground arith in
      let (u, (same, shown)) = auth_answer-ok made s a answered in (ground arith, u, (same, shown))

  -- A setup that creates a user counted none when it began; the user is an administrator and one user
  -- more, so that no setup is required any more; and every setup that counts the users when they are
  -- no fewer is refused and leaves the table as it is. What other calls do between its three queries
  -- is open.
  pub create_first_admin_once :
      (email password salt : String) (counted looked t s : Table) (a : AuthUser)
      → create_first_admin db pw email password salt counted looked t ≡ (s, ok a)
      → (count counted ≡ 0)
        × (a.role ≡ admin)
        × (count s ≡ suc (count t))
        × (setup_required db pw s ≡ false)
        × ((later_email later_password later_salt : String) (later later_looked now : Table)
            → count s ≤ count later
            → create_first_admin db pw later_email later_password later_salt later later_looked now
              ≡ (now, thrown (conflict "DockSight has already been set up")))
  unfolding register setup_required has_any_user
  create_first_admin_once email password salt counted looked t s a e =
      let (empty, u, (made, shown)) =
        create_first_admin-ok email password salt counted looked t s a e in
      let (_, _, w, (safe, (_, (role, (_, (_, (_, more))))))) =
        register_checked-ok (normalize_email pw (some email)) password none (some admin) salt looked
          looked t s u made in
      (
        empty,
        ap (λ b. b.role) shown ∙ (ap (λ v. v.role) safe ∙ role),
        more,
        ground (arith, more),
        λ email' password' salt' later looked' now h.
            create_first_admin_refused email' password' salt' later looked' now
              (omega (arith, more, h)),
      )

  -- The first administrator can log in with the email and password of the setup.
  pub login_after_create_first_admin :
      (email password salt : String) (counted looked t s : Table) (a : AuthUser)
      → create_first_admin db pw email password salt counted looked t ≡ (s, ok a)
      → (u : SafeUser) × ((validate_credentials db pw (some email) (some password) s ≡ some u)
          × (a ≡ to_auth_user u)
          × (8 ≤ units password))
  unfolding register
  login_after_create_first_admin email password salt counted looked t s a e =
      let (_, u, (made, shown)) =
        create_first_admin-ok email password salt counted looked t s a e in
      let (_, long, _, _) =
        register_checked-ok (normalize_email pw (some email)) password none (some admin) salt looked
          looked t s u made in
      (
        u,
        (
          (login_after_register (first_admin email password) salt looked looked t s u made).0,
          shown,
          long,
        ),
      )
