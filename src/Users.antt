-- ===== src/Users.antt =====
-- apps/server/src/users/users.service.ts and password.util.ts, and
-- apps/server/src/setup/setup.service.ts, over the `users` table of
-- apps/server/prisma/schema.prisma. A function that awaits the table more than once is given the table
-- as it was at each of these times: other calls may come in between.
pub mod Table
pub mod Race
pub mod Laws
use docksight.Base.{
  ℕ, String, Bool, true, false, ◌||◌, Option, none, some, or_else, ltb, ◌==◌, if◌then◌else◌,
}
use docksight.Json.{filled}
use docksight.Text.{trim, units, is_blank}
use docksight.Http.{bad_request, conflict, internal, Response, ok, thrown}
pub use Table.{
  UserRole, admin, viewer, User, UserData, UserKey, by_id, by_email, by_username, Created, row,
  taken, broken, UserTable, Passwords,
}

pub record RegisterUserInput : Type 0 where
  pub email : Option String
  pub password : Option String
  pub username : Option String
  pub role : Option UserRole

-- A user without the password's hash.
pub record SafeUser : Type 0 where
  pub id : String
  pub username : Option String
  pub email : String
  pub role : UserRole
  pub created_at : ℕ
  pub updated_at : ℕ

abbrev pub to_safe_user : User → SafeUser
to_safe_user u = record {
  id = u.id;
  username = u.username;
  email = u.email;
  role = u.role;
  created_at = u.created_at;
  updated_at = u.updated_at;
}

abbrev pub safe_or_null : Option User → Option SafeUser
safe_or_null none = none
safe_or_null (some u) = some (to_safe_user u)

-- The user shape that clients are given.
pub record AuthUser : Type 0 where
  pub id : String
  pub email : String
  pub role : UserRole

abbrev pub to_auth_user : SafeUser → AuthUser
to_auth_user u = record { id = u.id; email = u.email; role = u.role }

abbrev pub trimmed : Option String → Option String
trimmed none = none
trimmed (some s) = filled (some (trim s))

-- `username !== null && username.length < 3`
abbrev pub too_short : Option String → Bool
too_short none = false
too_short (some s) = ltb (units s) 3

module _ (pw : Passwords) where
  -- What `verifyPassword` makes of bcrypt's comparison.
  abbrev compared : Option Bool → Bool
  compared none = false
  compared (some same) = same

  unfoldable pub verify_password : String → String → Bool
  verify_password password hash =
      if password == "" || hash == "" then false else compared (pw.compare password hash)

  unfoldable pub normalize_email : Option String → String
  normalize_email none = pw.lower (trim "")
  normalize_email (some email) = pw.lower (trim email)

module _ (db : UserTable) (pw : Passwords) where
  open db use {Table, find_unique, count, create}

  abbrev is_taken : Option User → Bool
  is_taken none = false
  is_taken (some u) = true

  abbrev username_taken : Option String → Table → Bool
  username_taken none t = false
  username_taken (some name) t = is_taken (find_unique (by_username name) t)

  abbrev created_answer : Created Table → Table → Table × Response SafeUser
  created_answer (row s u) t = (s, ok (to_safe_user u))
  created_answer taken t = (t, thrown (conflict "That email or username is already registered"))
  created_answer (broken error) t = (t, thrown (internal error))

  -- `register` after the input was normalised. The two lookups of `Promise.all` come back at `mail`
  -- and at `name`, and the row is created at `t`.
  abbrev pub register_checked :
      String
      → String
      → Option String
      → Option UserRole
      → (salt : String) → (mail name t : Table) → Table × Response SafeUser
  register_checked email password username role salt mail name t =
      if email == ""
      then (t, thrown (bad_request "Email is required"))
      else if ltb (units password) 8
      then (t, thrown (bad_request "Password must be at least 8 characters"))
      else if too_short username
      then (t, thrown (bad_request "Username must be at least 3 characters"))
      else if is_taken (find_unique (by_email email) mail)
      then (t, thrown (conflict "Email is already registered"))
      else if username_taken username name
      then (t, thrown (conflict "Username is already taken"))
      else created_answer
          (create
            (record {
              email = email;
              username = username;
              password_hash = pw.hash salt password;
              role = or_else role viewer;
            })
            t)
          t

  unfoldable pub register :
      RegisterUserInput → (salt : String) → (mail name t : Table) → Table × Response SafeUser
  register input salt mail name t =
      register_checked (normalize_email pw input.email) (or_else input.password "")
        (trimmed input.username) input.role salt mail name t

  abbrev find_if_filled : String → Table → Option User
  find_if_filled email t = if email == "" then none else find_unique (by_email email) t

  unfoldable pub find_by_email_with_secret : Option String → Table → Option User
  find_by_email_with_secret email t = find_if_filled (normalize_email pw email) t

  unfoldable pub find_by_email : Option String → Table → Option SafeUser
  find_by_email email t = safe_or_null (find_by_email_with_secret email t)

  unfoldable pub find_by_id : String → Table → Option SafeUser
  find_by_id id t = if is_blank id then none else safe_or_null (find_unique (by_id id) t)

  abbrev find_name : Option String → Table → Option SafeUser
  find_name none t = none
  find_name (some name) t = safe_or_null (find_unique (by_username name) t)

  unfoldable pub find_by_username : Option String → Table → Option SafeUser
  find_by_username username t = find_name (trimmed username) t

  abbrev checked_user : Option User → String → Option SafeUser
  checked_user none password = none
  checked_user (some u) password =
      if verify_password pw password u.password_hash then some (to_safe_user u) else none

  -- The comparison with a dummy hash for a missing user only takes time.
  unfoldable pub validate_credentials : Option String → Option String → Table → Option SafeUser
  validate_credentials email password t =
      checked_user (find_by_email_with_secret email t) (or_else password "")

  unfoldable pub has_any_user : Table → Bool
  has_any_user t = ltb 0 (count t)

  -- getStatus of the setup: whether the first administrator is still missing.
  unfoldable pub setup_required : Table → Bool
  setup_required t = if has_any_user t then false else true

  abbrev auth_answer : Table × Response SafeUser → Table × Response AuthUser
  auth_answer (t, ok u) = (t, ok (to_auth_user u))
  auth_answer (t, thrown e) = (t, thrown e)

  -- The role is fixed, and there is no username, so that no lookup for one is made. The users are
  -- counted at `counted`, the email is looked up at `looked`, and after the hash is there the row is
  -- created at `t`.
  unfoldable pub create_first_admin :
      (email password salt : String) → (counted looked t : Table) → Table × Response AuthUser
  create_first_admin email password salt counted looked t =
      if has_any_user counted
      then (t, thrown (conflict "DockSight has already been set up"))
      else auth_answer (
          register
            (record {
              email = some email;
              password = some password;
              username = none;
              role = some admin;
            })
            salt looked looked t)
