-- ===== src/Tests/Users.antt =====
-- The first administrator, a login, and a request with a token.
use docksight.Base.{
  ℕ, suc, String, Bool, true, false, ◌≡◌, refl, ◌≢◌, ◌≤◌, arith, [], ◌∷◌, Option, none, some, ◌==◌,
  if◌then◌else◌, eq_refl, subst,
}
use docksight.Http.{conflict, ok, thrown}
use docksight.Text.{concat, trim, units, includes}
use docksight.Users.{
  admin, viewer, User, UserData, UserKey, by_id, by_email, by_username, Created, row, UserTable,
  Passwords, RegisterUserInput, SafeUser, AuthUser, register, setup_required, create_first_admin,
  normalize_email, has_any_user,
}
use docksight.Users.Laws.{create_first_admin_once}
use docksight.Users.Race.{admin_data, Accepted, setups_race}
use docksight.Auth.{
  JwtService, RequestWithUser, extract_token, authenticate, authorize, from_authorization_header,
  on_logs,
}

-- A table that answers each key with its newest row.
pub record Accounts : Type 0 where
  pub find : UserKey → Option User
  pub size : ℕ

abbrev pub key_of : User → UserKey → Bool
key_of u (by_id i) = u.id == i
key_of u (by_email e) = u.email == e
key_of u (by_username n) = false

abbrev pub account : UserData → User
account d = record {
  id = "a1";
  username = d.username;
  email = d.email;
  password_hash = d.password_hash;
  role = d.role;
  created_at = 1;
  updated_at = 1;
}

abbrev pub add_account : UserData → Accounts → Accounts
add_account d t = record {
  find = λ k. if key_of (account d) k then some (account d) else t.find k;
  size = suc t.size;
}

abbrev pub HasRow : UserData → Accounts → Created Accounts → Type 0
HasRow d t (row s u) =
    (u.email ≡ d.email)
    × (u.password_hash ≡ d.password_hash)
    × (u.role ≡ d.role)
    × (s.find (by_email d.email) ≡ some u)
    × (s.size ≡ suc t.size)
HasRow d t _ = Unit

pub add_account-HasRow :
    (d : UserData) (t : Accounts) → HasRow d t (row (add_account d t) (account d))
add_account-HasRow d t = (refl, refl, refl, rw (eq_refl d.email) refl, refl)

abbrev pub accounts : UserTable
accounts = record {
  Table = Accounts;
  find_unique = λ k t. t.find k;
  count = λ t. t.size;
  create = λ d t. row (add_account d t) (account d);
  create_row = λ d t e. subst (HasRow d t) e (add_account-HasRow d t);
}

pub h_not_empty : (password : String) → concat "h" password ≢ ""
h_not_empty password e = cc

abbrev pub passwords : Passwords
passwords = record {
  hash = λ salt password. concat "h" password;
  compare = λ password hash. some (concat "h" password == hash);
  lower = λ s. s;
  hash_filled = λ salt password. h_not_empty password;
  compare_hash = λ salt password. rw (eq_refl (concat "h" password)) refl;
}

abbrev ada : RegisterUserInput
ada = record { email = some "ada@x.io"; password = some "12345678"; username = none; role = none }

abbrev pub no_accounts : Accounts
no_accounts = record { find = λ k. none; size = 0 }

abbrev ada_data : UserData
ada_data = record {
  email = "ada@x.io";
  username = none;
  password_hash = "h12345678";
  role = viewer;
}

abbrev ada_user : SafeUser
ada_user = record {
  id = "a1";
  username = none;
  email = "ada@x.io";
  role = viewer;
  created_at = 1;
  updated_at = 1;
}

ada-register :
    register accounts passwords ada "salt" no_accounts no_accounts no_accounts
    ≡ (add_account ada_data no_accounts, ok ada_user)
unfolding register normalize_email trim units
ada-register = refl

abbrev pub root_data : UserData
root_data = record ada_data { role = admin }

abbrev pub root : AuthUser
root = record { id = "a1"; email = "ada@x.io"; role = admin }

pub root-create_first_admin :
    create_first_admin accounts passwords "ada@x.io" "12345678" "salt" no_accounts no_accounts
      no_accounts
    ≡ (add_account root_data no_accounts, ok root)
unfolding create_first_admin has_any_user register normalize_email trim units
root-create_first_admin = refl

create_first_admin_once_example :
    (no_accounts.size ≡ 0)
    × (admin ≡ admin)
    × (suc no_accounts.size ≡ 1)
    × (setup_required accounts passwords (add_account root_data no_accounts) ≡ false)
    × ((email password salt : String) (later looked now : Accounts)
        → 1 ≤ later.size
        → create_first_admin accounts passwords email password salt later looked now
          ≡ (now, thrown (conflict "DockSight has already been set up")))
create_first_admin_once_example =
    create_first_admin_once accounts passwords "ada@x.io" "12345678" "salt" no_accounts no_accounts
      no_accounts (add_account root_data no_accounts) root root-create_first_admin

abbrev eve_data : UserData
eve_data = record root_data { email = "eve@x.io"; password_hash = "h87654321" }

ada-Accepted : Accepted accounts passwords "ada@x.io" "12345678" no_accounts
unfolding normalize_email trim units
ada-Accepted = (λ e. cc e, ground arith, refl)

eve-Accepted : Accepted accounts passwords "eve@x.io" "87654321" no_accounts
unfolding normalize_email trim units
eve-Accepted = (λ e. cc e, ground arith, refl)

ada_created :
    accounts.create (admin_data accounts passwords "ada@x.io" "12345678" "salt") no_accounts
    ≡ row (add_account root_data no_accounts) (account root_data)
unfolding normalize_email trim
ada_created = refl

eve_created :
    accounts.create
      (admin_data accounts passwords "eve@x.io" "87654321" "salt")
      (add_account root_data no_accounts)
    ≡ row (add_account eve_data (add_account root_data no_accounts)) (account eve_data)
unfolding normalize_email trim
eve_created = refl

setups_race_example :
    (a : AuthUser) × ((b : AuthUser) × ((create_first_admin accounts passwords "ada@x.io" "12345678"
            "salt" no_accounts no_accounts no_accounts
          ≡ (add_account root_data no_accounts, ok a))
        × (create_first_admin accounts passwords "eve@x.io" "87654321" "salt" no_accounts
              no_accounts
              (add_account root_data no_accounts)
            ≡ (add_account eve_data (add_account root_data no_accounts), ok b))
        × (a.role ≡ admin)
        × (b.role ≡ admin)
        × (suc (suc no_accounts.size) ≡ 2)))
setups_race_example =
    setups_race accounts passwords "ada@x.io" "12345678" "salt" "eve@x.io" "87654321" "salt"
      no_accounts (add_account root_data no_accounts)
      (add_account eve_data (add_account root_data no_accounts)) (account root_data)
      (account eve_data) refl ada-Accepted eve-Accepted ada_created eve_created

-- One token is good, and it is the administrator's.
abbrev tokens : JwtService
tokens = record {
  sign = λ p. "t1";
  verify =
      λ token. if token == "t1" then some (record { sub = some "a1"; role = some admin }) else none;
}

abbrev request : RequestWithUser
request = record {
  user = none;
  authorization = some "bearer t1";
  url = some "/hosts";
  access_token = none;
}

abbrev seen : RequestWithUser
seen = record request { user = some (record { id = "a1"; role = admin }) }

seen-authenticate : authenticate passwords tokens true false request ≡ ok seen
unfolding authenticate extract_token from_authorization_header trim
seen-authenticate = refl

seen-authorize : authorize true (admin ∷ []) seen ≡ ok tt
unfolding authorize
seen-authorize = refl

abbrev bare : RequestWithUser
bare = record request { authorization = none; access_token = some "t1" }

bare-header : from_authorization_header passwords bare ≡ none
unfolding from_authorization_header
bare-header = refl

bare-on_logs : on_logs bare.url ≡ false
unfolding includes
bare-on_logs = refl
