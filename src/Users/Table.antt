-- ===== src/Users/Table.antt =====
-- Prisma's client for the `users` table and bcrypt, with what they document. Neither is part of the
-- repository.
use docksight.Base.{ℕ, suc, String, Bool, true, ◌≡◌, ◌≢◌, Option, some}

-- enum UserRole
pub data UserRole : Type 0 where
  admin viewer : UserRole

-- model User
pub record User : Type 0 where
  pub id : String
  pub username : Option String
  pub email : String
  pub password_hash : String
  pub role : UserRole
  pub created_at : ℕ
  pub updated_at : ℕ

-- The `data` of the one `create`.
pub record UserData : Type 0 where
  pub email : String
  pub username : Option String
  pub password_hash : String
  pub role : UserRole

pub data UserKey : Type 0 where
  by_id by_email by_username : String → UserKey

-- A new row, error P2002 (a unique key is taken), or any other error.
pub data Created (T : Type 0) : Type 0 where
  row : T → User → Created T
  taken : Created T
  broken : String → Created T

pub record UserTable : Type 1 where
  pub Table : Type 0
  pub find_unique : UserKey → Table → Option User
  pub count : Table → ℕ
  pub create : UserData → Table → Created Table
  -- a new row has the data, is found by its email, and is one more
  pub create_row :
      (d : UserData) (t : Table) {s : Table} {u : User}
      → create d t ≡ row s u
      → (u.email ≡ d.email)
        × (u.password_hash ≡ d.password_hash)
        × (u.role ≡ d.role)
        × (find_unique (by_email d.email) s ≡ some u)
        × (count s ≡ suc (count t))

-- bcrypt, and the language's `toLowerCase`. `compare` is `none` where it throws.
pub record Passwords : Type 0 where
  pub hash : (salt password : String) → String
  pub compare : (password hash : String) → Option Bool
  pub lower : String → String
  -- a hash is not empty and is that of its password
  pub hash_filled : (salt password : String) → hash salt password ≢ ""
  pub compare_hash : (salt password : String) → compare password (hash salt password) ≡ some true
