-- ===== src/Server/Dto.antt =====
-- The DTO classes of apps/server/src: auth/dto/login.dto.ts, setup/dto/create-admin.dto.ts,
-- hosts/dto/update-host.dto.ts, and the two of containers/containers.controller.ts. The checks of
-- class-validator are a parameter.
use docksight.Base.{
  ℕ, String, Bool, true, false, ◌≡◌, ◌≢◌, ◌≤◌, ◌&&◌, ◌||◌, Option, none, some, if◌then◌else◌,
}
use docksight.Json.{Json, null, bool, str, obj, prop, as_text}
use docksight.Text.{trim, units}
use docksight.Http.{HttpException}

-- class-validator's checks of a property, where `none` is `undefined`, and what the ValidationPipe
-- throws for a body that fails one of them.
pub record Validators (Num : Type 0) : Type 0 where
  pub is_string : Option (Json Num) → Bool
  pub is_not_empty : Option (Json Num) → Bool
  pub is_boolean : Option (Json Num) → Bool
  pub is_email : Option (Json Num) → Bool
  pub min_length : ℕ → Option (Json Num) → Bool
  pub max_length : ℕ → Option (Json Num) → Bool
  pub refusal : HttpException
  -- a text is a string, one that is not "" is not empty, and `MaxLength` accepts what is
  -- short enough; true and false are Booleans
  pub is_string_text : (s : String) → is_string (some (str s)) ≡ true
  pub is_not_empty_text : (s : String) → s ≢ "" → is_not_empty (some (str s)) ≡ true
  pub max_length_text : (n : ℕ) (s : String) → units s ≤ n → max_length n (some (str s)) ≡ true
  pub is_boolean_bool : (b : Bool) → is_boolean (some (bool b)) ≡ true

pub record Credentials : Type 0 where
  pub email : String
  pub password : String

pub record ContainerRemoveBody : Type 0 where
  pub host_id : String
  pub force : Bool

abbrev credentials : Option String → Option String → Option Credentials
credentials (some email) (some password) = some (record { email = email; password = password })
credentials _ _ = none

abbrev remove_with : Option String → Bool → Option ContainerRemoveBody
remove_with none force = none
remove_with (some host_id) force = some (record { host_id = host_id; force = force })

module _ {Num : Type 0} where
  -- `body.key` of the parsed body.
  abbrev pub body_prop : String → Json Num → Option (Json Num)
  body_prop key (obj fs) = prop key fs
  body_prop key _ = none

  -- Where a check has failed the handler is not called.
  abbrev pub text_if : Bool → Option (Json Num) → Option String
  text_if passed v = if passed then as_text v else none

  -- `body.force`, by default false; the null that `IsOptional` lets through is no force either.
  abbrev force_of : Option (Json Num) → Bool
  force_of (some (bool force)) = force
  force_of _ = false

  -- What `IsOptional` skips.
  abbrev is_absent : Option (Json Num) → Bool
  is_absent none = true
  is_absent (some null) = true
  is_absent _ = false

  -- The `Transform` of UpdateHostDto.
  abbrev pub trimmed_value : Option (Json Num) → Option (Json Num)
  trimmed_value (some (str s)) = some (str (trim s))
  trimmed_value v = v

module _ {Num : Type 0} (v : Validators Num) where
  -- LoginDto
  unfoldable pub login_dto : Json Num → Option Credentials
  login_dto body =
      let email = body_prop "email" body in
      let password = body_prop "password" body in
      credentials (text_if (v.is_email email) email)
        (text_if (v.is_string password && v.is_not_empty password) password)

  -- CreateAdminDto
  unfoldable pub create_admin_dto : Json Num → Option Credentials
  create_admin_dto body =
      let email = body_prop "email" body in
      let password = body_prop "password" body in
      credentials (text_if (v.is_email email) email)
        (text_if (v.is_string password && v.min_length 8 password) password)

  abbrev required_text : Option (Json Num) → Option String
  required_text value = text_if (v.is_string value && v.is_not_empty value) value

  -- ContainerActionBodyDto
  unfoldable pub container_action_dto : Json Num → Option String
  container_action_dto body = required_text (body_prop "hostId" body)

  -- ContainerRemoveBodyDto
  unfoldable pub container_remove_dto : Json Num → Option ContainerRemoveBody
  unfolding container_action_dto
  container_remove_dto body =
      let force = body_prop "force" body in
      if is_absent force || v.is_boolean force
      then remove_with (container_action_dto body) (force_of force)
      else none

  -- UpdateHostDto, whose transformation comes before its checks.
  unfoldable pub update_host_dto : Json Num → Option String
  update_host_dto body =
      let name = trimmed_value (body_prop "displayName" body) in
      text_if (v.is_string name && v.is_not_empty name && v.max_length 64 name) name
