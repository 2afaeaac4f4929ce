-- ===== src/Web/Api.antt =====
-- apps/web/src/services/api.ts: what `request` makes of an answer of the server. The request itself is
-- `fetch`, so its answer is an input; a body is JSON, and String(x) of a value is a parameter.
use docksight.Base.{
  ℕ, String, Bool, false, ◌&&◌, Option, none, some, List, [], ◌∷◌, leb, eqb, ◌==◌, is_some, map,
  if◌then◌else◌,
}
use docksight.Text.{concat}
use docksight.Json.{Json, null, str, arr, obj, items, prop, filled}

pub record ApiError (Num : Type 0) : Type 0 where
  pub message : String
  pub status : ℕ
  pub body : Json Num

-- messages.join(', ')
abbrev pub comma_joined : List String → String
comma_joined [] = ""
comma_joined (s ∷ []) = s
comma_joined (s ∷ t ∷ ts) = concat s (concat ", " (comma_joined (t ∷ ts)))

-- The texts that the program makes of numbers and of JSON values.
pub record Texts (Num : Type 0) : Type 0 where
  pub of_number : ℕ → String
  pub of_value : Json Num → String

module _ {Num : Type 0} (texts : Texts Num) where
  open texts use {of_number, of_value}

  abbrev default_message : ℕ → String
  default_message status = concat "Request failed with status " (of_number status)

  abbrev message_field : Option (Json Num) → ℕ → String
  message_field (some (str message)) status = message
  message_field (some (arr vs)) status = comma_joined (map of_value (items vs))
  message_field _ status = default_message status

  unfoldable pub extract_error_message : Json Num → ℕ → String
  extract_error_message (obj fs) status = message_field (prop "message" fs) status
  extract_error_message _ status = default_message status

-- How `fetch` ends: with an error, or with a response that has a status and a body, of the expected
-- type where the response is ok.
pub data Reply (Num A : Type 0) : Type 0 where
  unreachable : (message : String) → Reply Num A
  refused : (status : ℕ) → (body : Json Num) → Reply Num A
  accepted : A → Reply Num A

-- What a call returns to its caller.
pub data Answer (Num A : Type 0) : Type 0 where
  returned : A → Answer Num A
  raised : ApiError Num → Answer Num A

-- `response.ok`
abbrev pub is_ok : ℕ → Bool
is_ok status = leb 200 status && leb status 299

module _ {Num A : Type 0} (texts : Texts Num) where
  unfoldable pub answer : Reply Num A → Answer Num A
  unfolding extract_error_message
  answer (unreachable message) = raised (record { message = message; status = 0; body = null })
  answer (refused status body) =
      raised
        (record { message = extract_error_message texts body status; status = status; body = body })
  answer (accepted a) = returned a

module _ {Num A : Type 0} where
  -- Whether the token of the call is dropped.
  unfoldable pub drops_token : Option String → Reply Num A → Bool
  drops_token token (refused status body) = eqb status 401 && is_some (filled token)
  drops_token token _ = false

module _ {Num : Type 0} (parse : String → Option (Json Num)) where
  -- parseBody
  unfoldable pub parse_body : String → Json Num
  parse_body text =
      if text == "" then null else elim (parse text) [ some value ↦ value | none ↦ str text ]

  -- The answer that a response with this status and this text is.
  abbrev pub reply_of : ℕ → String → Reply Num (Json Num)
  reply_of status text =
      if is_ok status then accepted (parse_body text) else refused status (parse_body text)

abbrev bearer_of : Option String → Option String
bearer_of none = none
bearer_of (some token) = some (concat "Bearer " token)

-- The `Authorization` header of a call that read this token.
unfoldable pub authorization_header : Option String → Option String
authorization_header token = bearer_of (filled token)
