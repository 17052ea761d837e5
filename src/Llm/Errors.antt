-- ===== src/Llm/Errors.antt =====
-- internal/llm/errors.go, and the errors that internal/llm makes.
use agent_claw.Base.{
  ℕ, String, Bool, false, ◌&&◌, List, [], ◌∷◌, Option, none, some, leb, ltb, len, slice, ◌⧺◌,
  if◌then◌else◌, contains, to_lower, itoa,
}

-- `httpStatusError`.
pub record HttpStatusError : Type 0 where
  pub status_code : ℕ
  pub provider : String
  pub body : String

-- A Go error: an `httpStatusError`, the text of `fmt.Errorf` without an error inside, or with one
-- that `%w` wraps behind a text and a colon.
pub data Error : Type 0 where
  http_status : HttpStatusError → Error
  text : String → Error
  wrap : String → Error → Error

-- `errors.As` with a target of type `*httpStatusError`.
as_http : Error → Option HttpStatusError
as_http (http_status e) = some e
as_http (text s) = none
as_http (wrap s e) = as_http e

-- `isPermanentError`.
unfoldable pub is_permanent_error : Error → Bool
unfolding as_http
is_permanent_error err = elim (as_http err) [
  | none ↦ false
  | some e ↦ leb 400 e.status_code && ltb e.status_code 500
]

-- The keywords of `sanitizeErrorBody`.
abbrev pub keywords : List String
keywords = "key" ∷ "token" ∷ "secret" ∷ "authorization" ∷ "password" ∷ "credential" ∷ []

-- The loop of `sanitizeErrorBody`.
redact : List String → String → String → String
redact [] lower body = body
redact (keyword ∷ rest) lower body =
    let go = redact rest lower body in
    if contains lower keyword then "[redacted — error body contained '" ⧺ keyword ⧺ "']" else go

-- `sanitizeErrorBody`.
unfoldable pub sanitize_error_body : String → String
unfolding redact
sanitize_error_body body = redact keywords (to_lower body) body

-- `Error()`.
unfoldable pub error_text : Error → String
error_text (http_status e) =
    e.provider ⧺ " " ⧺ itoa e.status_code ⧺ ": " ⧺ sanitize_error_body e.body
error_text (text s) = s
error_text (wrap s e) = s ⧺ ": " ⧺ error_text e

-- `truncateErrorBody`; a character that the cut would split is left out.
unfoldable pub truncate_error_body : String → String
truncate_error_body raw = if leb (len raw) 200 then raw else slice raw 0 200 ⧺ "...(truncated)"
