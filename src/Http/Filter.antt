-- ===== src/Http/Filter.antt =====
-- common/filters/http-exception.filter.ts. `status_name` is the enumeration `HttpStatus` of the
-- framework, `lower` is `toLowerCase`.
use talent_flow_ai_backend.Prelude.{
  ℕ, String, Option, some, none, Bool, true, false, ◌==◌, if◌then◌else◌,
}
use talent_flow_ai_backend.Json.{
  Json, undefined, null, string, array, object, no_fields, field, is_object, is_truthy, property,
}
use talent_flow_ai_backend.Sanitize.{sanitize}

-- What a handler throws: an `HttpException` with its `getStatus()` and `getResponse()`, an `Error`
-- with its message, or anything else, as `String(exception)`.
pub data Exception : Type 0 where
  http_exception : (status : ℕ) (response : Json) → Exception
  error : (message : String) → Exception
  other : (shown : String) → Exception

-- The parts of the request and the process that the filter reads: `NODE_ENV`, the header
-- `x-request-id` of the request and of the response, and the time.
pub record Context : Type 0 where
  pub node_env : Option String
  pub request_header : Json
  pub response_header : Json
  pub now : String

pub record ErrorPayload : Type 0 where
  pub status : ℕ
  pub error : Json
  pub message : Json
  pub details : Json
  pub timestamp : String
  pub request_id : Json

-- `a || b`
abbrev pub or : Json → Json → Json
or a b = if is_truthy a then a else b

abbrev pub is_production : Context → Bool
is_production c = is_env c.node_env
  where
    is_env : Option String → Bool
    is_env none = false
    is_env (some env) = env == "production"

-- `value.key`, on an array or an object
abbrev pub property_of : String → Json → Json
property_of key (object fs) = property key fs
property_of key _ = undefined

abbrev pub is_array : Json → Bool
is_array (array xs) = true
is_array _ = false

-- `typeof value === 'object'`
abbrev is_object_type : Json → Bool
is_object_type null = true
is_object_type v = is_object v

abbrev pub status_of : Exception → ℕ
status_of (http_exception status response) = status
status_of _ = 500

module _ (lower : String → String) where
  -- `message`
  abbrev pub message_of : Context → Exception → Json
  message_of c (http_exception status response) =
      if is_object_type response then sanitize lower 0 response else response
  message_of c (Exception.error message) =
      if is_production c
      then string "Internal server error"
      else sanitize lower 0 (object (field "error" (string message) no_fields))
  message_of c (other shown) =
      if is_production c
      then string "Internal server error"
      else sanitize lower 0 (object (field "error" (string shown) no_fields))

-- `errorObj`
abbrev pub error_object : Json → Json
error_object message =
    if is_object message then message else object (field "message" message no_fields)

module _ (status_name : ℕ → Option String) (lower : String → String) where
  -- `HttpStatus[status] || 'Error'`
  abbrev pub name_or_error : ℕ → Json
  name_or_error status = shown (status_name status)
    where
      shown : Option String → Json
      shown none = string "Error"
      shown (some name) = or (string name) (string "Error")

  -- The payload for a message
  unfoldable pub error_payload : Context → ℕ → Json → ErrorPayload
  error_payload c status message =
      let extracted = property_of "message" (error_object message) in
      record {
        status = status;
        error = or (property_of "error" (error_object message)) (name_or_error status);
        message = if is_array extracted then string "Validation failed" else or extracted message;
        details = if is_array extracted then extracted else undefined;
        timestamp = c.now;
        request_id = or c.request_header c.response_header;
      }

  -- `catch`: the payload of the answer, whose status is that of the payload
  unfoldable pub catch : Context → Exception → ErrorPayload
  unfolding error_payload
  catch c e = error_payload c (status_of e) (message_of lower c e)
