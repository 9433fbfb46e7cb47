-- ===== src/Http/Tests.antt =====
-- The theorems on the exception filter and the interceptor at requests.
use talent_flow_ai_backend.Prelude.{
  ℕ, String, Option, some, none, refl, false, ◌≡◌, if◌then◌else◌, nat_eq, Bool,
}
use talent_flow_ai_backend.Json.{
  Items, Fields, undefined, string, number, array, object, no_fields, field, property,
}
use talent_flow_ai_backend.Sanitize.{is_sensitive, includes, sanitize}
use talent_flow_ai_backend.Sanitize.Clean.{IsClean}
use talent_flow_ai_backend.Http.Filter.{http_exception, error, other, Context, catch, error_payload}
use talent_flow_ai_backend.Http.Disclosure.{catch-IsUnexpected, catch-IsClean}
use talent_flow_ai_backend.Http.Interceptor.{intercept, has_property, without_property}

abbrev names : ℕ → Option String
names status = if is_bad_request status then some "BAD_REQUEST" else none
  where
    is_bad_request : ℕ → Bool
    is_bad_request n = nat_eq n 400

abbrev same : String → String
same s = s

abbrev live : Context
live = record {
  node_env = some "production";
  request_header = undefined;
  response_header = string "r-1";
  now = "2026-01-01T00:00:00.000Z";
}

abbrev refused_body : Fields
refused_body =
    field "message" (array (Items.◌∷◌ (string "email must be an email") Items.[]))
      (field "error" (string "Bad Request") no_fields)

refused_payload :
    (catch names same live (http_exception 400 (object refused_body))).error ≡ string "Bad Request"
unfolding catch error_payload sanitize is_sensitive includes property
refused_payload = refl

unexpected_payload :
    (catch names same live (error "connect ECONNREFUSED 10.0.0.7")).message
    ≡ string "Internal server error"
unfolding catch error_payload property
unexpected_payload = refl

catch-IsUnexpected_example :
    catch names same live (error "connect ECONNREFUSED 10.0.0.7")
    ≡ catch names same live (other "timeout")
catch-IsUnexpected_example =
    catch-IsUnexpected names same live (error "connect ECONNREFUSED 10.0.0.7") (other "timeout")
      refl tt tt

catch-IsClean_example :
    IsClean same (catch names same live (http_exception 400 (object refused_body))).error
    × IsClean same (catch names same live (http_exception 400 (object refused_body))).message
    × IsClean same (catch names same live (http_exception 400 (object refused_body))).details
catch-IsClean_example = catch-IsClean names same live (http_exception 400 (object refused_body))

message-plain : is_sensitive same "message" ≡ false
unfolding is_sensitive includes
message-plain = refl

refused_message :
    property "message" refused_body ≡ array (Items.◌∷◌ (string "email must be an email") Items.[])
unfolding property
refused_message = refl

abbrev changed : Fields
changed = field "message" (string "Updated") (field "id" (number 7) no_fields)

changed_answer :
    (intercept 200 "now" (object changed)).body ≡ object (field "id" (number 7) no_fields)
unfolding intercept has_property without_property
changed_answer = refl
