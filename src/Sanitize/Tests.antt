-- ===== src/Sanitize/Tests.antt =====
-- Runs of `sanitize`, and the theorems of Sanitize/Clean at them.
use talent_flow_ai_backend.Prelude.{String, ◌==◌, if◌then◌else◌, arith, ◌≡◌, refl, ◌≤◌}
use talent_flow_ai_backend.Json.{Json, Items, string, array, object, no_fields, field}
use talent_flow_ai_backend.Sanitize.{sanitize, is_sensitive, includes}
use talent_flow_ai_backend.Sanitize.Clean.{IsClean, depth_of, sanitize-IsClean}
use talent_flow_ai_backend.Sanitize.Keeps.{sanitize-keeps}

-- Names that are in lower case already
abbrev same : String → String
same s = s

abbrev login_body : Json
login_body = object (
    field "user"
      (object (field "accessToken" (string "abc") (field "name" (string "An") no_fields)))
      (field "password" (string "pw") no_fields))

abbrev plain_body : Json
plain_body =
    object
      (field "name" (string "An") (field "ids" (array (Items.◌∷◌ (string "a") Items.[])) no_fields))

abbrev lower_token : String → String
lower_token s = if s == "accessToken" then "accesstoken" else s

sanitized_login :
    sanitize lower_token 0 login_body
    ≡ object (
        field "user"
          (object
            (field "accessToken" (string "[REDACTED]") (field "name" (string "An") no_fields)))
          (field "password" (string "[REDACTED]") no_fields))
unfolding sanitize is_sensitive includes
sanitized_login = refl

sanitize-IsClean_example : IsClean lower_token (sanitize lower_token 0 login_body)
sanitize-IsClean_example = sanitize-IsClean lower_token login_body

plain_body-IsClean : IsClean same plain_body
unfolding IsClean is_sensitive includes
plain_body-IsClean = (λ h. absurd (ground arith), tt, (λ h. absurd (ground arith), (tt, tt), tt))

plain_body-shallow : depth_of plain_body ≤ 5
unfolding depth_of
plain_body-shallow = omega arith

sanitize-keeps_example : sanitize same 0 plain_body ≡ plain_body
sanitize-keeps_example = sanitize-keeps same plain_body plain_body-IsClean plain_body-shallow
