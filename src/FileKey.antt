-- ===== src/FileKey.antt =====
-- common/utils/file-key.util.ts. `lower` is `toLowerCase`, `uuid` is what `randomUUID()` returned.
pub mod Extension
pub mod Key
mod Tests
use Prim.Native.String
use talent_flow_ai_backend.Prelude.{
  String, Option, none, some, List, [], ◌∷◌, Bool, true, false, ◌≡◌, refl, ◌||◌, ◌&&◌, not, ◌==◌,
  ◌⊎◌, ◌↔◌, ltb, if◌then◌else◌, length, arith, eq_iff, Bool-cases,
}
use talent_flow_ai_backend.Texts.{split, last}

-- `ALLOWED_EXTENSIONS.has(extension)`
abbrev pub is_allowed_extension : String → Bool
is_allowed_extension e = e == "pdf" || e == "docx"

unfoldable pub lowered : (String → String) → Option String → String
lowered lower none = ""
lowered lower (some e) = lower e

unfoldable pub extension_of : (String → String) → String → String
unfolding split last lowered
extension_of lower original_name =
    let parts = split "." original_name in
    if ltb 1 (length parts) then lowered lower (last parts) else ""

-- `extension && ALLOWED_EXTENSIONS.has(extension) ? extension : 'pdf'`
unfoldable pub allowed_or_pdf : String → String
allowed_or_pdf e = if not (e == "") && is_allowed_extension e then e else "pdf"

unfoldable pub safe_extension : (String → String) → String → String
unfolding allowed_or_pdf
safe_extension lower original_name = allowed_or_pdf (extension_of lower original_name)

unfoldable pub generate_cv_file_key : (String → String) → String → String → String
unfolding safe_extension
generate_cv_file_key lower uuid original_name =
    String.◌++◌ "cvs/" (String.◌++◌ uuid (String.◌++◌ "." (safe_extension lower original_name)))
