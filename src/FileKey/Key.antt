-- ===== src/FileKey/Key.antt =====
-- What a key of an uploaded file looks like, whatever the client called the file.
use Prim.Native.String
use talent_flow_ai_backend.Prelude.{String, ◌≡◌, refl, ◌⊎◌, ◌↔◌, inl, inr, arith, eq_iff}
use talent_flow_ai_backend.FileKey.{
  allowed_or_pdf, extension_of, safe_extension, generate_cv_file_key,
}
use talent_flow_ai_backend.FileKey.Extension.{IsStemDot, extension_of-some, extension_of-of}

-- The name ends in a dot and the extension, in any case.
abbrev pub HasExtension : (lower : String → String) (name e : String) → Type 0
HasExtension lower name e = (stem ext : String) × IsStemDot name stem ext × (lower ext ≡ e)

abbrev pub IsSafeKey : (lower : String → String) (uuid original_name key : String) → Type 0
IsSafeKey lower uuid name key =
    (e : String) × (key ≡ String.◌++◌ "cvs/" (String.◌++◌ uuid (String.◌++◌ "." e)))
    × ((e ≡ "pdf") ⊎ (e ≡ "docx"))
    × ((e ≡ "docx") ↔ HasExtension lower name "docx")

allowed_or_pdf-cases :
    (e : String)
    → ((allowed_or_pdf e ≡ "pdf") ⊎ (allowed_or_pdf e ≡ "docx"))
      × ((allowed_or_pdf e ≡ "docx") ↔ (e ≡ "docx"))
unfolding allowed_or_pdf
allowed_or_pdf-cases e = (
  ground (arith, eq_iff e "pdf", eq_iff e "docx"),
  (λ h. ground (arith, eq_iff e "docx", eq_iff e "pdf", eq_iff "pdf" "docx"), λ h. rw h),
)

-- The key is `cvs/<uuid>.<e>`, where `e` is "pdf" or "docx", whatever name the client sent, and it
-- is "docx" exactly if the name is a text, a dot and a text without a dot that is "docx" in lower
-- case.
pub generate_cv_file_key-IsSafeKey :
    (lower : String → String) (uuid original_name : String)
    → IsSafeKey lower uuid original_name (generate_cv_file_key lower uuid original_name)
unfolding generate_cv_file_key safe_extension
generate_cv_file_key-IsSafeKey lower uuid name =
    let (either, exact) = allowed_or_pdf-cases (extension_of lower name) in
    (
      safe_extension lower name,
      refl,
      either,
      (
        λ h. elim (extension_of-some lower name "docx" (exact.0 h)) [
          | inl e ↦ absurd (ground (arith, e, eq_iff "docx" ""))
          | inr has ↦ has
        ],
        λ (stem, ext, is, low). exact.1 (extension_of-of lower name "docx" stem ext is low),
      ),
    )
