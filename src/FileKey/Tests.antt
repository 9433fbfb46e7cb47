-- ===== src/FileKey/Tests.antt =====
-- Keys of uploaded files.
use talent_flow_ai_backend.Prelude.{◌≡◌, refl}
use talent_flow_ai_backend.FileKey.{generate_cv_file_key, extension_of, lowered}
use talent_flow_ai_backend.Texts.{split, last}
use talent_flow_ai_backend.FileKey.Key.{IsSafeKey, generate_cv_file_key-IsSafeKey}

keys :
    (generate_cv_file_key (λ s. s) "id" "cv.final.docx" ≡ "cvs/id.docx")
    × (generate_cv_file_key (λ s. s) "id" "../../etc/passwd" ≡ "cvs/id.pdf")
    × (generate_cv_file_key (λ s. s) "id" "docx" ≡ "cvs/id.pdf")
unfolding generate_cv_file_key extension_of split last lowered
keys = (refl, refl, refl)

generate_cv_file_key-IsSafeKey_example :
    IsSafeKey (λ s. s) "id" "cv.docx" (generate_cv_file_key (λ s. s) "id" "cv.docx")
generate_cv_file_key-IsSafeKey_example = generate_cv_file_key-IsSafeKey (λ s. s) "id" "cv.docx"
