-- ===== src/FileValidation/Tests.antt =====
-- Runs of the pipe, and its theorem at a concrete file.
use talent_flow_ai_backend.Prelude.{String, some, [], ◌∷◌, ◌≡◌, refl, ◌↔◌}
use talent_flow_ai_backend.Async.{ok, err, bad_request}
use talent_flow_ai_backend.Texts.{split, last}
use talent_flow_ai_backend.FileValidation.{
  File, has_signature, is_empty, extension_of_name, transform, IsAccepted, transform-ok_iff,
}

unfoldable run : Unit {0}
unfolding transform extension_of_name has_signature is_empty split last
run = tt

abbrev same_text : String → String
same_text s = s

abbrev resume : File
resume = record {
  mimetype = "application/pdf";
  original_name = "my.resume.pdf";
  size = 1024;
  buffer = 37 ∷ 80 ∷ 68 ∷ 70 ∷ 45 ∷ 49 ∷ [];
}

resume_passes : transform same_text (some resume) ≡ ok resume
unfolding run
resume_passes = refl

fake_fails :
    transform same_text (some (record resume { buffer = 110 ∷ 111 ∷ [] }))
    ≡ err (bad_request "Invalid PDF file signature")
unfolding run
fake_fails = refl

large_fails :
    transform same_text (some (record resume { size = 10485761 }))
    ≡ err (bad_request "File size exceeds 10MB limit")
unfolding run
large_fails = refl

transform-ok_iff_example :
    (transform same_text (some resume) ≡ ok resume)
    ↔ ((some resume ≡ some resume) × IsAccepted same_text resume)
transform-ok_iff_example = transform-ok_iff same_text (some resume) resume
