-- ===== src/FileValidation.antt =====
-- common/pipes/file-validation.pipe.ts. `lower` is `toLowerCase`, a buffer is a list of bytes, and a
-- file that is not there is `none`.
mod Tests
use Prim.Native.String
use talent_flow_ai_backend.Prelude.{
  ℕ, String, Option, none, some, List, [], ◌∷◌, Bool, true, false, ◌≡◌, ◌⊎◌, ◌↔◌, inl, inr, refl,
  not, ◌&&◌, ◌||◌, ◌==◌, ltb, nat_eq, any, if◌then◌else◌, length, arith, eq_iff, Bool-cases, ◌≤◌,
  ◌*◌, ◌++◌, ap,
}
use talent_flow_ai_backend.Texts.{split, last}
use talent_flow_ai_backend.Async.{Result, ok, err, bad_request}

-- Of `Express.Multer.File`, what the pipe reads.
pub record File : Type 0 where
  pub mimetype : String
  pub original_name : String
  pub size : ℕ
  pub buffer : List ℕ

abbrev is_allowed_mime_type : String → Bool
is_allowed_mime_type t =
    t == "application/pdf"
    || t == "application/vnd.openxmlformats-officedocument.wordprocessingml.document"

abbrev is_allowed_extension : String → Bool
is_allowed_extension e = e == "pdf" || e == "docx"

abbrev max_file_size_bytes : ℕ
max_file_size_bytes = 10 * 1024 * 1024

-- `Buffer.from('%PDF-')`
abbrev pub pdf_signature : List ℕ
pdf_signature = 37 ∷ 80 ∷ 68 ∷ 70 ∷ 45 ∷ []

abbrev pub zip_signatures : List (List ℕ)
zip_signatures = (80 ∷ 75 ∷ 3 ∷ 4 ∷ []) ∷ (80 ∷ 75 ∷ 5 ∷ 6 ∷ []) ∷ (80 ∷ 75 ∷ 7 ∷ 8 ∷ []) ∷ []

-- `hasSignature`: the buffer is as long as the signature at least, and has its bytes in front.
unfoldable pub has_signature : List ℕ → List ℕ → Bool
has_signature buffer [] = true
has_signature [] (byte ∷ signature) = false
has_signature (b ∷ buffer) (byte ∷ signature) =
    let rest = has_signature buffer signature in nat_eq b byte && rest

unfoldable pub is_empty : List ℕ → Bool
is_empty [] = true
is_empty (b ∷ bs) = false

-- `validateFileSignature`
validate_file_signature : List ℕ → String → Result {0} Unit
validate_file_signature buffer extension =
    if is_empty buffer
    then err (bad_request "Unable to validate file content")
    else if extension == "pdf" && not (has_signature buffer pdf_signature)
    then err (bad_request "Invalid PDF file signature")
    else if extension == "docx" && not (any (has_signature buffer) zip_signatures)
    then err (bad_request "Invalid DOCX file signature")
    else ok tt

-- `file.originalname.split('.').pop()?.toLowerCase()`
unfoldable pub extension_of_name : (String → String) → String → Option String
unfolding split last
extension_of_name lower name = elim (last (split "." name)) [
  | none ↦ none
  | some e ↦ some (lower e)
]

checked_size : File → Result {0} Unit → Result File
checked_size file (err e) = err e
checked_size file (ok t) =
    if ltb max_file_size_bytes file.size
    then err (bad_request "File size exceeds 10MB limit")
    else ok file

checked_extension : File → Option String → Result File
unfolding checked_size validate_file_signature
checked_extension file none =
    err (bad_request "Invalid file extension. Only .pdf and .docx files are allowed")
checked_extension file (some e) =
    if e == "" || not (is_allowed_extension e)
    then err (bad_request "Invalid file extension. Only .pdf and .docx files are allowed")
    else checked_size file (validate_file_signature file.buffer e)

-- `transform`
unfoldable pub transform : (String → String) → Option File → Result File
unfolding checked_extension
transform lower none = err (bad_request "File is required")
transform lower (some file) =
    if not (is_allowed_mime_type file.mimetype)
    then err (bad_request "Invalid file type. Only PDF and DOCX files are allowed")
    else checked_extension file (extension_of_name lower file.original_name)

-- The buffer begins with the bytes of the signature.
abbrev pub BeginsWith : List ℕ → List ℕ → Type 0
BeginsWith buffer signature = (rest : List ℕ) × (buffer ≡ signature ++ rest)

has_signature_iff :
    (buffer signature : List ℕ)
    → (has_signature buffer signature ≡ true) ↔ BeginsWith buffer signature
unfolding has_signature
has_signature_iff buffer [] = (λ h. (buffer, refl), λ s. refl)
has_signature_iff [] (byte ∷ signature) =
    (λ h. absurd (ground arith), λ s. let (rest, e) = s in absurd (ground arith))
has_signature_iff (b ∷ buffer) (byte ∷ signature) =
    let (to, from) = has_signature_iff buffer signature in
    (
      λ h. let (rest, e) = to (ground arith) in let same : b ≡ byte = ground arith in (rest, cc),
      λ s.
          let (rest, e) = s in
          let tail : buffer ≡ signature ++ rest = ground arith in
          let deep = from (rest, tail) in ground arith,
    )

-- The buffer begins with one of the three signatures of a ZIP file.
abbrev pub IsZip : List ℕ → Type 0
IsZip buffer =
    BeginsWith buffer (80 ∷ 75 ∷ 3 ∷ 4 ∷ [])
    ⊎ (BeginsWith buffer (80 ∷ 75 ∷ 5 ∷ 6 ∷ []) ⊎ BeginsWith buffer (80 ∷ 75 ∷ 7 ∷ 8 ∷ []))

any-IsZip_iff :
    (buffer : List ℕ) → (any (has_signature buffer) zip_signatures ≡ true) ↔ IsZip buffer
any-IsZip_iff buffer =
    let (to1, from1) = has_signature_iff buffer (80 ∷ 75 ∷ 3 ∷ 4 ∷ []) in
    let (to2, from2) = has_signature_iff buffer (80 ∷ 75 ∷ 5 ∷ 6 ∷ []) in
    let (to3, from3) = has_signature_iff buffer (80 ∷ 75 ∷ 7 ∷ 8 ∷ []) in
    (
      λ h. elim (Bool-cases (has_signature buffer (80 ∷ 75 ∷ 3 ∷ 4 ∷ []))) [
        | inl y ↦ inl (to1 y)
        | inr n ↦ elim (Bool-cases (has_signature buffer (80 ∷ 75 ∷ 5 ∷ 6 ∷ []))) [
          | inl y ↦ inr (inl (to2 y))
          | inr m ↦ inr (inr (to3 (ground arith)))
        ]
      ],
      λ s. elim s [
        | inl x ↦ ground (arith, from1 x)
        | inr (inl x) ↦ ground (arith, from2 x)
        | inr (inr x) ↦ ground (arith, from3 x)
      ],
    )

-- The tests of `validateFileSignature`, for an extension that is allowed.
IsSigned : Option String → List ℕ → Type 0
IsSigned e buffer =
    ((e ≡ some "pdf") × (has_signature buffer pdf_signature ≡ true))
    ⊎ ((e ≡ some "docx") × (any (has_signature buffer) zip_signatures ≡ true))

empty_has_none :
    (buffer : List ℕ)
    → is_empty buffer ≡ true
    → (has_signature buffer pdf_signature ≡ false)
      × (any (has_signature buffer) zip_signatures ≡ false)
unfolding is_empty has_signature
empty_has_none [] h = (refl, refl)
empty_has_none (b ∷ buffer) h = absurd (ground arith)

checked_extension-ok_iff :
    (file g : File) (o : Option String)
    → (checked_extension file o ≡ ok g)
      ↔ ((file ≡ g) × (file.size ≤ max_file_size_bytes) × IsSigned o file.buffer)
unfolding checked_extension IsSigned
checked_extension-ok_iff file g none = (λ h. absurd (ground arith), λ s. absurd (ground arith))
checked_extension-ok_iff file g (some e) =
    let blank = empty_has_none file.buffer in
    (
      λ h. ground (arith, eq_iff e "pdf", eq_iff e "docx", eq_iff e ""),
      λ s. ground (
        arith,
        eq_iff e "pdf",
        eq_iff e "docx",
        eq_iff e "",
        blank,
        eq_iff "pdf" "docx",
        eq_iff "pdf" "",
        eq_iff "docx" "",
      ),
    )

-- What a file that is accepted satisfies: its type, its size and its content.
pub record IsAccepted (lower : String → String) (file : File) : Type 0 where
  pub mime :
      (file.mimetype ≡ "application/pdf")
      ⊎ (file.mimetype ≡ "application/vnd.openxmlformats-officedocument.wordprocessingml.document")
  pub size : file.size ≤ 10485760
  pub content :
      ((extension_of_name lower file.original_name ≡ some "pdf")
        × BeginsWith file.buffer pdf_signature)
      ⊎ ((extension_of_name lower file.original_name ≡ some "docx") × IsZip file.buffer)

mime_iff :
    (t : String)
    → (is_allowed_mime_type t ≡ true) ↔ (
        (t ≡ "application/pdf")
        ⊎ (t ≡ "application/vnd.openxmlformats-officedocument.wordprocessingml.document"))
mime_iff t =
    let (to1, from1) = eq_iff t "application/pdf" in
    let (to2, from2) =
      eq_iff t "application/vnd.openxmlformats-officedocument.wordprocessingml.document" in
    (
      λ h. elim (Bool-cases (t == "application/pdf")) [
        | inl y ↦ inl (to1 y)
        | inr n ↦ inr (to2 (ground arith))
      ],
      λ s. elim s [ inl x ↦ ground (arith, from1 x) | inr x ↦ ground (arith, from2 x) ],
    )

content_iff :
    (e : Option String) (buffer : List ℕ)
    → IsSigned e buffer
      ↔ (((e ≡ some "pdf") × BeginsWith buffer pdf_signature) ⊎ ((e ≡ some "docx") × IsZip buffer))
unfolding IsSigned
content_iff e buffer =
    let (to1, from1) = has_signature_iff buffer pdf_signature in
    let (to2, from2) = any-IsZip_iff buffer in
    (
      λ s. elim s [ inl (x, y) ↦ inl (x, to1 y) | inr (x, y) ↦ inr (x, to2 y) ],
      λ s. elim s [ inl (x, y) ↦ inl (x, from1 y) | inr (x, y) ↦ inr (x, from2 y) ],
    )

transform-tests :
    (lower : String → String) (file g : File)
    → (transform lower (some file) ≡ ok g) ↔ (
        (is_allowed_mime_type file.mimetype ≡ true)
        × (checked_extension file (extension_of_name lower file.original_name) ≡ ok g))
unfolding transform
transform-tests lower file g = (λ h. ground arith, λ s. ground arith)

-- The pipe passes exactly the files that have an allowed type, at most 10 MB (10485760 bytes), and an
-- extension, in lower case, that is pdf or docx and fits their first bytes; it passes them as they
-- are, and refuses a request without a file.
pub transform-ok_iff :
    (lower : String → String) (o : Option File) (g : File)
    → (transform lower o ≡ ok g) ↔ ((o ≡ some g) × IsAccepted lower g)
unfolding transform
transform-ok_iff lower none g = (λ h. absurd (ground arith), λ s. absurd (ground arith))
transform-ok_iff lower (some file) g =
    let (to, from) = transform-tests lower file g in
    let e = extension_of_name lower file.original_name in
    let (to_parts, from_parts) = checked_extension-ok_iff file g e in
    let (to_mime, from_mime) = mime_iff file.mimetype in
    let (to_content, from_content) = content_iff e file.buffer in
    (
      λ h.
          let (m, c) = to h in
          let (same, size, signed) = to_parts c in
          (
            ap some same,
            rw (← same) (record { mime = to_mime m; size = size; content = to_content signed }),
          ),
      λ s.
          let (found, a) = s in
          let same : file ≡ g = ground arith in
          let b : IsAccepted lower file = rw same a in
          from (from_mime b.mime, from_parts (same, b.size, from_content b.content)),
    )
