-- ===== src/Http/Disclosure.antt =====
-- What the answer to an exception discloses.
use talent_flow_ai_backend.Prelude.{
  ℕ, String, Option, Bool, true, false, ◌≡◌, refl, sym, subst, arith, eq_iff, Bool-cases,
  Option-cases, inl, inr, ◌==◌, if◌then◌else◌,
}
use talent_flow_ai_backend.Json.{
  Json, Fields, Items, undefined, null, boolean, number, string, array, object, no_fields, field,
  is_object, is_truthy, property,
}
use talent_flow_ai_backend.Sanitize.{sanitize, sanitize_items, is_sensitive, redacted}
use talent_flow_ai_backend.Sanitize.Clean.{IsClean, sanitize-IsClean, IsClean-value}
use talent_flow_ai_backend.Http.Filter.{
  Exception, http_exception, error, other, Context, or, is_production, is_array, property_of,
  error_object, status_of, name_or_error, message_of, catch,
}

-- An exception that is not an `HttpException`
abbrev pub IsUnexpected : Exception → Type 0
IsUnexpected (http_exception status response) = ⊥
IsUnexpected _ = Unit

module _ (status_name : ℕ → Option String) (lower : String → String) where
  -- In production, two exceptions that are no `HttpException` have the same answer: nothing of
  -- their messages is disclosed, in any part of it.
  pub catch-IsUnexpected :
      (c : Context) (e f : Exception)
      → is_production c ≡ true
      → IsUnexpected e
      → IsUnexpected f
      → catch status_name lower c e ≡ catch status_name lower c f
  unfolding catch
  catch-IsUnexpected c (http_exception status response) f h u v = elim u [ ]
  catch-IsUnexpected c (error m) (http_exception status response) h u v = elim v [ ]
  catch-IsUnexpected c (other m) (http_exception status response) h u v = elim v [ ]
  catch-IsUnexpected c (error m) (error n) h u v = rw h refl
  catch-IsUnexpected c (error m) (other n) h u v = rw h refl
  catch-IsUnexpected c (other m) (error n) h u v = rw h refl
  catch-IsUnexpected c (other m) (other n) h u v = rw h refl

  IsClean-choice :
      (b : Bool) (v w : Json)
      → IsClean lower v
      → IsClean lower w
      → IsClean lower (if b then v else w)
  IsClean-choice false v w c d = d
  IsClean-choice true v w c d = c

  IsClean-property :
      (k : String) (fs : Fields) → IsClean lower (object fs) → IsClean lower (property k fs)
  unfolding property IsClean
  IsClean-property k no_fields c = tt
  IsClean-property k (field j v fs) (s, c, cs) =
      IsClean-choice (j == k) v (property k fs) c (IsClean-property k fs cs)

  IsClean-property_of : (k : String) (v : Json) → IsClean lower v → IsClean lower (property_of k v)
  unfolding IsClean
  IsClean-property_of k (array xs) c = tt
  IsClean-property_of k (object fs) c = IsClean-property k fs c
  IsClean-property_of k undefined c = tt
  IsClean-property_of k null c = tt
  IsClean-property_of k (boolean b) c = tt
  IsClean-property_of k (number n) c = tt
  IsClean-property_of k (string s) c = tt

  IsClean-error_object :
      (k : String) (m : Json) → IsClean lower m → IsClean lower (property_of k (error_object m))
  unfolding property
  IsClean-error_object k m c = elim (Bool-cases (is_object m)) [
    | inl y ↦ rw y (IsClean-property_of k m c)
    | inr n ↦
        rw n (IsClean-choice ("message" == k) m undefined c (IsClean-value lower undefined refl))
  ]

  IsClean-string : (s : String) → IsClean lower (string s)
  IsClean-string s = IsClean-value lower (string s) refl

  IsClean-name_or_error : (status : ℕ) → IsClean lower (name_or_error status_name lower status)
  IsClean-name_or_error status = elim (Option-cases (status_name status)) [
    | inl e ↦ rw e (IsClean-string "Error")
    | inr (name, e) ↦ rw e (
        IsClean-choice (is_truthy (string name)) (string name) (string "Error")
          (IsClean-string name) (IsClean-string "Error"))
  ]

  IsClean-message_of : (c : Context) (e : Exception) → IsClean lower (message_of lower c e)
  IsClean-message_of c (http_exception status (array xs)) = sanitize-IsClean lower (array xs)
  IsClean-message_of c (http_exception status (object fs)) = sanitize-IsClean lower (object fs)
  IsClean-message_of c (http_exception status null) = sanitize-IsClean lower null
  IsClean-message_of c (http_exception status undefined) = IsClean-value lower undefined refl
  IsClean-message_of c (http_exception status (boolean b)) = IsClean-value lower (boolean b) refl
  IsClean-message_of c (http_exception status (number n)) = IsClean-value lower (number n) refl
  IsClean-message_of c (http_exception status (string s)) = IsClean-string s
  IsClean-message_of c (error m) =
      IsClean-choice (is_production c) (string "Internal server error")
        (sanitize lower 0 (object (field "error" (string m) no_fields)))
        (IsClean-string "Internal server error")
        (sanitize-IsClean lower (object (field "error" (string m) no_fields)))
  IsClean-message_of c (other m) =
      IsClean-choice (is_production c) (string "Internal server error")
        (sanitize lower 0 (object (field "error" (string m) no_fields)))
        (IsClean-string "Internal server error")
        (sanitize-IsClean lower (object (field "error" (string m) no_fields)))

  -- Whatever a handler throws, no part of the answer's payload, error, message or details, has a
  -- property whose name holds a sensitive term and whose value is not `[REDACTED]`, at any depth.
  pub catch-IsClean :
      (c : Context) (e : Exception)
      → IsClean lower (catch status_name lower c e).error
        × IsClean lower (catch status_name lower c e).message
        × IsClean lower (catch status_name lower c e).details
  unfolding catch
  catch-IsClean c e =
      let m = message_of lower c e in
      let clean = IsClean-message_of c e in
      let part = property_of "message" (error_object m) in
      let inner = IsClean-error_object "message" m clean in
      let caption = property_of "error" (error_object m) in
      (
        IsClean-choice (is_truthy caption) caption (name_or_error status_name lower (status_of e))
            (IsClean-error_object "error" m clean) (IsClean-name_or_error (status_of e)),
        IsClean-choice (is_array part) (string "Validation failed") (or part m)
            (IsClean-string "Validation failed")
            (IsClean-choice (is_truthy part) part m inner clean),
        IsClean-choice (is_array part) part undefined inner (IsClean-value lower undefined refl),
      )

  sanitize-entry :
      (k : String) (v : Json) (xs : Items)
      → is_sensitive lower k ≡ false
      → v ≡ array xs
      → (if is_sensitive lower k then redacted else if is_object v then sanitize lower 1 v else v)
        ≡ array (sanitize_items lower 2 xs)
  unfolding sanitize
  sanitize-entry k v xs plain e = rw (plain, e) refl

  property-sanitize :
      (fs : Fields) (xs : Items)
      → is_sensitive lower "message" ≡ false
      → property "message" fs ≡ array xs
      → property_of "message" (sanitize lower 0 (object fs)) ≡ array (sanitize_items lower 2 xs)
  unfolding sanitize property
  property-sanitize no_fields xs plain h = absurd (ground arith)
  property-sanitize (field k v fs) xs plain h = elim (Bool-cases (k == "message")) [
    | inl y ↦
        let same : k ≡ "message" = (eq_iff k "message").0 y in
        let value : v ≡ array xs = ground (arith, h, y) in
        rw y
          (sanitize-entry k v xs (subst (λ j. is_sensitive lower j ≡ false) (sym same) plain) value)
    | inr n ↦
        let later : property "message" fs ≡ array xs = ground (arith, h, n) in
        rw n (property-sanitize fs xs plain later)
  ]

  -- An `HttpException` that carries an object with an array of messages, the names `message` not
  -- sensitive, is answered with the message `Validation failed` and with the messages, each
  -- sanitized, as its details.
  pub catch-messages :
      (c : Context) (status : ℕ) (fs : Fields) (xs : Items)
      → is_sensitive lower "message" ≡ false
      → property "message" fs ≡ array xs
      → ((catch status_name lower c (http_exception status (object fs))).message
          ≡ string "Validation failed")
        × (catch status_name lower c (http_exception status (object fs))).details
          ≡ array (sanitize_items lower 2 xs)
  unfolding catch sanitize sanitize_items
  catch-messages c status fs xs plain h =
      let e = property-sanitize fs xs plain h in rw e (refl, refl)
