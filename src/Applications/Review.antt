-- ===== src/Applications/Review.antt =====
-- `update`: who may change what.
use talent_flow_ai_backend.Prelude.{
  ℕ, String, Option, none, some, true, false, not, ◌&&◌, ◌≡◌, ◌≢◌, ◌⊎◌, inl, inr, refl, arith,
  eq_iff, eq_refl, lookup, insert, Bool-cases, sym, ◌∙◌, ap,
}
use talent_flow_ai_backend.Model.{Application, ApplicationStatus, Db, same_status_iff}
use talent_flow_ai_backend.Async.{ok, bind-ok}
use talent_flow_ai_backend.Dto.{Field, truthy, undefined, null, value, written, replaced}
use talent_flow_ai_backend.Prisma.{PrismaClient}
use talent_flow_ai_backend.Prisma.Laws.{PrismaLaws}
use talent_flow_ai_backend.Applications.Dto.{UpdateApplicationDto}
use talent_flow_ai_backend.Applications.Service.{
  is_applicant, is_recruiter, is_admin, is_review, reviewed_at_of, find_one, updated, update,
}
use talent_flow_ai_backend.Applications.Access.{
  IsApplicant, IsJobOwner, is_applicant_iff, is_recruiter_iff, find_one-state, find_one-ok_iff,
}

-- The notes after an update by an applicant: as they were, or blank.
abbrev pub KeptOrBlank : Option String → Option String → Type 0
KeptOrBlank before after = (after ≡ before) ⊎ ((after ≡ none) ⊎ (after ≡ some ""))

-- What an applicant may change of `old`: the cover letter, and the notes to nothing.
pub record IsApplicantChange (old new : Application) : Type 0 where
  pub stage : new.stage ≡ old.stage
  pub status : new.status ≡ old.status
  pub reviewed_at : new.reviewed_at ≡ old.reviewed_at
  pub notes : KeptOrBlank old.notes new.notes

-- What nobody changes by `update`.
pub record HasSameIdentity (old new : Application) : Type 0 where
  pub id : new.id ≡ old.id
  pub job_id : new.job_id ≡ old.job_id
  pub candidate_id : new.candidate_id ≡ old.candidate_id
  pub cv_file_key : new.cv_file_key ≡ old.cv_file_key
  pub cv_file_url : new.cv_file_url ≡ old.cv_file_url
  pub applied_at : new.applied_at ≡ old.applied_at
  pub deleted_at : new.deleted_at ≡ old.deleted_at

pub updated-HasSameIdentity :
    (now : ℕ) (dto : UpdateApplicationDto) (a : Application) → HasSameIdentity a (updated now dto a)
unfolding updated
updated-HasSameIdentity now dto a = ground arith

kept_or_blank :
    (f : Field String) (old : Option String) → truthy f ≡ false → KeptOrBlank old (written f old)
kept_or_blank undefined old h = inl refl
kept_or_blank null old h = inr (inl refl)
kept_or_blank (value s) old h = ground (arith, eq_iff s "")

updated-IsApplicantChange :
    (now : ℕ) (dto : UpdateApplicationDto) (a : Application)
    → is_review dto ≡ false
    → IsApplicantChange a (updated now dto a)
unfolding updated
updated-IsApplicantChange now dto a h = record {
  stage = ground arith;
  status = ground arith;
  reviewed_at = ground arith;
  notes = kept_or_blank dto.notes a.notes (ground arith);
}

-- The time of review moves to `now` exactly when the status changes.
abbrev pub IsStamped : ℕ → (old new : Application) → Type 0
IsStamped now old new =
    (new.status ≢ old.status → new.reviewed_at ≡ some now)
    × (new.status ≡ old.status → new.reviewed_at ≡ old.reviewed_at)

reviewed_at_of-stamps :
    (now : ℕ) (o : Option ApplicationStatus) (a : Application)
    → (replaced o a.status ≢ a.status → reviewed_at_of now o a ≡ some now)
      × (replaced o a.status ≡ a.status → reviewed_at_of now o a ≡ a.reviewed_at)
unfolding reviewed_at_of
reviewed_at_of-stamps now none a = (λ n. absurd (n refl), λ e. refl)
reviewed_at_of-stamps now (some s) a = (
  λ n. ground (arith, same_status_iff a.status s),
  λ e. ground (arith, same_status_iff a.status s),
)

updated-IsStamped :
    (now : ℕ) (dto : UpdateApplicationDto) (a : Application) → IsStamped now a (updated now dto a)
unfolding updated
updated-IsStamped now dto a = reviewed_at_of-stamps now dto.status a

abbrev pub only_notes : Field String → UpdateApplicationDto
only_notes f = record { stage = none; status = none; notes = f; cover_letter = Field.undefined }

module _ (p : PrismaClient) (laws : PrismaLaws p) where
  update_steps :
      (now : ℕ) (id user_id user_role : String) (dto : UpdateApplicationDto) (d : Db)
      (a : Application)
      → (update p now id user_id user_role dto d).0 ≡ ok a
      → (old : Application) × ((find_one p id user_id user_role d).0 ≡ ok old)
        × ((is_review dto && not (is_recruiter p user_id old d) && not (is_admin user_role))
            ≡ false)
        × ((not (is_recruiter p user_id old d)
              && not (is_admin user_role)
              && not (is_applicant p user_id old d))
            ≡ false)
        × (update p now id user_id user_role dto d ≡ p.application.update id (updated now dto) d)
  unfolding update
  update_steps now id user_id user_role dto d a h =
      let (old, found, h1, e1) = bind-ok (find_one p id user_id user_role) _ d a h in
      let same = find_one-state p id user_id user_role d in
      (old, found, ground arith, ground arith, ground arith)

  -- What `update` did to the row `old` and the database `d`, if it answered with `a`.
  pub record IsUpdate (now : ℕ) (id user_id user_role : String) (d d' : Db) (old a : Application)
      : Type 0 where
    pub there : lookup id d.applications ≡ some old
    pub live : old.deleted_at ≡ none
    pub rights :
        (IsJobOwner user_id old d ⊎ (user_role ≡ "ADMIN"))
        ⊎ (IsApplicant p user_id old d × IsApplicantChange old a)
    pub identity : HasSameIdentity old a
    pub stamped : IsStamped now old a
    pub stored : d'.applications ≡ insert id a d.applications
    pub users : d'.users ≡ d.users
    pub jobs : d'.jobs ≡ d.jobs
    pub candidates : d'.candidates ≡ d.candidates
    pub interviews : d'.interviews ≡ d.interviews

  rights_of_tests :
      (now : ℕ) (user_id user_role : String) (dto : UpdateApplicationDto) (d : Db)
      (old : Application)
      → (is_review dto && not (is_recruiter p user_id old d) && not (is_admin user_role)) ≡ false
      → (not (is_recruiter p user_id old d)
          && not (is_admin user_role)
          && not (is_applicant p user_id old d))
        ≡ false
      → (IsJobOwner user_id old d ⊎ (user_role ≡ "ADMIN"))
        ⊎ (IsApplicant p user_id old d × IsApplicantChange old (updated now dto old))
  rights_of_tests now user_id user_role dto d old review any =
      let (owner, _) = is_recruiter_iff p user_id old d in
      let (applicant, _) = is_applicant_iff p user_id old d in
      let (admin, _) = eq_iff user_role "ADMIN" in
      elim (Bool-cases (is_recruiter p user_id old d)) [
        | inl y ↦ inl (inl (owner y))
        | inr n ↦ elim (Bool-cases (is_admin user_role)) [
          | inl y ↦ inl (inr (admin y))
          | inr m ↦
              inr (applicant (ground arith), updated-IsApplicantChange now dto old (ground arith))
        ]
      ]

  -- An update that is answered changed one live row: by the owner of its job or an administrator,
  -- or by its applicant, and then stage, status, time of review are as they were and the notes too
  -- or blank. The time of review is `now` exactly if the status changed; the candidate, the job, the
  -- file and the deletion stay; all other rows stay.
  pub update-IsUpdate :
      (now : ℕ) (id user_id user_role : String) (dto : UpdateApplicationDto) (d : Db)
      (a : Application)
      → (update p now id user_id user_role dto d).0 ≡ ok a
      → (old : Application) × IsUpdate now id user_id user_role d
          (update p now id user_id user_role dto d).1
          old
          a
  update-IsUpdate now id user_id user_role dto d a h =
      let (old, found, review, any, same) = update_steps now id user_id user_role dto d a h in
      let (there, live, may) = (find_one-ok_iff p id user_id user_role d old).0 found in
      let (q, at, row, after) =
        laws.application.update_ok id (updated now dto) d a (ap (λ r. r.0) (sym same) ∙ h) in
      let one : q ≡ old = ground arith in
      let row' : a ≡ updated now dto old = row ∙ ap (updated now dto) one in
      let last = ap (λ r. r.1) same ∙ after in
      (
        old,
        rw (last, row')
            (record {
              there = there;
              live = live;
              rights = rights_of_tests now user_id user_role dto d old review any;
              identity = updated-HasSameIdentity now dto old;
              stamped = updated-IsStamped now dto old;
              stored = refl;
              users = refl;
              jobs = refl;
              candidates = refl;
              interviews = refl;
            }),
      )

  update_passes :
      (now : ℕ) (id user_id user_role : String) (dto : UpdateApplicationDto) (d : Db)
      (old : Application)
      → (find_one p id user_id user_role d).0 ≡ ok old
      → is_review dto ≡ false
      → is_applicant p user_id old d ≡ true
      → update p now id user_id user_role dto d ≡ p.application.update id (updated now dto) d
  unfolding update
  update_passes now id user_id user_role dto d old found dull applies =
      ground (arith, find_one-state p id user_id user_role d)

  -- An applicant who neither owns the job nor is an administrator can blank the recruiter's notes:
  -- with `notes` sent as "" or `null` and nothing else, no test of `update` refuses, and the row is
  -- written with blank notes.
  pub update-blanks-notes :
      (now : ℕ) (id user_id user_role : String) (blank : Field String) (d : Db) (old : Application)
      → (blank ≡ null) ⊎ (blank ≡ value "")
      → lookup id d.applications ≡ some old
      → old.deleted_at ≡ none
      → IsApplicant p user_id old d
      → update p now id user_id user_role (only_notes blank) d
        ≡ p.application.update id (λ a. record a { notes = written blank a.notes }) d
  unfolding updated
  update-blanks-notes now id user_id user_role blank d old is there live applicant =
      let found = (find_one-ok_iff p id user_id user_role d old).1 (there, live, inl applicant) in
      let applies = (is_applicant_iff p user_id old d).1 applicant in
      let dull : truthy blank ≡ false = ground (arith, eq_refl "") in
      update_passes now id user_id user_role (only_notes blank) d old found dull applies
