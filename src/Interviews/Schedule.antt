-- ===== src/Interviews/Schedule.antt =====
-- `create`, `update` and `remove`: what interviews are made and moved to.
use talent_flow_ai_backend.Prelude.{
  ℕ, String, Option, none, some, ◌≡◌, ◌≢◌, ◌<◌, inl, inr, refl, arith, eq_iff, lookup, insert,
  Option-cases, ap, sym, ◌∙◌, or_else,
}
use talent_flow_ai_backend.Dto.{Field, undefined, null, value, when_truthy}
use talent_flow_ai_backend.Model.{Application, User, Interview, InterviewStatus, InterviewType, Db}
use talent_flow_ai_backend.Async.{ok, Result-cases}
use talent_flow_ai_backend.Prisma.{PrismaClient, NewInterview}
use talent_flow_ai_backend.Prisma.Laws.{PrismaLaws, interviews, interview_of}
use talent_flow_ai_backend.Prisma.Updates.{update-known}
use talent_flow_ai_backend.Interviews.Service.{
  CreateInterviewDto, UpdateInterviewDto, live_application, check_interviewer, check_future, given,
  check_rescheduled, rescheduled, updated, cancelled, find_one, create, update, remove,
}

-- The interviewer is unset, empty, or an account that is not deleted.
abbrev pub IsKnownInterviewer : Option String → Db → Type 0
IsKnownInterviewer none d = Unit
IsKnownInterviewer (some id) d = (u : User) × (lookup id d.users ≡ some u) × (u.deleted_at ≡ none)

check_interviewer-ok :
    (o : Option String) (d : Db) → (check_interviewer o d).0 ≡ ok tt → IsKnownInterviewer o d
unfolding check_interviewer
check_interviewer-ok none d h = tt
check_interviewer-ok (some id) d h = elim (Option-cases (lookup id d.users)) [
  | inl e ↦ absurd (ground arith)
  | inr (u, e) ↦ (u, e, ground arith)
]

check_interviewer-state : (o : Option String) (d : Db) → (check_interviewer o d).1 ≡ d
unfolding check_interviewer
check_interviewer-state none d = refl
check_interviewer-state (some id) d = refl

check_future-ok : (now at : ℕ) (d : Db) → (check_future now at d).0 ≡ ok tt → now < at
unfolding check_future
check_future-ok now at d h = ground arith

abbrev pub new_interview : (String → ℕ) → CreateInterviewDto → NewInterview
new_interview date_of dto = record {
  application_id = dto.application_id;
  scheduled_at = date_of dto.scheduled_at;
  duration = or_else dto.duration 60;
  type = or_else dto.type InterviewType.video;
  location = dto.location;
  notes = dto.notes;
  interviewer_id = dto.interviewer_id;
}

-- What an interview that `create` answers with satisfies.
pub record IsScheduled (date_of : String → ℕ) (now : ℕ) (dto : CreateInterviewDto) (d d' : Db)
    (i : Interview) : Type 0 where
  pub application :
      (a : Application) × (lookup dto.application_id d.applications ≡ some a)
      × (a.deleted_at ≡ none)
  pub interviewer : IsKnownInterviewer (when_truthy dto.interviewer_id) d
  pub future : now < i.scheduled_at
  pub row : i ≡ interview_of i.id (new_interview date_of dto)
  pub fresh : lookup i.id d.interviews ≡ none
  pub after : d' ≡ record d { interviews = insert i.id i d.interviews }

-- Before it writes, `create` changes nothing.
create_steps :
    (p : PrismaClient) (date_of : String → ℕ) (now : ℕ) (dto : CreateInterviewDto) (d : Db)
    (i : Interview)
    → (create p date_of now dto d).0 ≡ ok i
    → ((a : Application) × (lookup dto.application_id d.applications ≡ some a)
        × (a.deleted_at ≡ none))
      × ((check_interviewer (when_truthy dto.interviewer_id) d).0 ≡ ok tt)
      × ((check_future now (date_of dto.scheduled_at) d).0 ≡ ok tt)
      × (create p date_of now dto d ≡ p.interview.create (new_interview date_of dto) d)
unfolding create live_application check_future
create_steps p date_of now dto d i h =
    let same = check_interviewer-state (when_truthy dto.interviewer_id) d in
    elim (Option-cases (lookup dto.application_id d.applications)) [
      | inl e ↦ absurd (ground arith)
      | inr (a, e) ↦ elim (Result-cases (check_interviewer (when_truthy dto.interviewer_id) d).0) [
        | inl (t, f) ↦ ((a, e, ground arith), f, ground arith, ground arith)
        | inr (x, f) ↦ absurd (ground arith)
      ]
    ]

module _ (p : PrismaClient) (laws : PrismaLaws p) where
  -- An interview that `create` answers with is for an application that is not deleted, with an
  -- interviewer who is not deleted if one is named, at a time after `now`; it is new, stored in
  -- status SCHEDULED with the data sent (60 minutes by VIDEO if not sent), and nothing else changes.
  pub create-IsScheduled :
      (date_of : String → ℕ) (now : ℕ) (dto : CreateInterviewDto) (d : Db) (i : Interview)
      → (create p date_of now dto d).0 ≡ ok i
      → IsScheduled date_of now dto d (create p date_of now dto d).1 i
  create-IsScheduled date_of now dto d i h =
      let (application, known, future, same) = create_steps p date_of now dto d i h in
      let done : (p.interview.create (new_interview date_of dto) d).0 ≡ ok i =
        sym (ap (λ r. r.0) same) ∙ h in
      let (t, row, fresh, after) = laws.interview.create_ok (new_interview date_of dto) d i done in
      let late = check_future-ok now (date_of dto.scheduled_at) d future in
      record {
        application = application;
        interviewer = check_interviewer-ok (when_truthy dto.interviewer_id) d known;
        future = rw (ap (λ k. k.scheduled_at) row) late;
        row = row;
        fresh = fresh;
        after = ap (λ r. r.1) same ∙ after;
      }

-- Where an update may leave an interview that starts at `old`: there, at a time after `now`, or, on
-- `null`, at the start of 1970.
abbrev pub IsMoved : (now : ℕ) → Field String → (old new : ℕ) → Type 0
IsMoved now (value s) old new = now < new
IsMoved now null old new = new ≡ 0
IsMoved now undefined old new = new ≡ old

rescheduled-IsMoved :
    (date_of : String → ℕ) (now : ℕ) (f : Field String) (old : ℕ) (d : Db)
    → f ≢ value ""
    → (check_rescheduled date_of now f d).0 ≡ ok tt
    → IsMoved now f old (rescheduled date_of f old)
unfolding check_rescheduled rescheduled
rescheduled-IsMoved date_of now undefined old d n h = refl
rescheduled-IsMoved date_of now null old d n h = refl
rescheduled-IsMoved date_of now (value s) old d n h = ground (arith, eq_iff s "")

check_rescheduled-state :
    (date_of : String → ℕ) (now : ℕ) (f : Field String) (d : Db)
    → (check_rescheduled date_of now f d).1 ≡ d
unfolding check_rescheduled
check_rescheduled-state date_of now undefined d = refl
check_rescheduled-state date_of now null d = refl
check_rescheduled-state date_of now (value s) d = ground arith

find_one-ok :
    (id : String) (d : Db) (i : Interview)
    → (find_one id d).0 ≡ ok i
    → lookup id d.interviews ≡ some i
unfolding find_one
find_one-ok id d i h = ground arith

find_one-state : (id : String) (d : Db) → (find_one id d).1 ≡ d
unfolding find_one
find_one-state id d = refl

-- What an update of the interview under `id` that was answered with `i` did.
pub record IsRescheduled (now : ℕ) (id : String) (dto : UpdateInterviewDto) (d d' : Db)
    (old i : Interview) : Type 0 where
  pub there : lookup id d.interviews ≡ some old
  pub moved : IsMoved now dto.scheduled_at old.scheduled_at i.scheduled_at
  pub interviewer : IsKnownInterviewer (given dto.interviewer_id) d
  pub same_id : i.id ≡ old.id
  pub same_application : i.application_id ≡ old.application_id
  pub after : d' ≡ record d { interviews = insert id i d.interviews }

updated_fields :
    (date_of : String → ℕ) (dto : UpdateInterviewDto) (i : Interview)
    → ((updated date_of dto i).scheduled_at ≡ rescheduled date_of dto.scheduled_at i.scheduled_at)
      × ((updated date_of dto i).id ≡ i.id)
      × ((updated date_of dto i).application_id ≡ i.application_id)
unfolding updated
updated_fields date_of dto i = (refl, refl, refl)

module _ (p : PrismaClient) (laws : PrismaLaws p) where
  update_steps :
      (date_of : String → ℕ) (now : ℕ) (id : String) (dto : UpdateInterviewDto) (d : Db)
      (i : Interview)
      → (update p date_of now id dto d).0 ≡ ok i
      → (old : Interview) × ((find_one id d).0 ≡ ok old)
        × ((check_rescheduled date_of now dto.scheduled_at d).0 ≡ ok tt)
        × ((check_interviewer (given dto.interviewer_id) d).0 ≡ ok tt)
        × (update p date_of now id dto d ≡ p.interview.update id (updated date_of dto) d)
  unfolding update
  update_steps date_of now id dto d i h =
      let s1 = find_one-state id d in
      let s2 = check_rescheduled-state date_of now dto.scheduled_at d in
      let s3 = check_interviewer-state (given dto.interviewer_id) d in
      elim (Result-cases (find_one id d).0) [
        | inr (x, e) ↦ absurd (ground arith)
        | inl (old, e) ↦ elim (Result-cases (check_rescheduled date_of now dto.scheduled_at d).0) [
          | inr (x, f) ↦ absurd (ground arith)
          | inl (t, f) ↦ elim (Result-cases (check_interviewer (given dto.interviewer_id) d).0) [
            | inr (x, g) ↦ absurd (ground arith)
            | inl (u, g) ↦ (old, e, f, g, ground arith)
          ]
        ]
      ]

  -- An update that is answered was of a stored interview; if a time is sent as text that is not
  -- empty, the interview is now at that time after `now`, without a time it stays, and with `null`
  -- it is at the start of 1970; an interviewer who is named is not deleted; the id and application
  -- stay, and no other row and no other table changes.
  pub update-IsRescheduled :
      (date_of : String → ℕ) (now : ℕ) (id : String) (dto : UpdateInterviewDto) (d : Db)
      (i : Interview)
      → dto.scheduled_at ≢ value ""
      → (update p date_of now id dto d).0 ≡ ok i
      → (old : Interview) × IsRescheduled now id dto d (update p date_of now id dto d).1 old i
  update-IsRescheduled date_of now id dto d i n h =
      let (old, found, future, known, same) = update_steps date_of now id dto d i h in
      let there = find_one-ok id d old found in
      let done : (p.interview.update id (updated date_of dto) d).0 ≡ ok i =
        sym (ap (λ r. r.0) same) ∙ h in
      let (new, after) =
        update-known interviews _ p.interview laws.interview id (updated date_of dto) d old i there
          done in
      let (at, key, application) = updated_fields date_of dto old in
      let moved = rescheduled-IsMoved date_of now dto.scheduled_at old.scheduled_at d n future in
      (
        old,
        rw (same, new, after)
            (record {
              there = there;
              moved = rw at moved;
              interviewer = check_interviewer-ok (given dto.interviewer_id) d known;
              same_id = key;
              same_application = application;
              after = refl;
            }),
      )

  -- A removal that is answered was of a stored interview: its row stays, in status CANCELLED, and
  -- nothing else changes.
  pub remove-cancels :
      (id : String) (d : Db)
      → (remove p id d).0 ≡ ok tt
      → (old : Interview) × (lookup id d.interviews ≡ some old)
        × ((remove p id d).1 ≡ record d {
          interviews = insert id (record old { status = InterviewStatus.cancelled }) d.interviews;
        })
  unfolding remove
  remove-cancels id d h =
      let s = find_one-state id d in
      elim (Result-cases (find_one id d).0) [
        | inr (x, e) ↦ absurd (ground arith)
        | inl (old, e) ↦ elim (Result-cases (p.interview.update id cancelled d).0) [
          | inr (x, f) ↦ absurd (ground arith)
          | inl (i, f) ↦
              let there = find_one-ok id d old e in
              let (new, after) =
                update-known interviews _ p.interview laws.interview id cancelled d old i there f in
              (old, there, ground arith)
        ]
      ]
