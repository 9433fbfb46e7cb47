-- ===== src/Applications/Access.antt =====
-- `findOne`: who may see an application.
use talent_flow_ai_backend.Prelude.{
  String, none, some, true, ◌≡◌, ◌↔◌, ◌⊎◌, inl, inr, arith, eq_iff, lookup, Option-cases,
}
use talent_flow_ai_backend.Model.{User, Job, Candidate, Application, Db}
use talent_flow_ai_backend.Async.{ok}
use talent_flow_ai_backend.Prisma.{PrismaClient}
use talent_flow_ai_backend.Applications.Service.{is_applicant, is_recruiter, is_admin, find_one}

module _ (p : PrismaClient) where
  -- The application's candidate is the one with the user's email.
  abbrev pub IsApplicant : String → Application → Db → Type 0
  IsApplicant user_id a d =
      (u : User) × (c : Candidate) × (lookup user_id d.users ≡ some u)
      × (p.candidate_by_email u.email d ≡ some c)
      × (a.candidate_id ≡ c.id)

  pub is_applicant_iff :
      (user_id : String) (a : Application) (d : Db)
      → (is_applicant p user_id a d ≡ true) ↔ IsApplicant user_id a d
  unfolding is_applicant
  is_applicant_iff user_id a d = elim (Option-cases (lookup user_id d.users)) [
    | inl e ↦ (λ h. absurd (ground arith), λ s. let (u, c, known, found, same) = s in ground arith)
    | inr (u, e) ↦ elim (Option-cases (p.candidate_by_email u.email d)) [
      | inl f ↦
          (λ h. absurd (ground arith), λ s. let (v, c, known, found, same) = s in ground arith)
      | inr (c, f) ↦ (
        λ h. (u, c, e, f, ground (arith, eq_iff a.candidate_id c.id)),
        λ s. let (v, c', known, found, same) = s in ground (arith, eq_iff a.candidate_id c.id),
      )
    ]
  ]

-- The user made the job that the application is for.
abbrev pub IsJobOwner : String → Application → Db → Type 0
IsJobOwner user_id a d = (j : Job) × (lookup a.job_id d.jobs ≡ some j) × (j.created_by_id ≡ user_id)

module _ (p : PrismaClient) where
  pub is_recruiter_iff :
      (user_id : String) (a : Application) (d : Db)
      → (is_recruiter p user_id a d ≡ true) ↔ IsJobOwner user_id a d
  unfolding is_recruiter
  is_recruiter_iff user_id a d = elim (Option-cases (lookup a.job_id d.jobs)) [
    | inl e ↦ (λ h. absurd (ground arith), λ s. let (j, there, owned) = s in ground arith)
    | inr (j, e) ↦ (
      λ h. (j, e, ground (arith, eq_iff j.created_by_id user_id)),
      λ s. let (j', there, owned) = s in ground (arith, eq_iff j.created_by_id user_id),
    )
  ]

  abbrev pub MayRead : (user_id user_role : String) → Application → Db → Type 0
  MayRead user_id user_role a d =
      IsApplicant p user_id a d ⊎ (IsJobOwner user_id a d ⊎ (user_role ≡ "ADMIN"))

  pub find_one-state :
      (id user_id user_role : String) (d : Db) → (find_one p id user_id user_role d).1 ≡ d
  unfolding find_one
  find_one-state id user_id user_role d = ground arith

  find_one-tests :
      (id user_id user_role : String) (d : Db) (a : Application)
      → ((find_one p id user_id user_role d).0 ≡ ok a) ↔ (
          (lookup id d.applications ≡ some a)
          × (a.deleted_at ≡ none)
          × ((is_applicant p user_id a d ≡ true)
              ⊎ ((is_recruiter p user_id a d ≡ true) ⊎ (is_admin user_role ≡ true))))
  unfolding find_one
  find_one-tests id user_id user_role d a = (λ h. ground arith, λ s. ground arith)

  -- `findOne` answers with an application exactly if it is there under that id, not deleted, and the
  -- user is its applicant, made its job, or is an administrator.
  pub find_one-ok_iff :
      (id user_id user_role : String) (d : Db) (a : Application)
      → ((find_one p id user_id user_role d).0 ≡ ok a) ↔ (
          (lookup id d.applications ≡ some a)
          × (a.deleted_at ≡ none)
          × MayRead user_id user_role a d)
  find_one-ok_iff id user_id user_role d a =
      let (to, from) = find_one-tests id user_id user_role d a in
      let (applicant, applicant') = is_applicant_iff p user_id a d in
      let (recruiter, recruiter') = is_recruiter_iff user_id a d in
      let (admin, admin') = eq_iff user_role "ADMIN" in
      (
        λ h.
            let (there, live, may) = to h in
            (
              there,
              live,
              elim may [
                | inl x ↦ inl (applicant x)
                | inr (inl x) ↦ inr (inl (recruiter x))
                | inr (inr x) ↦ inr (inr (admin x))
              ],
            ),
        λ (there, live, may). from (
          there,
          live,
          elim may [
            | inl x ↦ inl (applicant' x)
            | inr (inl x) ↦ inr (inl (recruiter' x))
            | inr (inr x) ↦ inr (inr (admin' x))
          ],
        ),
      )
