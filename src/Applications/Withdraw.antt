-- ===== src/Applications/Withdraw.antt =====
-- `remove`: withdrawing an application, and what is left of it.
use talent_flow_ai_backend.Prelude.{
  ℕ, String, none, some, false, not, ◌&&◌, ◌≡◌, ◌⊎◌, inl, inr, refl, arith, eq_iff, eq_refl, lookup,
  insert, lookup-insert, Bool-cases, ◌∙◌, ap,
}
use talent_flow_ai_backend.Model.{Application, ApplicationStatus, Db}
use talent_flow_ai_backend.Async.{ok, err, bind-ok, Result-cases}
use talent_flow_ai_backend.Prisma.{PrismaClient}
use talent_flow_ai_backend.Prisma.Laws.{PrismaLaws}
use talent_flow_ai_backend.Applications.Service.{
  application_not_found, is_applicant, is_admin, find_one, withdrawn_at, remove,
}
use talent_flow_ai_backend.Applications.Access.{
  IsApplicant, is_applicant_iff, find_one-state, find_one-ok_iff,
}

module _ (p : PrismaClient) (laws : PrismaLaws p) where
  remove_steps :
      (now : ℕ) (id user_id user_role : String) (d : Db)
      → (remove p now id user_id user_role d).0 ≡ ok tt
      → (old : Application) × ((find_one p id user_id user_role d).0 ≡ ok old)
        × ((not (is_applicant p user_id old d) && not (is_admin user_role)) ≡ false)
        × ((a : Application) × ((p.application.update id (withdrawn_at now) d).0 ≡ ok a)
            × ((remove p now id user_id user_role d).1
                ≡ (p.application.update id (withdrawn_at now) d).1))
  unfolding remove
  remove_steps now id user_id user_role d h =
      let (old, found, h1, e1) = bind-ok (find_one p id user_id user_role) _ d tt h in
      let same = find_one-state p id user_id user_role d in
      elim (Bool-cases (not (is_applicant p user_id old d) && not (is_admin user_role))) [
        | inl y ↦ absurd (ground arith)
        | inr n ↦ elim (Result-cases (p.application.update id (withdrawn_at now) d).0) [
          | inl (a, done) ↦ (old, found, n, (a, done, ground arith))
          | inr (e, failed) ↦ absurd (ground arith)
        ]
      ]

  -- What a withdrawal did to the row `old` and the database `d`.
  pub record IsWithdrawal (now : ℕ) (id user_id user_role : String) (d d' : Db) (old : Application)
      : Type 0 where
    pub there : lookup id d.applications ≡ some old
    pub live : old.deleted_at ≡ none
    pub rights : IsApplicant p user_id old d ⊎ (user_role ≡ "ADMIN")
    pub stored :
        d'.applications
        ≡ insert id
            (record old { status = ApplicationStatus.withdrawn; deleted_at = some now })
            d.applications
    pub users : d'.users ≡ d.users
    pub jobs : d'.jobs ≡ d.jobs
    pub candidates : d'.candidates ≡ d.candidates
    pub interviews : d'.interviews ≡ d.interviews

  -- A withdrawal that is answered was asked by the applicant or an administrator, of a live
  -- application; its row stays, deleted at `now` and WITHDRAWN, and nothing else changes.
  pub remove-IsWithdrawal :
      (now : ℕ) (id user_id user_role : String) (d : Db)
      → (remove p now id user_id user_role d).0 ≡ ok tt
      → (old : Application) × IsWithdrawal now id user_id user_role d
          (remove p now id user_id user_role d).1
          old
  unfolding withdrawn_at
  remove-IsWithdrawal now id user_id user_role d h =
      let (old, found, test, (a, done, same)) = remove_steps now id user_id user_role d h in
      let (there, live, may) = (find_one-ok_iff p id user_id user_role d old).0 found in
      let (q, at, row, after) = laws.application.update_ok id (withdrawn_at now) d a done in
      let one : q ≡ old = ground arith in
      let row' : a ≡ withdrawn_at now old = row ∙ ap (withdrawn_at now) one in
      let last = same ∙ after in
      (
        old,
        rw (last, row')
            (record {
              there = there;
              live = live;
              rights = elim (Bool-cases (is_applicant p user_id old d)) [
                | inl y ↦ inl ((is_applicant_iff p user_id old d).0 y)
                | inr n ↦ inr ((eq_iff user_role "ADMIN").0 (ground arith))
              ];
              stored = refl;
              users = refl;
              jobs = refl;
              candidates = refl;
              interviews = refl;
            }),
      )

  find_one-deleted :
      (id user_id user_role : String) (d : Db) (a : Application) (t : ℕ)
      → lookup id d.applications ≡ some a
      → a.deleted_at ≡ some t
      → (find_one p id user_id user_role d).0 ≡ err (application_not_found id)
  unfolding find_one
  find_one-deleted id user_id user_role d a t there gone = ground arith

  -- Once withdrawn, an application is found by nobody, whatever the role: `findOne` answers 404, and
  -- so do `update` and `remove`, which start with it.
  pub find_one-remove :
      (now : ℕ) (id user_id user_role other_id other_role : String) (d : Db)
      → (remove p now id user_id user_role d).0 ≡ ok tt
      → (find_one p id other_id other_role (remove p now id user_id user_role d).1).0
        ≡ err (application_not_found id)
  find_one-remove now id user_id user_role other_id other_role d h =
      let (old, w) = remove-IsWithdrawal now id user_id user_role d h in
      find_one-deleted id other_id other_role (remove p now id user_id user_role d).1
        (record old { status = ApplicationStatus.withdrawn; deleted_at = some now }) now
        (rw w.stored (simp (lookup-insert, eq_refl))) refl
