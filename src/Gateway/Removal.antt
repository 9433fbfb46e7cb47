-- ===== src/Gateway/Removal.antt =====
-- An account that is removed through the controller of users, at the guards of every controller.
use talent_flow_ai_backend.Prelude.{
  ℕ, String, Option, none, some, ◌≡◌, ◌≢◌, ◌∙◌, inl, inr, refl, ap, sym, arith, lookup,
  lookup-insert, eq_refl, false, [], ◌∷◌,
}
use talent_flow_ai_backend.Model.{User, Role, Db, admin}
use talent_flow_ai_backend.Async.{ok, err, unauthorized, bind-ok, pure, forbidden}
use talent_flow_ai_backend.Prisma.{PrismaClient}
use talent_flow_ai_backend.Prisma.Laws.{PrismaLaws}
use talent_flow_ai_backend.Auth.Service.{TokenPayload, public_user}
use talent_flow_ai_backend.Auth.Guards.{IsOneOf}
use talent_flow_ai_backend.Users.Service.{soft_delete_user, deleted_at_time}
use talent_flow_ai_backend.Users.Deletion.{soft_delete_user-IsRewritten}
use talent_flow_ai_backend.Users.Controller.{Reply, remove, no_content, controller, handle}
use talent_flow_ai_backend.Gateway.{Controller, serve}
use talent_flow_ai_backend.Gateway.Access.{serve-IsHandled, serve-deleted}

only_admin : (r : Role) → IsOneOf r (admin ∷ []) → r ≡ admin
only_admin r m = elim m [ inl e ↦ e | inr x ↦ absurd x ]

not_ok : (m : String) (r : Reply) → err (unauthorized m) ≢ ok r
not_ok m r h = ground arith

not_allowed : (m : String) (r : Reply) → err (forbidden m) ≢ ok r
not_allowed m r h = ground arith

module _ (p : PrismaClient) (laws : PrismaLaws p) (now : ℕ) where
  -- The answer of the controller to a removal, taken apart
  handle-removal :
      (u : User) (id : String) (d : Db) (r : Reply)
      → (handle p now (some (public_user u)) (remove id) d).0 ≡ ok r
      → ((soft_delete_user p now id d).0 ≡ ok tt)
        × (handle p now (some (public_user u)) (remove id) d).1 ≡ (soft_delete_user p now id d).1
  unfolding handle
  handle-removal u id d r h =
      let (a, first, rest, same) =
        bind-ok (soft_delete_user p now id) (λ x. pure no_content) d r h in
      (first, ap (λ x. x.1) same)

  soft_delete_user-lookup :
      (id : String) (d : Db)
      → (soft_delete_user p now id d).0 ≡ ok tt
      → (old : User) × (lookup id (soft_delete_user p now id d).1.users
          ≡ some (deleted_at_time now old))
  soft_delete_user-lookup id d h =
      let (write, profile, change, again) =
        soft_delete_user-IsRewritten p laws now id admin now d h in
      let (old, (there, live, after)) = write in (old, rw after (simp (lookup-insert, eq_refl)))

  -- A removal of an account that is answered was asked with the token of an administrator, stored
  -- and not deleted; and on the database that it leaves every request with a token of the removed
  -- account is refused with 401 and changes nothing, on each route of each controller that is not
  -- public, whatever role the token names.
  pub serve-after_removal :
      {State Route Reply' : Type 0} (db : State → Db) (c : Controller State Route Reply')
      (token : Option TokenPayload) (id : String) (d : Db) (r : Reply)
      → (serve (λ e. e) (controller p now) token (remove id) d).0 ≡ ok r
      → ((payload : TokenPayload) × (u : User) × (token ≡ some payload)
          × (lookup payload.sub d.users ≡ some u)
          × (u.deleted_at ≡ none)
          × (u.role ≡ admin))
        × ((payload : TokenPayload) (route : Route) (s : State)
            → db s ≡ (serve (λ e. e) (controller p now) token (remove id) d).1
            → payload.sub ≡ id
            → c.is_public route ≡ false
            → serve db c (some payload) route s
              ≡ (err (unauthorized "User not found or deleted"), s))
  serve-after_removal db c token id d r h =
      elim (serve-IsHandled (λ e. e) (controller p now) token (remove id) d refl) [
        | inl y ↦
            let h' : (handle p now (some (public_user y.user)) (remove id) d).0 ≡ ok r =
              sym (ap (λ x. x.0) y.runs) ∙ h in
            let (done, state) = handle-removal y.user id d r h' in
            let (old, there) = soft_delete_user-lookup id d done in
            let after : (serve (λ e. e) (controller p now) token (remove id) d).1
                ≡ (soft_delete_user p now id d).1 =
              ap (λ x. x.1) y.runs ∙ state in
            (
              (
                y.payload,
                y.user,
                y.named,
                y.stored,
                y.lives,
                only_admin y.user.role (y.allowed (admin ∷ []) refl),
              ),
              λ payload route s e sub private.
                  serve-deleted db c payload route s (deleted_at_time now old) now private
                    (ap (λ k. lookup k (db s).users) sub
                      ∙ ap (λ x. lookup id x.users) (e ∙ after)
                      ∙ there)
                    refl,
            )
        | inr (m, x) ↦ absurd (elim x [
          | inl e ↦ not_ok m r (sym (ap (λ x. x.0) e) ∙ h)
          | inr e ↦ not_allowed m r (sym (ap (λ x. x.0) e) ∙ h)
        ])
      ]
