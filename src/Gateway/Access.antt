-- ===== src/Gateway/Access.antt =====
-- Whom the guards let through, on every controller.
use talent_flow_ai_backend.Prelude.{
  ℕ, String, Option, none, some, List, Bool, true, false, ◌≡◌, ◌⊎◌, ◌∙◌, inl, inr, refl, ap, arith,
  lookup, Bool-cases, subst,
}
use talent_flow_ai_backend.Model.{User, Role, Db}
use talent_flow_ai_backend.Async.{Result-cases, ok, err, Exception, unauthorized, forbidden}
use talent_flow_ai_backend.Auth.Service.{PublicUser, TokenPayload, public_user}
use talent_flow_ai_backend.Auth.Guards.{
  validate, validate-ok_iff, validate-err, validate-deleted, can_activate, can_activate_iff,
  IsOneOf,
}
use talent_flow_ai_backend.Gateway.{Controller, authenticate, jwt_auth_guard, admit, serve}

module _ {State Route Reply : Type 0} (db : State → Db) (c : Controller State Route Reply) where
  -- The request was handled for the account that its token names, as that is stored.
  pub record IsHandled (token : Option TokenPayload) (route : Route) (s : State) : Type 0 where
    pub payload : TokenPayload
    pub user : User
    pub named : token ≡ some payload
    pub stored : lookup payload.sub (db s).users ≡ some user
    pub lives : user.deleted_at ≡ none
    pub allowed : (rs : List Role) → c.roles route ≡ some rs → IsOneOf user.role rs
    pub runs : serve db c token route s ≡ c.handle (some (public_user user)) route s

  -- The request was refused with 401 or 403, and nothing has changed.
  abbrev pub IsRefused : Option TokenPayload → Route → State → Type 0
  IsRefused token route s =
      (message : String) × ((serve db c token route s ≡ (err (unauthorized message), s))
        ⊎ (serve db c token route s ≡ (err (forbidden message), s)))

  guard-ok :
      (payload : TokenPayload) (d : Db) (a : PublicUser) (public : Bool)
      → public ≡ false
      → validate payload.sub d ≡ ok a
      → jwt_auth_guard public (some payload) d ≡ ok (some a)
  unfolding jwt_auth_guard authenticate
  guard-ok payload d a public private h = rw (private, jwt_auth_guard, authenticate, h) refl

  guard-err :
      (token : Option TokenPayload) (d : Db) (e : Exception) (public : Bool)
      → public ≡ false
      → authenticate token d ≡ err e
      → jwt_auth_guard public token d ≡ err e
  unfolding jwt_auth_guard
  guard-err token d e public private h = rw (private, jwt_auth_guard, h) refl

  serve-ok :
      (token : Option TokenPayload) (user : Option PublicUser) (route : Route) (s : State)
      → jwt_auth_guard (c.is_public route) token (db s) ≡ ok user
      → serve db c token route s ≡ admit db c user route s
  unfolding serve admit
  serve-ok token user route s h = rw (serve, h) refl

  serve-err :
      (token : Option TokenPayload) (e : Exception) (route : Route) (s : State)
      → jwt_auth_guard (c.is_public route) token (db s) ≡ err e
      → serve db c token route s ≡ (err e, s)
  unfolding serve
  serve-err token e route s h = rw (serve, h) refl

  allowed-roles :
      (required : Option (List Role)) (role : Role)
      → can_activate required (some role) ≡ true
      → (rs : List Role) → required ≡ some rs
      → IsOneOf role rs
  allowed-roles required role h rs e = elim ((can_activate_iff required (some role)).0 h) [
    | inl n ↦ absurd (ground arith)
    | inr (qs, r, f, g, m) ↦
        let same : qs ≡ rs = ground (arith, e, f) in
        let own : r ≡ role = ground (arith, g) in
        subst (λ x. IsOneOf x rs) own (subst (λ xs. IsOneOf r xs) same m)
  ]

  admit-cases :
      (payload : TokenPayload) (route : Route) (s : State) (u : User)
      → c.is_public route ≡ false
      → lookup payload.sub (db s).users ≡ some u
      → u.deleted_at ≡ none
      → validate payload.sub (db s) ≡ ok (public_user u)
      → IsHandled (some payload) route s ⊎ IsRefused (some payload) route s
  unfolding admit
  admit-cases payload route s u private there live h =
      let served =
        serve-ok (some payload) (some (public_user u)) route s
          (guard-ok payload (db s) (public_user u) (c.is_public route) private h) in
      elim (Bool-cases (can_activate (c.roles route) (some u.role))) [
        | inl y ↦ inl (record {
          payload = payload;
          user = u;
          named = refl;
          stored = there;
          lives = live;
          allowed = allowed-roles (c.roles route) u.role y;
          runs = served ∙ rw y refl;
        })
        | inr n ↦ inr ("Forbidden resource", inr (served ∙ rw n refl))
      ]

  -- A request to a route that is not public either is handled for the account that its verified
  -- token names, which is stored and not deleted, with the role that it has now, one of those that
  -- the route asks for if it asks for any; or it is refused with 401 or 403 and changes nothing.
  pub serve-IsHandled :
      (token : Option TokenPayload) (route : Route) (s : State)
      → c.is_public route ≡ false
      → IsHandled token route s ⊎ IsRefused token route s
  unfolding authenticate
  serve-IsHandled none route s private = inr (
    "Unauthorized",
    inl (
        serve-err none (unauthorized "Unauthorized") route s
          (guard-err none (db s) (unauthorized "Unauthorized") (c.is_public route) private refl)),
  )
  serve-IsHandled (some payload) route s private =
      elim (Result-cases (validate payload.sub (db s))) [
        | inl (a, h) ↦
            let (u, there, live, same) = (validate-ok_iff payload.sub (db s) a).0 h in
            admit-cases payload route s u private there live (h ∙ ap ok same)
        | inr (e, h) ↦
            let (m, refusal) = validate-err payload.sub (db s) e h in
            inr (
              m,
              inl (
                  serve-err (some payload) (unauthorized m) route s (
                    guard-err (some payload) (db s) (unauthorized m) (c.is_public route) private
                      (h ∙ ap err refusal))),
            )
      ]

  -- A request whose token names an account that is deleted is refused with 401 and changes nothing,
  -- on every route that is not public.
  pub serve-deleted :
      (payload : TokenPayload) (route : Route) (s : State) (u : User) (t : ℕ)
      → c.is_public route ≡ false
      → lookup payload.sub (db s).users ≡ some u
      → u.deleted_at ≡ some t
      → serve db c (some payload) route s ≡ (err (unauthorized "User not found or deleted"), s)
  unfolding authenticate
  serve-deleted payload route s u t private there gone =
      serve-err (some payload) (unauthorized "User not found or deleted") route s (
        guard-err (some payload) (db s) (unauthorized "User not found or deleted")
          (c.is_public route) private (validate-deleted payload.sub (db s) u t there gone))
