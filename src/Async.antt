-- ===== src/Async.antt =====
-- The body of an `async` method over a state `S`: it resolves or rejects, and what it wrote before
-- it rejected stays written.
use talent_flow_ai_backend.Prelude.{arith, ◌≡◌, refl, ◌⊎◌, inl, inr, String, Option, none, some}

-- The Nest exceptions that the services throw, each with its message, and any other error: of the
-- database, the store of files, the broker or the runtime.
pub data Exception : Type 0 where
  bad_request unauthorized forbidden not_found conflict internal_server_error : String → Exception
  error : String → Exception

pub data Result {ℓ} (A : Type ℓ) : Type ℓ where
  ok : A → Result A
  err : Exception → Result A

abbrev pub Async {ℓ} : Type ℓ → Type ℓ → Type ℓ
Async S A = S → Result A × S

module _ {ℓ} {S A B : Type ℓ} where
  abbrev pub continue : Result A → (A → Async S B) → Async S B
  continue (ok a) f s = f a s
  continue (err e) f s = (err e, s)

  infixl 5 ◌>>=◌ ◌>>◌
  abbrev pub ◌>>=◌ : Async S A → (A → Async S B) → Async S B
  ◌>>=◌ m f s = continue (m s).0 f (m s).1

  abbrev pub ◌>>◌ : Async S A → Async S B → Async S B
  m >> n = m >>= λ _. n

module _ {ℓ} {S A : Type ℓ} where
  -- `return a`
  abbrev pub pure : A → Async S A
  pure a s = (ok a, s)

  -- `throw e`
  abbrev pub throw : Exception → Async S A
  throw e s = (err e, s)

  abbrev pub gets : (S → A) → Async S A
  gets f s = (ok (f s), s)

  -- `if (!row) throw e`
  abbrev pub or_throw : Option A → Exception → Async S A
  or_throw none e = throw e
  or_throw (some a) e = pure a

module _ {ℓ} {S A : Type ℓ} where
  abbrev pub handle : Result A → (Exception → Async S A) → Async S A
  handle (ok a) h s = (ok a, s)
  handle (err e) h s = h e s

  -- `try { m } catch (e) { h e }`
  abbrev pub attempt : Async S A → (Exception → Async S A) → Async S A
  attempt m h s = handle (m s).0 h (m s).1

module _ {ℓ} {A : Type ℓ} where
  -- To split on how a body ended.
  pub Result-cases : (r : Result A) → ((a : A) × (r ≡ ok a)) ⊎ ((e : Exception) × (r ≡ err e))
  Result-cases (ok a) = inl (a, refl)
  Result-cases (err e) = inr (e, refl)

module _ {ℓ} {S A B : Type ℓ} where
  continue-ok :
      (r : Result A) (f : A → Async S B) (s : S) (b : B)
      → (continue r f s).0 ≡ ok b
      → (a : A) × (r ≡ ok a) × ((f a s).0 ≡ ok b) × (continue r f s ≡ f a s)
  continue-ok (ok a) f s b h = (a, refl, h, refl)
  continue-ok (err e) f s b h = cc

  -- A chain that resolved: each step resolved, and the last left the state.
  pub bind-ok :
      (m : Async S A) (f : A → Async S B) (s : S) (b : B)
      → ((m >>= f) s).0 ≡ ok b
      → (a : A) × ((m s).0 ≡ ok a) × ((f a (m s).1).0 ≡ ok b) × ((m >>= f) s ≡ f a (m s).1)
  bind-ok m f s b h = continue-ok (m s).0 f (m s).1 b h

  continue-err :
      (r : Result A) (f : A → Async S B) (s : S) (e : Exception)
      → (continue r f s).0 ≡ err e
      → (continue r f s ≡ (err e, s))
        ⊎ ((a : A) × (r ≡ ok a) × ((f a s).0 ≡ err e) × (continue r f s ≡ f a s))
  continue-err (ok a) f s e h = inr (a, refl, h, refl)
  continue-err (err x) f s e h = inl (ground arith)

  -- A chain that rejected: the first step did, or it resolved and the rest did.
  pub bind-err :
      (m : Async S A) (f : A → Async S B) (s : S) (e : Exception)
      → ((m >>= f) s).0 ≡ err e
      → ((m >>= f) s ≡ (err e, (m s).1))
        ⊎ ((a : A) × ((m s).0 ≡ ok a) × ((f a (m s).1).0 ≡ err e) × ((m >>= f) s ≡ f a (m s).1))
  bind-err m f s e h = continue-err (m s).0 f (m s).1 e h
