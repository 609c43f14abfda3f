-- ===== src/Result.antt =====
-- What a Go function that may fail returns, and a method that changes a state of type `S`. What a
-- method has changed before it fails stays changed, so the state comes back beside an error too.
pub mod Plain
use coriolis_snapshot_agent.Common.{◌≡◌, refl, ◌⊎◌, inl, inr, Bool, true, false, arith}
use coriolis_snapshot_agent.Errors.{Error, wrap}

pub data Result {ℓ} (A : Type ℓ) : Type ℓ where
  ok : A → Result A
  err : Error → Result A

-- `return errors.Wrap(err, …)`
abbrev pub wrapped {ℓ} : {A : Type ℓ} → Result A → Result A
wrapped (ok a) = ok a
wrapped (err e) = err (wrap e)

-- `if b { return err }`
abbrev pub check : Bool → Error → Result (Unit {0})
check true e = err e
check false e = ok tt

abbrev pub and_then : {A B : Type 0} → Result A → (A → Result B) → Result B
and_then (ok a) f = f a
and_then (err e) f = err e

-- What succeeds in two steps succeeds in each.
pub and_then-ok :
    {A B : Type 0} (r : Result A) (f : A → Result B) (b : B)
    → and_then r f ≡ ok b
    → (a : A) × (r ≡ ok a) × (f a ≡ ok b)
and_then-ok (ok a) f b h = (a, refl, h)
and_then-ok (err e) f b h = absurd (cc (h))

pub wrapped-ok : {A : Type 0} (r : Result A) (a : A) → wrapped r ≡ ok a → r ≡ ok a
wrapped-ok (ok a) b h = h
wrapped-ok (err e) b h = absurd (cc)

pub check-ok : (b : Bool) (e : Error) (a : Unit {0}) → check b e ≡ ok a → b ≡ false
check-ok true e a h = absurd (cc)
check-ok false e a h = refl

abbrev pub Action : Type 0 → Type 0 → Type 0
Action S A = S → Result A × S

module _ {S A : Type 0} where
  abbrev pub pure : A → Action S A
  pure a s = (ok a, s)

  abbrev pub raise : Error → Action S A
  raise e s = (err e, s)

  abbrev pub gets : (S → A) → Action S A
  gets f s = (ok (f s), s)

  abbrev pub lift : Result A → Action S A
  lift r s = (r, s)

  -- The error of `m` wrapped once.
  abbrev pub wrapping : Action S A → Action S A
  wrapping m s = let (r, s') = m s in (wrapped r, s')

  -- The outcome as a value, for code that looks at the error.
  abbrev pub attempt : Action S A → Action S (Result A)
  attempt m s = let (r, s') = m s in (ok r, s')

module _ {S : Type 0} where
  abbrev pub modify : (S → S) → Action S (Unit {0})
  modify f s = (ok tt, f s)

infixl 5 ◌>>=◌ ◌>>◌
abbrev pub ◌>>=◌ : {S A B : Type 0} → Action S A → (A → Action S B) → Action S B
◌>>=◌ m f s = let (r, s') = m s in elim r [ ok a ↦ f a s' | err e ↦ (err e, s') ]

abbrev pub ◌>>◌ : {S B : Type 0} → Action S (Unit {0}) → Action S B → Action S B
m >> k = m >>= λ _. k

-- `defer func() { if err != nil { … } }()`, for what `m` does after it.
abbrev pub on_error : {S A : Type 0} → Action S (Unit {0}) → Action S A → Action S A
on_error clean m s =
    let (r, t) = m s in
    elim r [ ok a ↦ (ok a, t) | err e ↦ (let (done, u) = clean t in (err e, u)) ]

abbrev pub is_ok {ℓ} : {A : Type ℓ} → Result A → Bool
is_ok (ok a) = true
is_ok (err e) = false

pub Result-cases {ℓ} :
    {A : Type ℓ} (r : Result A) → ((a : A) × (r ≡ ok a)) ⊎ ((e : Error) × (r ≡ err e))
Result-cases (ok a) = inl (a, refl)
Result-cases (err e) = inr (e, refl)

-- What succeeds in two steps succeeds in each.
pub bind-ok :
    {S A B : Type 0} (m : Action S A) (f : A → Action S B) (s t : S) (b : B)
    → (m >>= f) s ≡ (ok b, t)
    → (a : A) × (u : S) × (m s ≡ (ok a, u)) × (f a u ≡ (ok b, t))
bind-ok m f s t b h = elim (Result-cases ((m s).0)) [
  | inl (a, e) ↦ (a, (m s).1, ground (arith, e), ground (arith, e, h))
  | inr (x, e) ↦ absurd (ground (arith, e, h))
]

pub wrapping-ok :
    {S A : Type 0} (m : Action S A) (s t : S) (a : A) → wrapping m s ≡ (ok a, t) → m s ≡ (ok a, t)
wrapping-ok m s t a h = elim (Result-cases ((m s).0)) [
  | inl (b, e) ↦ ground (arith, e, h)
  | inr (x, e) ↦ absurd (ground (arith, e, h))
]

pub on_error-ok :
    {S A : Type 0} (clean : Action S (Unit {0})) (m : Action S A) (s t : S) (a : A)
    → on_error clean m s ≡ (ok a, t)
    → m s ≡ (ok a, t)
on_error-ok clean m s t a h = elim (Result-cases ((m s).0)) [
  | inl (b, e) ↦ ground (arith, e, h)
  | inr (x, e) ↦ absurd (ground (arith, e, h))
]
