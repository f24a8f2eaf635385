-- ===== src/Meta/Exec.antt =====
-- Go functions that change what they are handed and return an error: the state comes back beside
-- the error, since what was written before it stays written. A panic is a result of its own.
use ancestor.Common.{none, some, Bool, Option, if◌then◌else◌, ◌≡◌, refl, ap}
use ancestor.Meta.Message.{Error}

pub data Result {ℓ} (A : Type ℓ) : Type ℓ where
  ok : A → Result A
  err : Error → Result A
  panic : Result A

abbrev pub Exec {ℓ} : Type ℓ → Type ℓ → Type ℓ
Exec S A = S → Result A × S

module _ {ℓ} {S A : Type ℓ} where
  abbrev pub pure : A → Exec S A
  pure a s = (ok a, s)

  abbrev pub raise : Error → Exec S A
  raise e s = (err e, s)

  abbrev pub crash : Exec S A
  crash s = (panic, s)

  abbrev pub gets : (S → A) → Exec S A
  gets f s = (ok (f s), s)

module _ {ℓ} {S : Type ℓ} where
  abbrev pub raise_if : Bool → Error → Exec S (Unit {ℓ})
  raise_if b e s = (if b then err e else ok tt, s)

  abbrev pub or_raise : {A : Type ℓ} → Option A → Error → Exec S A
  or_raise o e s = (elim o [ none ↦ err e | some a ↦ ok a ], s)

infixl 5 ◌>>=◌ ◌>>◌
abbrev pub ◌>>=◌ {ℓ} : {S A B : Type ℓ} → Exec S A → (A → Exec S B) → Exec S B
◌>>=◌ m f s =
    let (r, s') = m s in elim r [ ok a ↦ f a s' | err e ↦ (err e, s') | panic ↦ (panic, s') ]

abbrev pub ◌>>◌ {ℓ} : {S A B : Type ℓ} → Exec S A → Exec S B → Exec S B
m >> k = m >>= λ _. k

continue-eq-ok {ℓ} :
    {S A B : Type ℓ} (x : Result A × S) (f : A → Exec S B) (b : B) (s' : S)
    → ◌≡◌ {ℓ} {A = Result B × S}
        (elim x.0 [ ok a ↦ f a x.1 | err e ↦ (err e, x.1) | panic ↦ (panic, x.1) ])
        (ok b, s')
    → (a : A) × (s₁ : S) × (x ≡ (ok a, s₁)) × (f a s₁ ≡ (ok b, s'))
continue-eq-ok (ok a, s) f b s' h = (a, s, refl, h)
continue-eq-ok (err e, s) f b s' h = absurd (cc h)
continue-eq-ok (panic, s) f b s' h = absurd (cc h)

-- Both parts of a sequence that succeeds have succeeded.
pub >>=-eq-ok {ℓ} :
    {S A B : Type ℓ} (m : Exec S A) (f : A → Exec S B) (b : B) (s s' : S)
    → (m >>= f) s ≡ (ok b, s')
    → (a : A) × (s₁ : S) × (m s ≡ (ok a, s₁)) × (f a s₁ ≡ (ok b, s'))
>>=-eq-ok m f b s s' h = continue-eq-ok (m s) f b s' h

-- A sequence goes on with what its first part returns.
pub >>=-ok {ℓ} :
    {S A B : Type ℓ} (m : Exec S A) (f : A → Exec S B) (a : A) (s s₁ : S)
    → m s ≡ (ok a, s₁)
    → (m >>= f) s ≡ f a s₁
>>=-ok {S = S} {A = A} {B = B} m f a s s₁ h =
    ap
      (λ (x : Result A × S). elim x.0 as (λ _. Result B × S) [
        | ok b ↦ f b x.1
        | err e ↦ (err e, x.1)
        | panic ↦ (panic, x.1)
      ])
      h

pub >>=-err {ℓ} :
    {S A B : Type ℓ} (m : Exec S A) (f : A → Exec S B) (e : Error) (s s₁ : S)
    → m s ≡ (err e, s₁)
    → (m >>= f) s ≡ (err e, s₁)
>>=-err {S = S} {A = A} {B = B} m f e s s₁ h =
    ap
      (λ (x : Result A × S). elim x.0 as (λ _. Result B × S) [
        | ok b ↦ f b x.1
        | err e ↦ (err e, x.1)
        | panic ↦ (panic, x.1)
      ])
      h

-- A value or an error that the caller looks at.
pub data Tried {ℓ} (A : Type ℓ) : Type ℓ where
  worked : A → Tried A
  refused : Error → Tried A

abbrev pub tried {ℓ} : {S A : Type ℓ} → Result A × S → Result (Tried A) × S
tried (ok a, s) = (ok (worked a), s)
tried (err e, s) = (ok (refused e), s)
tried (panic, s) = (panic, s)

abbrev pub attempt {ℓ} : {S A : Type ℓ} → Exec S A → Exec S (Tried A)
attempt m s = tried (m s)

pub >>=-panic {ℓ} :
    {S A B : Type ℓ} (m : Exec S A) (f : A → Exec S B) (s s₁ : S)
    → m s ≡ (panic, s₁)
    → (m >>= f) s ≡ (panic, s₁)
>>=-panic {S = S} {A = A} {B = B} m f s s₁ h =
    ap
      (λ (x : Result A × S). elim x.0 as (λ _. Result B × S) [
        | ok b ↦ f b x.1
        | err e ↦ (err e, x.1)
        | panic ↦ (panic, x.1)
      ])
      h
