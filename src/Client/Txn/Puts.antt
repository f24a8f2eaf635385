-- ===== src/Client/Txn/Puts.antt =====
-- The batches of puts that are made of a buffer.
use ancestor.Common.{
  Bytes, ℕ, zero, suc, ◌≤◌, Bool, true, false, Option, none, some, List, [], ◌∷◌, ◌++◌, ◌≡◌, refl,
  sym, ◌∙◌, ap, length, if◌then◌else◌, take, drop, subst, arith, append_assoc, append-nil,
  Bool-cases, Option-cases, inl, inr,
}
use ancestor.Common.Int.{ℤ, eq_ℤ}
use ancestor.Pd.Maps.{eq_ℤ_iff}
use ancestor.Meta.Exec.{ok}
use ancestor.Client.State.{
  Buffer, PutRequest, Call, begin_call, put_call, end_call, Txn, World, Batches, add_put, put_of,
}
use ancestor.Client.Txn.{create_from}

-- The puts that some requests carry to a range, in their order.
unfoldable pub puts_to : ℤ → List Call → List PutRequest
puts_to r [] = []
puts_to r (put_call q l ∷ cs) = (if eq_ℤ q r then l else []) ++ puts_to r cs
puts_to r (begin_call ∷ cs) = puts_to r cs
puts_to r (end_call c t ∷ cs) = puts_to r cs

-- A batch of puts of the largest size or a smaller one.
abbrev pub IsSmallPut : Call → Type 0
IsSmallPut begin_call = ⊥
IsSmallPut (put_call r l) = length l ≤ 1000
IsSmallPut (end_call c t) = ⊥

-- The puts of the entries whose keys are in a range.
unfoldable pub wanted : (Bytes → Option ℤ) → ℤ → List (Bytes × Option Bytes) → List PutRequest
wanted range_of r [] = []
wanted range_of r (e ∷ l) =
    let rest = wanted range_of r l in
    elim (range_of e.0) [ none ↦ rest | some q ↦ if eq_ℤ q r then put_of e ∷ rest else rest ]

pub puts_to-append : (r : ℤ) (a b : List Call) → puts_to r (a ++ b) ≡ puts_to r a ++ puts_to r b
unfolding puts_to
puts_to-append r [] b = refl
puts_to-append r (begin_call ∷ a) b = puts_to-append r a b
puts_to-append r (end_call c t ∷ a) b = puts_to-append r a b
puts_to-append r (put_call q l ∷ a) b =
    ap (λ x. (if eq_ℤ q r then l else []) ++ x) (puts_to-append r a b)
    ∙ sym (append_assoc (if eq_ℤ q r then l else []) (puts_to r a) (puts_to r b))

pub take-drop : {A : Type 0} (n : ℕ) (l : List A) → take n l ++ drop n l ≡ l
take-drop zero l = refl
take-drop (suc n) [] = refl
take-drop (suc n) (x ∷ l) = ap (◌∷◌ x) (take-drop n l)

pub length-take-le : {A : Type 0} (n : ℕ) (l : List A) → length (take n l) ≤ n
length-take-le zero l = omega arith
length-take-le (suc n) [] = omega arith
length-take-le (suc n) (x ∷ l) = omega (arith, length-take-le n l)

pub if_append :
    (b : Bool) (x y : List PutRequest)
    → (if b then x else []) ++ (if b then y else []) ≡ (if b then x ++ y else [])
if_append true x y = refl
if_append false x y = refl

-- What the batches hold for a range.
unfoldable pub gathered : ℤ → Batches → List PutRequest
gathered r [] = []
gathered r ((q, l) ∷ rest) = (if eq_ℤ q r then l else []) ++ gathered r rest

abbrev IsAbsent : ℤ → Batches → Type 0
IsAbsent r [] = Unit
IsAbsent r ((q, l) ∷ rest) = (eq_ℤ q r ≡ false) × IsAbsent r rest

abbrev IsUnique : Batches → Type 0
IsUnique [] = Unit
IsUnique ((q, l) ∷ rest) = IsAbsent q rest × IsUnique rest

gathered_absent : (r : ℤ) (b : Batches) → IsAbsent r b → gathered r b ≡ []
unfolding gathered
gathered_absent r [] h = refl
gathered_absent r ((q, l) ∷ rest) h = ground (arith, h, gathered_absent r rest h.1)

add_put-IsAbsent :
    (q r : ℤ) (p : PutRequest) (b : Batches)
    → eq_ℤ r q ≡ false
    → IsAbsent q b
    → IsAbsent q (add_put r p b)
unfolding add_put
add_put-IsAbsent q r p [] e h = (e, tt)
add_put-IsAbsent q r p ((i, l) ∷ rest) e h = elim (Bool-cases (eq_ℤ i r)) [
  | inl f ↦ rw f h
  | inr f ↦ rw f (h.0, add_put-IsAbsent q r p rest e h.1)
]

add_put-IsUnique : (r : ℤ) (p : PutRequest) (b : Batches) → IsUnique b → IsUnique (add_put r p b)
unfolding add_put
add_put-IsUnique r p [] h = (tt, tt)
add_put-IsUnique r p ((i, l) ∷ rest) h = elim (Bool-cases (eq_ℤ i r)) [
  | inl f ↦ rw f h
  | inr f ↦
      rw f (add_put-IsAbsent i r p rest (ground (arith, f)) h.0, add_put-IsUnique r p rest h.1)
]

gathered-add_put :
    (q r : ℤ) (p : PutRequest) (b : Batches)
    → IsUnique b
    → gathered q (add_put r p b) ≡ gathered q b ++ (if eq_ℤ r q then p ∷ [] else [])
unfolding gathered add_put
gathered-add_put q r p [] h = append-nil _
gathered-add_put q r p ((i, l) ∷ rest) h = elim (Bool-cases (eq_ℤ i r)) [
  | inl f ↦ elim (Bool-cases (eq_ℤ i q)) [
    | inl g ↦
        let none_left : gathered q rest ≡ [] =
          gathered_absent q rest (subst (λ x. IsAbsent x rest) ((eq_ℤ_iff i q).0 g) h.0) in
        let same : eq_ℤ r q ≡ true = ground (arith, f, g) in
        ground (arith, f, g, same, none_left, append-nil l, append-nil (l ++ p ∷ []))
    | inr g ↦
        let other : eq_ℤ r q ≡ false = ground (arith, f, g) in
        ground (arith, f, g, other, append-nil (gathered q rest))
  ]
  | inr f ↦ rw f (
      ap (λ x. (if eq_ℤ i q then l else []) ++ x) (gathered-add_put q r p rest h.1)
      ∙ sym (
          append_assoc (if eq_ℤ i q then l else []) (gathered q rest)
            (if eq_ℤ r q then p ∷ [] else [])))
]

module _ (B : Buffer) (w : World) where
  abbrev T : Type 0
  T = Txn B.Cache

  pub create_from-gathered :
      (q : ℤ) (l : List (Bytes × Option Bytes)) (acc breqs : Batches) (s s' : T)
      → IsUnique acc
      → create_from B w l acc s ≡ (ok breqs, s')
      → (gathered q breqs ≡ gathered q acc ++ wanted w.range_of q l) × (s' ≡ s)
  unfolding create_from wanted
  create_from-gathered q [] acc breqs s s' u h =
      let e : acc ≡ breqs = ground (arith, h) in
      (ap (gathered q) (sym e) ∙ sym (append-nil (gathered q acc)), ground (arith, h))
  create_from-gathered q (e ∷ l) acc breqs s s' u h = elim (Option-cases (w.range_of e.0)) [
    | inl f ↦ absurd (ground (arith, f, h))
    | inr (r, f) ↦
        let (g, same) =
          create_from-gathered q l (add_put r (put_of e) acc) breqs s s'
            (add_put-IsUnique r (put_of e) acc u) (ground (arith, f, h)) in
        (
          g
              ∙ ap (λ x. x ++ wanted w.range_of q l) (gathered-add_put q r (put_of e) acc u)
              ∙ append_assoc (gathered q acc) (if eq_ℤ r q then put_of e ∷ [] else [])
                  (wanted w.range_of q l)
              ∙ ap (λ x. gathered q acc ++ x) (ground (arith, f)),
          same,
        )
  ]
