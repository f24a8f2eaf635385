-- ===== src/Pd/Ranges/Memory.antt =====
-- An ordered cache as a list of pairs, which is searched whole.
use ancestor.Common.{
  bytes_less_irrefl, bytes_less_total, bytes_less_trans, bytes_less_asym, ◌∙◌, Bytes, ℕ, Option,
  none, some, List, [], ◌∷◌, ◌≡◌, All, bytes_less, bytes_equal, bytes_equal_iff, if◌then◌else◌,
  arith, Option-cases, Bool-cases, inl, inr, true, false, refl,
}
use ancestor.Pd.Cluster.{find, assign, delete}
use ancestor.Pd.Maps.{find-delete, find-assign}
use ancestor.Pd.Ranges.{OrderedCache, Has}

abbrev Pairs : Type 0
Pairs = List (Bytes × ℕ)

-- The entry or the best of the others, whichever is greater.
abbrev better : Bytes × ℕ → Option (Bytes × ℕ) → Option (Bytes × ℕ)
better e none = some e
better e (some o) = if bytes_less e.0 o.0 then some o else some e

unfoldable pub greatest : Bytes → Pairs → Option (Bytes × ℕ)
greatest k [] = none
greatest k (e ∷ l) = let rest = greatest k l in if bytes_less k e.0 then rest else better e rest

unfoldable pub visible : Pairs → Pairs
visible [] = []
visible (e ∷ l) = e ∷ delete bytes_equal e.0 (visible l)

pub greatest-none :
    (k j : Bytes) (c : Pairs)
    → greatest k c ≡ none
    → bytes_less k j ≡ false
    → find bytes_equal j c ≡ none
unfolding greatest find
greatest-none k j [] h f = refl
greatest-none k j ((i, r) ∷ l) h f = elim (Option-cases (greatest k l)) [
  | inl e ↦ ground (arith, h, f, e, bytes_equal_iff i j, greatest-none k j l)
  | inr (o, e) ↦ elim (Bool-cases (bytes_less i o.0)) [
    | inl g ↦ ground (arith, h, f, e, g, bytes_equal_iff i j)
    | inr g ↦ ground (arith, h, f, e, g, bytes_equal_iff i j)
  ]
]

pub greatest-some :
    (k j : Bytes) (r : ℕ) (c : Pairs)
    → greatest k c ≡ some (j, r)
    → (find bytes_equal j c ≡ some r) × (bytes_less k j ≡ false)
unfolding greatest find
greatest-some k j r [] h = absurd (cc h)
greatest-some k j r ((i, q) ∷ l) h = elim (Bool-cases (bytes_less k i)) [
  | inl a ↦
      let ih = greatest-some k j r l (ground (arith, h, a)) in
      (ground (arith, ih, a, bytes_equal_iff i j), ih.1)
  | inr a ↦ elim (Option-cases (greatest k l)) [
    | inl e ↦ (ground (arith, h, a, e, bytes_equal_iff i j), ground (arith, h, a, e))
    | inr ((m, s), e) ↦ elim (Bool-cases (bytes_less i m)) [
      | inl g ↦
          let ih = greatest-some k j r l (ground (arith, h, a, e, g)) in
          (ground (arith, ih, h, a, e, g, bytes_equal_iff i j, bytes_less_irrefl i), ih.1)
      | inr g ↦ (ground (arith, h, a, e, g, bytes_equal_iff i j), ground (arith, h, a, e, g))
    ]
  ]
]

above_greatest :
    (m i o : Bytes) → bytes_less m i ≡ true → bytes_less m o ≡ false → bytes_less o i ≡ true
above_greatest m i o h f = elim (bytes_less_total o i) [
  | inl e ↦ e
  | inr (inl e) ↦ absurd (cc (h, f, e))
  | inr (inr e) ↦ absurd (cc (f, bytes_less_trans m i o h e))
]

pub greatest-greatest :
    (k j i : Bytes) (r : ℕ) (c : Pairs)
    → greatest k c ≡ some (j, r)
    → bytes_less j i ≡ true
    → bytes_less k i ≡ false
    → find bytes_equal i c ≡ none
unfolding greatest find
greatest-greatest k j i r [] h f g = refl
greatest-greatest k j i r ((m, q) ∷ l) h f g = elim (Bool-cases (bytes_less k m)) [
  | inl a ↦
      ground
        (arith, a, g, greatest-greatest k j i r l (ground (arith, h, a)) f g, bytes_equal_iff m i)
  | inr a ↦ elim (Option-cases (greatest k l)) [
    | inl e ↦
        ground
          (arith, h, a, e, f, greatest-none k i l e g, bytes_equal_iff m i, bytes_less_irrefl i)
    | inr ((o, s), e) ↦ elim (Bool-cases (bytes_less m o)) [
      | inl t ↦
          let eq : ◌≡◌ {A = Option (Bytes × ℕ)} (some (o, s)) (some (j, r)) =
            ground (arith, h, a, e, t) in
          ground (
            arith,
            t,
            f,
            eq,
            greatest-greatest k j i r l (e ∙ eq) f g,
            bytes_equal_iff m i,
            bytes_less_irrefl i,
            bytes_less_trans i j i,
            bytes_less_asym m o t,
          )
      | inr t ↦
          let eq : ◌≡◌ {A = Option (Bytes × ℕ)} (some (m, q)) (some (j, r)) =
            ground (arith, h, a, e, t) in
          let less : bytes_less m i ≡ true = ground (arith, eq, f) in
          ground (
            arith,
            less,
            greatest-greatest k o i s l e (above_greatest m i o less t) g,
            bytes_equal_iff m i,
            bytes_less_irrefl i,
          )
    ]
  ]
]

delete-All :
    (P : Bytes × ℕ → Type 0) (k : Bytes) (l : Pairs)
    → All P l
    → All (λ e. P e × (bytes_equal k e.0 ≡ false)) (delete bytes_equal k l)
unfolding delete
delete-All P k [] h = tt
delete-All P k (e ∷ l) h = elim (Bool-cases (bytes_equal e.0 k)) [
  | inl f ↦ rw f (delete-All P k l h.1)
  | inr f ↦
      rw f (
        (h.0, ground (arith, f, bytes_equal_iff k e.0, bytes_equal_iff e.0 k)),
        delete-All P k l h.1,
      )
]

All-map : (P Q : Bytes × ℕ → Type 0) (l : Pairs) → ((e : Bytes × ℕ) → P e → Q e) → All P l → All Q l
All-map P Q [] f h = tt
All-map P Q (e ∷ l) f h = (f e h.0, All-map P Q l f h.1)

pub visible-find :
    (c : Pairs) → All (λ (e : Bytes × ℕ). find bytes_equal e.0 c ≡ some e.1) (visible c)
unfolding visible find
visible-find [] = tt
visible-find ((k, r) ∷ l) = (
  ground (arith, bytes_equal_iff k k),
  All-map (λ e. (find bytes_equal e.0 l ≡ some e.1) × (bytes_equal k e.0 ≡ false)) _
      (delete bytes_equal k (visible l)) (λ e h. ground (arith, h))
      (delete-All (λ (e : Bytes × ℕ). find bytes_equal e.0 l ≡ some e.1) k (visible l)
        (visible-find l)),
)

Has-delete :
    (k j : Bytes) (r : ℕ) (l : Pairs)
    → bytes_equal k j ≡ false
    → Has j r l
    → Has j r (delete bytes_equal k l)
unfolding delete
Has-delete k j r [] f h = h
Has-delete k j r ((i, q) ∷ l) f (inl (p, s)) =
    let e : bytes_equal i k ≡ false =
      ground (arith, f, p, bytes_equal_iff i k, bytes_equal_iff k j) in
    rw e (inl (p, s))
Has-delete k j r ((i, q) ∷ l) f (inr h) = elim (Bool-cases (bytes_equal i k)) [
  | inl e ↦ rw e (Has-delete k j r l f h)
  | inr e ↦ rw e (inr (Has-delete k j r l f h))
]

pub find-visible :
    (c : Pairs) (k : Bytes) (r : ℕ) → find bytes_equal k c ≡ some r → Has k r (visible c)
unfolding visible find
find-visible [] k r h = absurd (cc h)
find-visible ((j, q) ∷ l) k r h = elim (Bool-cases (bytes_equal j k)) [
  | inl e ↦ inl (ground (arith, e, bytes_equal_iff j k), ground (arith, h, e))
  | inr e ↦ inr (Has-delete j k r (visible l) e (find-visible l k r (ground (arith, h, e))))
]

abbrev pub memory_cache : OrderedCache
memory_cache = record {
  Cache = Pairs;
  get = find bytes_equal;
  add = assign bytes_equal;
  del = delete bytes_equal;
  floor = greatest;
  entries = visible;
  get-add = λ k j r c. find-assign bytes_equal bytes_equal_iff k j r c;
  get-del = λ k j c. find-delete bytes_equal bytes_equal_iff k j c;
  floor-none = greatest-none;
  floor-some = λ k j r c. greatest-some k j r c;
  floor-greatest = greatest-greatest;
  entries-get = visible-find;
  get-entries = find-visible;
}
