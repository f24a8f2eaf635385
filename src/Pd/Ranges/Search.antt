-- ===== src/Pd/Ranges/Search.antt =====
-- Lookup and a search through all descriptors find the same.
use ancestor.Common.{
  Bytes, ℕ, Option, none, some, List, [], ◌∷◌, ◌≡◌, bytes_less, if◌then◌else◌, arith, Option-cases,
  Bool-cases, bytes_less_total, bytes_less_not_less, inl, inr, true, false, get_elem?, sym, All,
  ◌∙◌, ap,
}
use ancestor.Store.{RangeDescriptor}
use ancestor.Pd.Ranges.{OrderedCache, RangeCache, contains, lookup, iterate, visit, Has}
use ancestor.Pd.Ranges.Held.{held, IsWhole, get_elem?_lt}

-- The first of some descriptors that contains the key.
unfoldable pub first_containing : Bytes → List RangeDescriptor → Option RangeDescriptor
first_containing key [] = none
first_containing key (rd ∷ rds) = if contains rd key then some rd else first_containing key rds

pub contains_parts :
    (a : RangeDescriptor) (key : Bytes)
    → contains a key ≡ true
    → (bytes_less key a.start_key ≡ false) × (bytes_less key a.end_key ≡ true)
unfolding contains
contains_parts a key t = ground (arith, t)

module _ (O : OrderedCache) where
  -- Descriptors stand at their start keys, and one ends where the next starts, or before.
  pub record IsRouted (c : RangeCache O.Cache) : Type 0 where
    pub whole : IsWhole O c
    pub keyed : (k : Bytes) (a : RangeDescriptor) → held O k c ≡ some a → a.start_key ≡ k
    pub apart :
        (j k : Bytes) (a b : RangeDescriptor)
        → held O j c ≡ some a
        → held O k c ≡ some b
        → bytes_less j k ≡ true
        → bytes_less k a.end_key ≡ false

  -- What Lookup finds is there and contains the key.
  pub lookup_sound :
      (c : RangeCache O.Cache) (key : Bytes) (a : RangeDescriptor)
      → IsRouted c
      → lookup O key c ≡ some a
      → (held O a.start_key c ≡ some a) × (contains a key ≡ true)
  unfolding lookup
  lookup_sound c key a w h = elim (Option-cases (O.floor key c.cache)) [
    | inl e ↦ absurd (ground (arith, e, h))
    | inr ((j, r), e) ↦ elim (Option-cases (get_elem? c.objects r)) [
      | inl f ↦ absurd (ground (arith, e, f, h))
      | inr (b, f) ↦
          let there : held O j c ≡ some b =
            unfold held in ground (arith, e, f, O.floor-some key j r c.cache e) in
          (ground (arith, e, f, h, there, w.keyed j b there), ground (arith, e, f, h))
    ]
  ]

  -- Lookup finds the descriptor that contains the key.
  pub lookup_complete :
      (c : RangeCache O.Cache) (key : Bytes) (k : Bytes) (a : RangeDescriptor)
      → IsRouted c
      → held O k c ≡ some a
      → contains a key ≡ true
      → lookup O key c ≡ some a
  unfolding lookup
  lookup_complete c key k a w h t =
      let (from, to) = contains_parts a key t in
      let start : a.start_key ≡ k = w.keyed k a h in
      elim (Option-cases (O.floor key c.cache)) [
        | inl e ↦
            absurd (unfold held in ground (arith, h, from, start, O.floor-none key k c.cache e))
        | inr ((j, r), e) ↦
            let (at_j, before) = O.floor-some key j r c.cache e in
            let (b, f) = get_elem?_lt c.objects r (w.whole j r at_j) in
            let there : held O j c ≡ some b = unfold held in ground (arith, f, at_j) in
            elim (bytes_less_total j k) [
              | inl less ↦ absurd (
                  unfold held in
                  ground (arith, h, from, start, O.floor-greatest key j k r c.cache e less))
              | inr (inl same) ↦
                  let eq : some b ≡ some a = sym there ∙ ap (λ x. held O x c) same ∙ h in
                  ground (arith, e, f, eq, t)
              | inr (inr more) ↦ absurd (
                  cc
                    (before, bytes_less_not_less key a.end_key j to (w.apart k j a b h there more)))
            ]
      ]

  -- A list of places that hold what the cache holds is searched as Lookup searches.
  found_place :
      (c : RangeCache O.Cache) (l : List (Bytes × ℕ)) (key : Bytes) (a : RangeDescriptor)
      → All (λ (e : Bytes × ℕ). O.get e.0 c.cache ≡ some e.1) l
      → first_containing key (visit O c.objects l) ≡ some a
      → (k : Bytes) × (held O k c ≡ some a) × (contains a key ≡ true)
  unfolding visit first_containing
  found_place c [] key a h e = absurd (cc e)
  found_place c ((j, r) ∷ l) key a h e = elim (Option-cases (get_elem? c.objects r)) [
    | inl f ↦ found_place c l key a h.1 (ground (arith, e, f))
    | inr (b, f) ↦ elim (Bool-cases (contains b key)) [
      | inl t ↦ (j, unfold held in ground (arith, h.0, e, f, t), ground (arith, e, f, t))
      | inr t ↦ found_place c l key a h.1 (ground (arith, e, f, t))
    ]
  ]

  missed_place :
      (c : RangeCache O.Cache) (l : List (Bytes × ℕ)) (key k : Bytes) (r : ℕ) (a : RangeDescriptor)
      → Has k r l
      → get_elem? c.objects r ≡ some a
      → first_containing key (visit O c.objects l) ≡ none
      → contains a key ≡ false
  unfolding visit first_containing
  missed_place c [] key k r a h f e = elim h [ ]
  missed_place c ((j, q) ∷ l) key k r a (inl (p, s)) f e = ground (arith, p, s, f, e)
  missed_place c ((j, q) ∷ l) key k r a (inr h) f e = elim (Option-cases (get_elem? c.objects q)) [
    | inl g ↦ missed_place c l key k r a h f (ground (arith, e, g))
    | inr (b, g) ↦ elim (Bool-cases (contains b key)) [
      | inl t ↦ absurd (ground (arith, e, g, t))
      | inr t ↦ missed_place c l key k r a h f (ground (arith, e, g, t))
    ]
  ]

  -- In a cache whose descriptors stand at their start keys and end before the next one, Lookup
  -- finds the one that a search through all that Iterate visits finds first, or nothing as it.
  pub lookup-eq-search :
      (c : RangeCache O.Cache) (key : Bytes)
      → IsRouted c
      → lookup O key c ≡ first_containing key (iterate O c)
  lookup-eq-search c key w = elim (Option-cases (first_containing key (iterate O c))) [
    | inl e ↦ elim (Option-cases (lookup O key c)) [
      | inl f ↦ f ∙ sym e
      | inr (a, f) ↦
          let (there, t) = lookup_sound c key a w f in
          elim (Option-cases (O.get a.start_key c.cache)) [
            | inl g ↦ absurd (unfold held in ground (arith, there, g))
            | inr (r, g) ↦ absurd (
                cc (
                  t,
                  missed_place c (O.entries c.cache) key a.start_key r a
                      (O.get-entries c.cache a.start_key r g)
                      (unfold held in ground (arith, there, g)) (unfold iterate in e),
                ))
          ]
    ]
    | inr (a, e) ↦
        let (k, there, t) =
          found_place c (O.entries c.cache) key a (O.entries-get c.cache) (unfold iterate in e) in
        lookup_complete c key k a w there t ∙ sym e
  ]
