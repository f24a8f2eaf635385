-- ===== src/Pd/Ranges/Halves.antt =====
-- The descriptors of the two halves of a range take its place.
use ancestor.Common.{
  Bytes, ◌⊎◌, ◌≢◌, some, [], ◌∷◌, ◌≡◌, bytes_less, bytes_equal, bytes_equal_iff, if◌then◌else◌,
  arith, Option-cases, Bool-cases, bytes_less_total, bytes_less_irrefl, bytes_less_trans,
  bytes_less_asym, inl, inr, true, false, sym, ◌∙◌, ap,
}
use ancestor.Store.{RangeDescriptor}
use ancestor.Pd.Ranges.{OrderedCache, RangeCache, contains, lookup, add_ranges}
use ancestor.Pd.Ranges.Held.{held, add-IsWhole, held-add}
use ancestor.Pd.Ranges.Search.{IsRouted, lookup_sound, lookup_complete, contains_parts}

-- Two ranges that meet at a key inside the old one.
pub record IsSplit (old prev post : RangeDescriptor) : Type 0 where
  pub above : bytes_less old.start_key post.start_key ≡ true
  pub below : bytes_less post.start_key old.end_key ≡ true
  pub same_start : prev.start_key ≡ old.start_key
  pub meet : prev.end_key ≡ post.start_key
  pub same_end : post.end_key ≡ old.end_key

module _ (O : OrderedCache) (c : RangeCache O.Cache) (old prev post : RangeDescriptor)
    (w : IsRouted O c) (known : held O old.start_key c ≡ some old)
    (sp : IsSplit old prev post) where
  abbrev split_cache : RangeCache O.Cache
  split_cache = add_ranges O (post ∷ prev ∷ []) c

  held-split :
      (k : Bytes)
      → held O k split_cache ≡ (
          if bytes_equal prev.start_key k
          then some prev
          else if bytes_equal post.start_key k
          then some post
          else held O k c)
  unfolding add_ranges
  held-split k =
      held-add O prev _ k (add-IsWhole O post c w.whole)
      ∙ ap (λ x. if bytes_equal prev.start_key k then some prev else x)
          (held-add O post c k w.whole)

  abbrev Cases : Bytes → RangeDescriptor → Type 0
  Cases k a =
      ((k ≡ old.start_key) × (a ≡ prev))
      ⊎ (((k ≡ post.start_key) × (a ≡ post))
          ⊎ ((held O k c ≡ some a) × (k ≢ old.start_key) × (k ≢ post.start_key)))

  held-Cases : (k : Bytes) (a : RangeDescriptor) → held O k split_cache ≡ some a → Cases k a
  held-Cases k a h = elim (Bool-cases (bytes_equal prev.start_key k)) [
    | inl e ↦ inl (
      ground (arith, e, sp.same_start, bytes_equal_iff prev.start_key k),
      ground (arith, h, held-split k, e),
    )
    | inr e ↦ elim (Bool-cases (bytes_equal post.start_key k)) [
      | inl f ↦ inr (
          inl (
            ground (arith, f, bytes_equal_iff post.start_key k),
            ground (arith, h, held-split k, e, f),
          ))
      | inr f ↦ inr (
          inr (
            ground (arith, h, held-split k, e, f),
            λ p. ground (arith, p, e, sp.same_start, bytes_equal_iff prev.start_key k),
            λ p. ground (arith, p, f, bytes_equal_iff post.start_key k),
          ))
    ]
  ]

  -- No descriptor stands inside the old range.
  none_inside :
      (k : Bytes) (a : RangeDescriptor)
      → held O k c ≡ some a
      → bytes_less old.start_key k ≡ true
      → bytes_less k old.end_key ≡ false
  none_inside k a h lt = w.apart old.start_key k old a known h lt

  split-apart :
      (j k : Bytes) (a b : RangeDescriptor)
      → Cases j a
      → Cases k b
      → bytes_less j k ≡ true
      → bytes_less k a.end_key ≡ false
  split-apart j k a b (inl (p, q)) (inl (r, s)) lt =
      absurd (cc (p, r, lt, bytes_less_irrefl old.start_key))
  split-apart j k a b (inl (p, q)) (inr (inl (r, s))) lt =
      cc (q, r, sp.meet, bytes_less_irrefl post.start_key)
  split-apart j k a b (inl (p, q)) (inr (inr (r, s, t))) lt =
      elim (Bool-cases (bytes_less k a.end_key)) [
        | inr e ↦ e
        | inl e ↦ absurd (
            cc (
              none_inside k b r (cc (p, lt)),
              bytes_less_trans k post.start_key old.end_key (cc (e, q, sp.meet)) sp.below,
            ))
      ]
  split-apart j k a b (inr (inl (p, q))) (inl (r, s)) lt =
      absurd (cc (p, r, lt, bytes_less_asym old.start_key post.start_key sp.above))
  split-apart j k a b (inr (inl (p, q))) (inr (inl (r, s))) lt =
      absurd (cc (p, r, lt, bytes_less_irrefl post.start_key))
  split-apart j k a b (inr (inl (p, q))) (inr (inr (r, s, t))) lt =
      let e =
        none_inside k b r (bytes_less_trans old.start_key post.start_key k sp.above (cc (p, lt))) in
      cc (e, q, sp.same_end)
  split-apart j k a b (inr (inr (p, q, u))) (inl (r, s)) lt =
      cc (r, w.apart j old.start_key a old p known (cc (r, lt)))
  split-apart j k a b (inr (inr (p, q, u))) (inr (inl (r, s))) lt =
      elim (bytes_less_total j old.start_key) [
        | inl e ↦ elim (Bool-cases (bytes_less k a.end_key)) [
          | inr f ↦ f
          | inl f ↦ absurd (
              cc (
                w.apart j old.start_key a old p known e,
                bytes_less_trans old.start_key post.start_key a.end_key sp.above (cc (r, f)),
              ))
        ]
        | inr (inl e) ↦ absurd (q e)
        | inr (inr e) ↦ absurd (
            cc (
              none_inside j a p e,
              bytes_less_trans j post.start_key old.end_key (cc (lt, r)) sp.below,
            ))
      ]
  split-apart j k a b (inr (inr (p, q, u))) (inr (inr (r, s, t))) lt = w.apart j k a b p r lt

  -- The cache is routed as before.
  pub split-IsRouted : IsRouted O split_cache
  split-IsRouted = record {
    whole = unfold add_ranges in add-IsWhole O prev _ (add-IsWhole O post c w.whole);
    keyed = λ k a h. elim (held-Cases k a h) [
      | inl (p, q) ↦ cc (p, q, sp.same_start)
      | inr (inl (p, q)) ↦ cc (p, q)
      | inr (inr (p, q, u)) ↦ w.keyed k a p
    ];
    apart = λ j k a b h g lt. split-apart j k a b (held-Cases j a h) (held-Cases k b g) lt;
  }

  contains_half :
      (key : Bytes)
      → contains old key ≡ true
      → contains (if bytes_less key post.start_key then prev else post) key ≡ true
  contains_half key t =
      let (from, to) = contains_parts old key t in
      elim (Bool-cases (bytes_less key post.start_key)) [
        | inl e ↦ unfold contains in ground (arith, e, from, sp.same_start, sp.meet)
        | inr e ↦ unfold contains in ground (arith, e, to, sp.same_end)
      ]

  half_at :
      (key : Bytes)
      → (k : Bytes) × (held O k split_cache
          ≡ some (if bytes_less key post.start_key then prev else post))
  half_at key = elim (Bool-cases (bytes_less key post.start_key)) [
    | inl e ↦ (
      prev.start_key,
      ground (arith, e, held-split prev.start_key, bytes_equal_iff prev.start_key prev.start_key),
    )
    | inr e ↦ (
      post.start_key,
      ground (
        arith,
        e,
        held-split post.start_key,
        bytes_equal_iff prev.start_key post.start_key,
        bytes_equal_iff post.start_key post.start_key,
        bytes_less_irrefl post.start_key,
        sp.same_start,
        sp.above,
      ),
    )
  ]

  contains_whole :
      (key : Bytes) (a : RangeDescriptor)
      → (a ≡ prev) ⊎ (a ≡ post)
      → contains a key ≡ true
      → contains old key ≡ true
  contains_whole key a (inl e) t =
      let (from, to) = contains_parts a key t in
      unfold contains in
      ground (
        arith,
        e,
        from,
        to,
        sp.same_start,
        sp.meet,
        sp.below,
        bytes_less_trans key post.start_key old.end_key,
      )
  contains_whole key a (inr e) t =
      let (from, to) = contains_parts a key t in
      unfold contains in
      ground (
        arith,
        e,
        from,
        to,
        sp.same_end,
        sp.above,
        bytes_less_trans key old.start_key post.start_key,
      )

  -- A descriptor that contains a key outside the old range stays.
  stays :
      (key : Bytes) (a : RangeDescriptor)
      → contains old key ≡ false
      → held O a.start_key c ≡ some a
      → contains a key ≡ true
      → held O a.start_key split_cache ≡ some a
  stays key a out h t = ground (
    arith,
    held-split a.start_key,
    h,
    known,
    out,
    t,
    sp.same_start,
    sp.above,
    sp.below,
    bytes_equal_iff prev.start_key a.start_key,
    bytes_equal_iff post.start_key a.start_key,
    none_inside a.start_key a h,
  )

  -- Keys of the old range are routed to the half that holds them, all others as before.
  pub lookup-split :
      (key : Bytes)
      → lookup O key split_cache ≡ (
          if contains old key
          then some (if bytes_less key post.start_key then prev else post)
          else lookup O key c)
  lookup-split key = elim (Bool-cases (contains old key)) [
    | inl t ↦
        let (k, h) = half_at key in
        rw t (lookup_complete O split_cache key k _ split-IsRouted h (contains_half key t))
    | inr f ↦ rw f (elim (Option-cases (lookup O key c)) [
      | inr (a, e) ↦
          let (h, t) = lookup_sound O c key a w e in
          lookup_complete O split_cache key a.start_key a split-IsRouted (stays key a f h t) t
          ∙ sym e
      | inl e ↦ elim (Option-cases (lookup O key split_cache)) [
        | inl g ↦ g ∙ sym e
        | inr (a, g) ↦
            let (h, t) = lookup_sound O split_cache key a split-IsRouted g in
            elim (held-Cases a.start_key a h) [
              | inl (p, q) ↦ absurd (cc (f, contains_whole key a (inl q) t))
              | inr (inl (p, q)) ↦ absurd (cc (f, contains_whole key a (inr q) t))
              | inr (inr (p, q, u)) ↦ absurd (cc (e, lookup_complete O c key a.start_key a w p t))
            ]
      ]
    ])
  ]
