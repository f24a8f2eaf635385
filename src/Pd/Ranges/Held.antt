-- ===== src/Pd/Ranges/Held.antt =====
-- The descriptors by their start keys, and what Add does to them: the cache as a function.
use ancestor.Common.{
  length-append, Bytes, ℕ, suc, zero, ◌<◌, Option, none, some, List, [], ◌∷◌, ◌++◌, ◌≡◌, refl,
  length, get_elem?, if◌then◌else◌, bytes_equal, bytes_equal_iff, arith, Option-cases, Bool-cases,
  inl, inr,
}
use ancestor.Store.{RangeDescriptor}
use ancestor.Pd.Ranges.{OrderedCache, RangeCache, drop_range, put_range}

pub get_elem?-append_last :
    {A : Type 0} (l : List A) (x : A) → get_elem? (l ++ x ∷ []) (length l) ≡ some x
get_elem?-append_last [] x = refl
get_elem?-append_last (y ∷ l) x = get_elem?-append_last l x

get_elem?-append_lt :
    {A : Type 0} (l : List A) (x : A) (i : ℕ)
    → i < length l
    → get_elem? (l ++ x ∷ []) i ≡ get_elem? l i
get_elem?-append_lt [] x i h = absurd (omega arith)
get_elem?-append_lt (y ∷ l) x zero h = refl
get_elem?-append_lt (y ∷ l) x (suc i) h = get_elem?-append_lt l x i (omega arith)

pub get_elem?_lt :
    {A : Type 0} (l : List A) (i : ℕ) → i < length l → (x : A) × (get_elem? l i ≡ some x)
get_elem?_lt [] i h = absurd (omega arith)
get_elem?_lt (y ∷ l) zero h = (y, refl)
get_elem?_lt (y ∷ l) (suc i) h = get_elem?_lt l i (omega arith)

module _ (O : OrderedCache) where
  unfoldable pub held : Bytes → RangeCache O.Cache → Option RangeDescriptor
  held k c = elim (O.get k c.cache) [ none ↦ none | some r ↦ get_elem? c.objects r ]

  -- Every place of the cache is one of the store.
  abbrev pub IsWhole : RangeCache O.Cache → Type 0
  IsWhole c = (k : Bytes) (r : ℕ) → O.get k c.cache ≡ some r → r < length c.objects

  drop-IsWhole :
      (rd : RangeDescriptor) (c : RangeCache O.Cache) → IsWhole c → IsWhole (drop_range O rd c)
  unfolding drop_range
  drop-IsWhole rd c w k r h = elim (Option-cases (O.get rd.start_key c.cache)) [
    | inl e ↦ ground (arith, e, h, w k r)
    | inr (q, e) ↦ ground (arith, e, h, w k r, O.get-del rd.start_key k c.cache)
  ]

  put-IsWhole :
      (rd : RangeDescriptor) (c : RangeCache O.Cache) → IsWhole c → IsWhole (put_range O rd c)
  unfolding put_range
  put-IsWhole rd c w k r h = ground (
    arith,
    h,
    w k r,
    O.get-add rd.start_key k (length c.objects) c.cache,
    length-append c.objects (rd ∷ []),
  )

  held-drop :
      (rd : RangeDescriptor) (c : RangeCache O.Cache) (k : Bytes)
      → held k (drop_range O rd c) ≡ (if bytes_equal rd.start_key k then none else held k c)
  unfolding held drop_range
  held-drop rd c k = elim (Option-cases (O.get rd.start_key c.cache)) [
    | inl e ↦ ground (arith, e, bytes_equal_iff rd.start_key k)
    | inr (q, e) ↦ ground (arith, e, O.get-del rd.start_key k c.cache)
  ]

  held-put :
      (rd : RangeDescriptor) (c : RangeCache O.Cache) (k : Bytes)
      → IsWhole c
      → held k (put_range O rd c) ≡ (if bytes_equal rd.start_key k then some rd else held k c)
  unfolding held put_range
  held-put rd c k w = elim (Bool-cases (bytes_equal rd.start_key k)) [
    | inl e ↦ ground (
      arith,
      e,
      O.get-add rd.start_key k (length c.objects) c.cache,
      get_elem?-append_last c.objects rd,
    )
    | inr e ↦ elim (Option-cases (O.get k c.cache)) [
      | inl f ↦ ground (arith, e, f, O.get-add rd.start_key k (length c.objects) c.cache)
      | inr (r, f) ↦ ground (
        arith,
        e,
        f,
        O.get-add rd.start_key k (length c.objects) c.cache,
        get_elem?-append_lt c.objects rd r (w k r f),
      )
    ]
  ]

  -- One round of Add.
  pub add-IsWhole :
      (rd : RangeDescriptor) (c : RangeCache O.Cache)
      → IsWhole c
      → IsWhole (put_range O rd (drop_range O rd c))
  add-IsWhole rd c w = put-IsWhole rd _ (drop-IsWhole rd c w)

  pub held-add :
      (rd : RangeDescriptor) (c : RangeCache O.Cache) (k : Bytes)
      → IsWhole c
      → held k (put_range O rd (drop_range O rd c))
        ≡ (if bytes_equal rd.start_key k then some rd else held k c)
  held-add rd c k w = elim (Bool-cases (bytes_equal rd.start_key k)) [
    | inl e ↦ ground (arith, e, held-put rd (drop_range O rd c) k (drop-IsWhole rd c w))
    | inr e ↦
        ground (arith, e, held-put rd (drop_range O rd c) k (drop-IsWhole rd c w), held-drop rd c k)
  ]
