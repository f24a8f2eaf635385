-- ===== src/Pd/Ranges.antt =====
-- util/cache/range_cache.go: the descriptors of the ranges that the placement driver knows, by id
-- and by start key. The three maps hold pointers to the same descriptors, so the descriptors stand
-- in a store of their own and the maps hold places in it. The tree behind OrderedCache
-- (util/cache/cache.go, another project's) is a parameter with the laws that its comments state.
pub mod Held
pub mod Search
pub mod Halves
pub mod Memory
use ancestor.Common.{
  Bytes, ℕ, Bool, true, false, Option, none, some, List, [], ◌∷◌, ◌++◌, ◌≡◌, ◌⊎◌, All, length, map,
  get_elem?, if◌then◌else◌, bytes_equal, bytes_less, not, ◌&&◌, ltb, ◌==◌, ◌-◌, zero, suc,
}
use ancestor.Common.Int.{ℤ, eq_ℤ}
use ancestor.Store.{RangeDescriptor, ReplicaDescriptor}
use ancestor.Pd.Cluster.{find, assign, delete}

abbrev pub Has : Bytes → ℕ → List (Bytes × ℕ) → Type 0
Has k r [] = ⊥
Has k r (e ∷ l) = ((e.0 ≡ k) × (e.1 ≡ r)) ⊎ Has k r l

pub record OrderedCache : Type 1 where
  pub Cache : Type 0
  pub get : Bytes → Cache → Option ℕ
  pub add : Bytes → ℕ → Cache → Cache
  pub del : Bytes → Cache → Cache
  pub floor : Bytes → Cache → Option (Bytes × ℕ)
  -- What Do visits.
  pub entries : Cache → List (Bytes × ℕ)
  pub get-add :
      (k j : Bytes) (r : ℕ) (c : Cache)
      → get j (add k r c) ≡ (if bytes_equal k j then some r else get j c)
  pub get-del :
      (k j : Bytes) (c : Cache) → get j (del k c) ≡ (if bytes_equal k j then none else get j c)
  -- "Floor returns the greatest cache entry less than or equal to key."
  pub floor-none :
      (k j : Bytes) (c : Cache) → floor k c ≡ none → bytes_less k j ≡ false → get j c ≡ none
  pub floor-some :
      (k j : Bytes) (r : ℕ) (c : Cache)
      → floor k c ≡ some (j, r)
      → (get j c ≡ some r) × (bytes_less k j ≡ false)
  pub floor-greatest :
      (k j i : Bytes) (r : ℕ) (c : Cache)
      → floor k c ≡ some (j, r)
      → bytes_less j i ≡ true
      → bytes_less k i ≡ false
      → get i c ≡ none
  -- "Do invokes f on all of the entries in the cache."
  pub entries-get : (c : Cache) → All (λ (e : Bytes × ℕ). get e.0 c ≡ some e.1) (entries c)
  pub get-entries : (c : Cache) (k : Bytes) (r : ℕ) → get k c ≡ some r → Has k r (entries c)

-- RangeDescriptorCache
pub record RangeCache (C : Type 0) : Type 0 where
  pub min_replica : ℕ
  pub objects : List RangeDescriptor
  pub unstable_ranges : List (ℤ × ℕ)
  pub ranges : List (ℤ × ℕ)
  pub cache : C

unfoldable pub modify : {A : Type 0} → ℕ → (A → A) → List A → List A
modify n f [] = []
modify zero f (x ∷ l) = f x ∷ l
modify (suc n) f (x ∷ l) = x ∷ modify n f l

-- The first replica on the node.
unfoldable pub index_of : ℤ → List ReplicaDescriptor → Option ℕ
index_of node [] = none
index_of node (r ∷ l) =
    let rest = index_of node l in
    if eq_ℤ r.node_id node then some 0 else elim rest [ none ↦ none | some i ↦ some (suc i) ]

-- l[0], l[i] = l[i], l[0]
unfoldable pub exchange : {A : Type 0} → ℕ → List A → List A
exchange zero l = l
exchange (suc i) [] = []
exchange (suc i) (x ∷ l) = elim (get_elem? l i) [ none ↦ x ∷ l | some y ↦ y ∷ modify i (λ _. x) l ]

-- The loop of AdjustLeader.
unfoldable pub leader_first : ℤ → RangeDescriptor → RangeDescriptor
leader_first node rd = elim (index_of node rd.replicas) [
  | none ↦ rd
  | some i ↦ record rd { replicas = exchange i rd.replicas }
]

-- The test of Lookup after Floor.
unfoldable pub contains : RangeDescriptor → Bytes → Bool
contains rd key = not (bytes_less key rd.start_key) && bytes_less key rd.end_key

module _ (O : OrderedCache) where
  -- Get; no descriptor is ErrNotFound.
  unfoldable pub get_range : ℤ → RangeCache O.Cache → Option RangeDescriptor
  get_range id c = elim (find eq_ℤ id c.ranges) [ none ↦ none | some r ↦ get_elem? c.objects r ]

  -- Unstable, the pointers.
  unfoldable pub unstable : RangeCache O.Cache → List ℕ
  unstable c = map (λ (e : ℤ × ℕ). e.1) c.unstable_ranges

  -- What Add drops where the start key is there already.
  unfoldable pub drop_range : RangeDescriptor → RangeCache O.Cache → RangeCache O.Cache
  drop_range rd c = elim (O.get rd.start_key c.cache) [
    | none ↦ c
    | some _ ↦ record c {
      cache = O.del rd.start_key c.cache;
      ranges = delete eq_ℤ rd.range_id c.ranges;
      unstable_ranges = delete eq_ℤ rd.range_id c.unstable_ranges;
    }
  ]

  -- What Add puts then, a pointer to a copy of the descriptor.
  unfoldable pub put_range : RangeDescriptor → RangeCache O.Cache → RangeCache O.Cache
  put_range rd c =
      let place = length c.objects in
      record c {
        objects = c.objects ++ rd ∷ [];
        cache = O.add rd.start_key place c.cache;
        ranges = assign eq_ℤ rd.range_id place c.ranges;
        unstable_ranges =
            if ltb (length rd.replicas) c.min_replica
            then assign eq_ℤ rd.range_id place c.unstable_ranges
            else c.unstable_ranges;
      }

  -- Add
  unfoldable pub add_ranges : List RangeDescriptor → RangeCache O.Cache → RangeCache O.Cache
  add_ranges [] c = c
  add_ranges (rd ∷ rds) c = add_ranges rds (put_range rd (drop_range rd c))

  -- Lookup
  unfoldable pub lookup : Bytes → RangeCache O.Cache → Option RangeDescriptor
  lookup key c = elim (O.floor key c.cache) [
    | none ↦ none
    | some (_, r) ↦ elim (get_elem? c.objects r) [
      | none ↦ none
      | some rd ↦ if contains rd key then some rd else none
    ]
  ]

  unfoldable pub visit : List RangeDescriptor → List (Bytes × ℕ) → List RangeDescriptor
  visit objects [] = []
  visit objects (e ∷ l) =
      let rest = visit objects l in
      elim (get_elem? objects e.1) [ none ↦ rest | some rd ↦ rd ∷ rest ]

  -- Iterate, with a function that collects what it is called with.
  unfoldable pub iterate : RangeCache O.Cache → List RangeDescriptor
  iterate c = visit c.objects (O.entries c.cache)

  -- AdjustLeader; none is the panic of Unlock on a mutex that is locked for reading.
  unfoldable pub adjust_leader : ℤ → ℤ → RangeCache O.Cache → Option (RangeCache O.Cache)
  adjust_leader id node c = elim (find eq_ℤ id c.ranges) [
    | none ↦ none
    | some r ↦ some (record c { objects = modify r (leader_first node) c.objects })
  ]
