-- ===== src/Pd/Maps.antt =====
-- Maps as lists of pairs: what is found after an assignment or a deletion.
use ancestor.Common.{Bool, none, some, List, [], ◌∷◌, ◌≡◌, ◌↔◌, if◌then◌else◌, arith, true}
use ancestor.Common.Int.{ℤ, eq_ℤ}
use ancestor.Pd.Cluster.{find, assign, delete}

pub eq_ℤ_iff : (a b : ℤ) → (eq_ℤ a b ≡ true) ↔ (a ≡ b)
eq_ℤ_iff a b = ground arith

module _ {K V : Type 0} (same : K → K → Bool) (iff : (a b : K) → (same a b ≡ true) ↔ (a ≡ b)) where
  pub find-delete :
      (k j : K) (l : List (K × V))
      → find same j (delete same k l) ≡ (if same k j then none else find same j l)
  unfolding find delete
  find-delete k j [] = ground arith
  find-delete k j ((i, v) ∷ l) = ground (arith, iff i k, iff i j, iff k j, find-delete k j l)

  pub find-assign :
      (k j : K) (v : V) (l : List (K × V))
      → find same j (assign same k v l) ≡ (if same k j then some v else find same j l)
  unfolding find assign
  find-assign k j v l = ground (arith, find-delete k j l)
