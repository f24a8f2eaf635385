-- ===== src/Engine/Scan.antt =====
-- Iterate (storage/engine/badger.go) and Scan (storage/engine/engine.go) over an engine.
use ancestor.Common.{ℕ, List, if◌then◌else◌, bytes_less, [], ◌∷◌, ◌+◌, not, ◌==◌, ◌&&◌, leb}
use ancestor.Engine.{Engine, Bytes}

-- The callback of Scan: it stops before the list is longer than `max`, unless `max` is 0.
unfoldable pub collect : ℕ → ℕ → Bytes → List (Bytes × Bytes) → List (Bytes × Bytes)
collect max count end [] = []
collect max count end ((k, v) ∷ rest) =
    let more = collect max (count + 1) end rest in
    if bytes_less k end then if not (max == 0) && leb max count then [] else (k, v) ∷ more else []

unfoldable pub scan : (E : Engine) → E.Db → Bytes → Bytes → ℕ → List (Bytes × Bytes)
unfolding collect
scan E db start end max =
    if bytes_less start end then collect max 0 end (E.forward db start) else []
