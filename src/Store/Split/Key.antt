-- ===== src/Store/Split/Key.antt =====
-- The key that getSplitKey finds.
use ancestor.Common.{
  Bytes, true, false, List, [], ◌∷◌, ◌++◌, none, some, ◌≡◌, inl, inr, refl, arith, ap, ◌+◌, length,
  bytes_less, All, Bool-cases, Option-cases, sym, ◌∙◌,
}
use ancestor.Common.Int.{ℤ, pos, add_int64, ltb_ℤ}
use ancestor.Engine.{Engine}
use ancestor.Meta.Key.{decode, new_mvcc_key, KeyError}
use ancestor.Meta.Message.{Error}
use ancestor.Meta.Exec.{Result, ok, err}
use ancestor.Store.{Replica}
use ancestor.Store.Split.{split_key_loop, get_split_key}

-- The sizes of keys and values, and their number, added to what was there before.
abbrev pub bytes_of : ℤ → List (Bytes × Bytes) → ℤ
bytes_of b [] = b
bytes_of b ((k, v) ∷ l) = bytes_of (add_int64 b (pos (length k + length v))) l

abbrev pub count_of : ℤ → List (Bytes × Bytes) → ℤ
count_of c [] = c
count_of c ((k, v) ∷ l) = count_of (add_int64 c (pos 1)) l

-- The keys visited up to the split key, which is the key of the last of them.
pub record Found (start end : Bytes) (size b c : ℤ) (l : List (Bytes × Bytes))
    (found : Bytes × ℤ × ℤ) : Type 0 where
  front : List (Bytes × Bytes)
  back : List (Bytes × Bytes)
  last : Bytes × Bytes
  split_here : l ≡ front ++ (last ∷ back)
  pub inside : All (λ kv. bytes_less kv.0 end ≡ true) (front ++ last ∷ [])
  pub decoded : ((decode last.0).error ≡ none) × ((decode last.0).key ≡ found.0)
  pub above_start : bytes_less start found.0 ≡ true
  pub enough : ltb_ℤ found.1 size ≡ false
  pub bytes : found.1 ≡ bytes_of b (front ++ last ∷ [])
  pub count : found.2 ≡ count_of c (front ++ last ∷ [])

ok_injective : {A : Type 0} {a b : A} → ◌≡◌ {A = Result A} (ok a) (ok b) → a ≡ b
ok_injective h = ground (arith, h)

module _ (start end : Bytes) (size : ℤ) where
  Found-cons :
      (b c : ℤ) (k v : Bytes) (l : List (Bytes × Bytes)) (found : Bytes × ℤ × ℤ)
      → bytes_less k end ≡ true
      → Found start end size (add_int64 b (pos (length k + length v))) (add_int64 c (pos 1)) l found
      → Found start end size b c ((k, v) ∷ l) found
  Found-cons b c k v l found below f = record {
    front = (k, v) ∷ f.front;
    back = f.back;
    last = f.last;
    split_here = ap (λ (q : List (Bytes × Bytes)). (k, v) ∷ q) f.split_here;
    inside = (below, f.inside);
    decoded = f.decoded;
    above_start = f.above_start;
    enough = f.enough;
    bytes = f.bytes;
    count = f.count;
  }

  abbrev more_bytes : ℤ → Bytes → Bytes → ℤ
  more_bytes b k v = add_int64 b (pos (length k + length v))

  abbrev loop_rest : ℤ → ℤ → Bytes → Bytes → List (Bytes × Bytes) → Result (Bytes × ℤ × ℤ)
  loop_rest b c k v l = split_key_loop start end size (more_bytes b k v) (add_int64 c (pos 1)) l

  module _ (b c : ℤ) (k v : Bytes) (l : List (Bytes × Bytes))
      (below : bytes_less k end ≡ true) where
    loop-few :
        ltb_ℤ (more_bytes b k v) size ≡ true
        → split_key_loop start end size b c ((k, v) ∷ l) ≡ loop_rest b c k v l
    unfolding split_key_loop
    loop-few few = rw (split_key_loop, below, few) refl

    loop-bad :
        (e : KeyError)
        → ltb_ℤ (more_bytes b k v) size ≡ false
        → (decode k).error ≡ some e
        → split_key_loop start end size b c ((k, v) ∷ l) ≡ err (Error.bad_key e)
    unfolding split_key_loop
    loop-bad e enough bad = rw (split_key_loop, below, enough, bad) refl

    loop-again :
        ltb_ℤ (more_bytes b k v) size ≡ false
        → (decode k).error ≡ none
        → bytes_less start (decode k).key ≡ false
        → split_key_loop start end size b c ((k, v) ∷ l) ≡ loop_rest b c k v l
    unfolding split_key_loop
    loop-again enough good not_above = rw (split_key_loop, below, enough, good, not_above) refl

    loop-found :
        ltb_ℤ (more_bytes b k v) size ≡ false
        → (decode k).error ≡ none
        → bytes_less start (decode k).key ≡ true
        → split_key_loop start end size b c ((k, v) ∷ l)
          ≡ ok ((decode k).key, more_bytes b k v, add_int64 c (pos 1))
    unfolding split_key_loop
    loop-found enough good above = rw (split_key_loop, below, enough, good, above) refl

  split_key_loop-Found :
      (b c : ℤ) (l : List (Bytes × Bytes)) (found : Bytes × ℤ × ℤ)
      → split_key_loop start end size b c l ≡ ok found
      → Found start end size b c l found
  unfolding split_key_loop
  split_key_loop-Found b c [] found h = absurd (cc h)
  split_key_loop-Found b c ((k, v) ∷ l) found h =
      let b' = add_int64 b (pos (length k + length v)) in
      let c' = add_int64 c (pos 1) in
      elim (Bool-cases (bytes_less k end)) [
        | inr past ↦ absurd (ground (arith, h, past))
        | inl below ↦ elim (Bool-cases (ltb_ℤ b' size)) [
          | inl few ↦
              Found-cons b c k v l found below
                (split_key_loop-Found b' c' l found (sym (loop-few b c k v l below few) ∙ h))
          | inr enough ↦ elim (Option-cases (decode k).error) [
            | inr (e, bad) ↦ absurd (cc (loop-bad b c k v l below e enough bad, h))
            | inl good ↦ elim (Bool-cases (bytes_less start (decode k).key)) [
              | inr not_above ↦ Found-cons b c k v l found below (
                  split_key_loop-Found b' c' l found
                    (sym (loop-again b c k v l below enough good not_above) ∙ h))
              | inl above ↦
                  let same : ((decode k).key, b', c') ≡ found =
                    ok_injective (sym (loop-found b c k v l below enough good above) ∙ h) in
                  rw (← same) (record {
                    front = [];
                    back = l;
                    last = (k, v);
                    split_here = refl;
                    inside = (below, tt);
                    decoded = (good, refl);
                    above_start = above;
                    enough = enough;
                    bytes = refl;
                    count = refl;
                  })
            ]
          ]
        ]
      ]

-- When getSplitKey finds a key, the key stands above the start of the range and is decoded from the
-- last of the keys that were visited, all below the encoded end; the two numbers are the size and
-- the number of these, and the size is not below the one asked for.
pub get_split_key-Found :
    (E : Engine) (r : Replica) (size : ℤ) (db : E.Db) (found : Bytes × ℤ × ℤ)
    → get_split_key E r size db ≡ ok found
    → Found r.range_desc.start_key
        (new_mvcc_key r.range_desc.end_key)
        size
        (pos 0)
        (pos 0)
        (E.forward db (new_mvcc_key r.range_desc.start_key))
        found
unfolding get_split_key
get_split_key-Found E r size db found h =
    split_key_loop-Found r.range_desc.start_key (new_mvcc_key r.range_desc.end_key) size (pos 0)
      (pos 0) (E.forward db (new_mvcc_key r.range_desc.start_key)) found h
