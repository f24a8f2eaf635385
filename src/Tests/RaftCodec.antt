-- ===== src/Tests/RaftCodec.antt =====
-- A codec that stands for the generated one of raft's messages in the tests.
use ancestor.Common.{
  Bytes, ℕ, List, [], ◌∷◌, Option, some, none, ◌≡◌, refl, arith, inl, inr, Option-cases, ap,
}
use ancestor.Meta.Message.{Value, MvccValue}
use ancestor.Raft.State.{RaftCodec, Entry, HardState}
use ancestor.Tests.Codec.{codec}

-- Entries, pairs of one byte each and values, field after field.
abbrev pub entry_of : Bytes → Option Entry
entry_of (i ∷ t ∷ c) = some (record { index = i; term = t; content = c })
entry_of _ = none

abbrev hard_state_of : Bytes → Option HardState
hard_state_of (t ∷ v ∷ c ∷ []) = some (record { term = t; vote = v; commit = c })
hard_state_of _ = none

abbrev one_byte : Bytes → Option ℕ
one_byte (x ∷ []) = some x
one_byte _ = none

one_byte-some : (b : Bytes) (x : ℕ) → one_byte b ≡ some x → b ≡ x ∷ []
one_byte-some [] x h = absurd (cc h)
one_byte-some (y ∷ []) x h = ground (arith, h)
one_byte-some (y ∷ z ∷ b) x h = absurd (cc h)

abbrev pairs : List (Bytes × Bytes) → Option Bytes
pairs [] = some []
pairs ((k, v) ∷ l) = elim (one_byte k) [
  | none ↦ none
  | some x ↦ elim (one_byte v) [
    | none ↦ none
    | some y ↦ elim (pairs l) [ none ↦ none | some b ↦ some (x ∷ y ∷ b) ]
  ]
]

abbrev unpairs : Bytes → Option (List (Bytes × Bytes))
unpairs [] = some []
unpairs (k ∷ []) = none
unpairs (k ∷ v ∷ b) = elim (unpairs b) [ none ↦ none | some l ↦ some ((k ∷ [], v ∷ []) ∷ l) ]

pub unpairs-pairs : (l : List (Bytes × Bytes)) (b : Bytes) → pairs l ≡ some b → unpairs b ≡ some l
unpairs-pairs [] b h = let e : [] ≡ b = ground (arith, h) in rw (← e) refl
unpairs-pairs ((k, v) ∷ l) b h = elim (Option-cases (one_byte k)) [
  | inl e ↦ absurd (ground (arith, h, e))
  | inr (x, e) ↦ elim (Option-cases (one_byte v)) [
    | inl f ↦ absurd (ground (arith, h, e, f))
    | inr (y, f) ↦ elim (Option-cases (pairs l)) [
      | inl g ↦ absurd (ground (arith, h, e, f, g))
      | inr (c, g) ↦
          let same : x ∷ y ∷ c ≡ b = ground (arith, h, e, f, g) in
          let rest = unpairs-pairs l c g in
          rw (← same) (rw (unpairs, rest, one_byte-some k x e, one_byte-some v y f) refl)
    ]
  ]
]

abbrev value_of : Option MvccValue → Option Value
value_of none = none
value_of (some m) = m.value

abbrev pub raft_codec : RaftCodec
raft_codec = record {
  marshal_entry = λ e. some (e.index ∷ e.term ∷ e.content);
  unmarshal_entry = entry_of;
  marshal_value = λ v. codec.marshal_value (record { value = some v });
  unmarshal_value = λ b. value_of (codec.unmarshal_value b);
  marshal_hard_state = λ h. some (h.term ∷ h.vote ∷ h.commit ∷ []);
  unmarshal_hard_state = hard_state_of;
  marshal_key_values = pairs;
  unmarshal_key_values = unpairs;
  entry_round_trip =
      λ e b h. let same : e.index ∷ e.term ∷ e.content ≡ b = ground (arith, h) in rw (← same) refl;
  value_round_trip = λ v b h. ap value_of (codec.value_round_trip (record { value = some v }) b h);
  key_values_round_trip = unpairs-pairs;
}
