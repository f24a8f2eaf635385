-- ===== src/Tests/Ids.antt =====
-- Two servers that ask for ids: the second is refused once, and the answer to its put is lost.
use ancestor.Common.{
  Bytes, ℕ, ◌∷◌, Option, ◌≡◌, Bool, none, true, some, false, [], refl, bytes_equal,
}
use ancestor.Common.Int.{ℤ, pos, negsuc, int64, uint64, ◌+ℤ◌}
use ancestor.Pd.Ids.{
  Decimals, Put, System, is_current, move, candidate, take_put, begins, reads, puts_id, is_refused,
  Reachable, starts, goes_on, given_ids, idle, looping, holding,
}
use ancestor.Pd.Ids.Distinct.{Descending, given_ids-Descending}

abbrev format_number : ℤ → Bytes
format_number (pos n) = n ∷ []
format_number (negsuc n) = 45 ∷ n ∷ []

abbrev parse_number : Bytes → Option ℤ
parse_number [] = none
parse_number (n ∷ []) = some (pos n)
parse_number (m ∷ n ∷ []) = some (negsuc n)
parse_number (m ∷ n ∷ k ∷ l) = none

parse-format_number : (z : ℤ) → parse_number (format_number z) ≡ some z
parse-format_number (pos n) = refl
parse-format_number (negsuc n) = refl

abbrev D : Decimals
D = record {
  format_int = format_number;
  parse_int = parse_number;
  parse-format = λ n. parse-format_number (int64 n);
}

abbrev put_of : ℕ → Bool → Put
put_of n b = record { id = pos n; is_given = b }

abbrev s0 : System
s0 = record { stored = none; servers = λ p. idle; puts = [] }

abbrev both_read : System
both_read =
    move 1 (holding (pos 0) none)
      (move 1 (looping (pos 0)) (move 0 (holding (pos 0) none) (move 0 (looping (pos 0)) s0)))

abbrev first_put : System
first_put = take_put D 0 (put_of 1 true) both_read

abbrev read_again : System
read_again = move 1 (holding (pos 1) (some (1 ∷ []))) (move 1 (looping (pos 1)) first_put)

abbrev answer_lost : System
answer_lost = take_put D 1 (put_of 2 false) read_again

abbrev third_put : System
third_put =
    take_put D 0 (put_of 3 true)
      (move 0 (holding (pos 0) (some (2 ∷ []))) (move 0 (looping (pos 0)) answer_lost))

reach_both_read : Reachable D both_read
unfolding move
reach_both_read =
    goes_on _ _
      (goes_on _ _ (goes_on _ _ (goes_on _ _ starts (begins 0 _ refl)) (reads 0 (pos 0) _ refl))
        (begins 1 _ refl))
      (reads 1 (pos 0) _ refl)

reach_answer_lost : Reachable D answer_lost
unfolding move take_put candidate is_current int64 uint64 ◌+ℤ◌ bytes_equal
reach_answer_lost =
    let first : Reachable D first_put =
      goes_on _ _ reach_both_read (puts_id 0 (pos 0) (pos 1) none true _ refl refl refl) in
    let again : Reachable D read_again =
      goes_on _ _ (goes_on _ _ first (is_refused 1 (pos 0) (pos 1) none _ refl refl refl))
        (reads 1 (pos 1) _ refl) in
    goes_on _ _ again (puts_id 1 (pos 1) (pos 2) (some (1 ∷ [])) false _ refl refl refl)

reach_third_put : Reachable D third_put
unfolding move take_put candidate is_current int64 uint64 ◌+ℤ◌ bytes_equal
reach_third_put =
    goes_on _ _
      (goes_on _ _ (goes_on _ _ reach_answer_lost (begins 0 _ refl)) (reads 0 (pos 0) _ refl))
      (puts_id 0 (pos 0) (pos 3) (some (2 ∷ [])) true _ refl refl refl)

given_ids-third_put : given_ids third_put.puts ≡ pos 3 ∷ pos 1 ∷ []
unfolding given_ids take_put move
given_ids-third_put = refl

given_ids-Descending_example : Descending (given_ids third_put.puts)
unfolding take_put move
given_ids-Descending_example =
    given_ids-Descending D third_put reach_third_put (refl, (refl, (refl, tt)))
