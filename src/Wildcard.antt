-- ===== src/Wildcard.antt =====
-- pkg/wildcard/match.go: shell-style patterns over the runes of a name.
pub mod Glob
pub mod Simple
use minio.Base.{
  ℕ, ◌≡◌, refl, Bool, true, false, not, ◌&&◌, List, [], ◌∷◌, arith, ◌==◌, if◌then◌else◌, any,
}
use minio.Base.Text.{Text, text_discrete, same}
use minio.Base.{ite}

-- What a run of the matcher does: an answer, or the run-time panic of the slice `str[1:]` where
-- `str` is empty.
pub data Outcome : Type 0 where
  answer : Bool → Outcome
  panic : Outcome

-- Go's `a || b`: `b` runs only when `a` is false.
abbrev pub or_else : Outcome → Outcome → Outcome
or_else (answer true) r = answer true
or_else (answer false) r = r
or_else panic r = panic

abbrev pub star : ℕ
star = b'*'

abbrev pub question : ℕ
question = b'?'

-- `deepMatchRune`. The loop over both slices and the two calls under `||` are one recursion.
unfoldable pub deep_match_rune : Text → Text → Bool → Outcome
deep_match_rune [] [] simple = answer true
deep_match_rune (x ∷ str) [] simple = answer false
deep_match_rune [] (c ∷ pattern') simple =
    let rest = deep_match_rune [] pattern' simple in
    if c == star
    then or_else rest (answer false)
    else if c == question
    then (if not simple then answer false else panic)
    else answer false
deep_match_rune (x ∷ str) (c ∷ pattern') simple =
    let skip = deep_match_rune (x ∷ str) pattern' simple in
    let take_one = deep_match_rune str (c ∷ pattern') simple in
    let onward = deep_match_rune str pattern' simple in
    if c == star
    then or_else skip take_one
    else if c == question
    then onward
    else if x == c
    then onward
    else answer false

-- `MatchSimple` and `Match` differ in the flag that they pass on.
unfoldable pub match_with : Bool → Text → Text → Outcome
unfolding text_discrete
match_with simple [] name = answer (same name [])
match_with simple (c ∷ p) name =
    if same (c ∷ p) (star ∷ []) then answer true else deep_match_rune name (c ∷ p) simple

unfoldable pub match_simple : Text → Text → Outcome
unfolding match_with
match_simple pattern' name = match_with true pattern' name

unfoldable pub match : Text → Text → Outcome
unfolding match_with
match pattern' name = match_with false pattern' name
