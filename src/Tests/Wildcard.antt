-- ===== src/Tests/Wildcard.antt =====
-- pkg/wildcard/match.go on concrete patterns.
use minio.Base.{◌≡◌, ◌↔◌, refl, true, false, [], arith}
use minio.Base.Text.{codes}
use minio.Wildcard.{answer, panic, deep_match_rune, match, match_simple}
use minio.Wildcard.Glob.{Decides, Matches, match-Decides}
use minio.Wildcard.Simple.{Exhausts, match_simple-Decides, match_simple-panic}

backtracks : match (codes "a*c?") (codes "abcbcd") ≡ answer true
unfolding match deep_match_rune
backtracks = refl

too_short : match (codes "my-bucket/?bc") (codes "my-bucket/bc") ≡ answer false
unfolding match deep_match_rune
too_short = refl

simple_panics : match_simple (codes "*?") (codes "") ≡ panic
unfolding match_simple deep_match_rune
simple_panics = refl

-- `MatchSimple` takes `?` for a wildcard, which its comment rules out.
simple_question : match_simple (codes "?") (codes "a") ≡ answer true
unfolding match_simple deep_match_rune
simple_question = refl

match-Decides_example :
    Decides (Matches (codes "a*c?") (codes "abcbcd")) (match (codes "a*c?") (codes "abcbcd"))
match-Decides_example = match-Decides (codes "a*c?") (codes "abcbcd")

match_simple-Decides_example :
    Decides
      (Matches (codes "s3:*") (codes "s3:GetObject"))
      (match_simple (codes "s3:*") (codes "s3:GetObject"))
match_simple-Decides_example =
    match_simple-Decides (codes "s3:*") (codes "s3:GetObject") (ground arith)

match_simple-panic_example : (match_simple (codes "*?") [] ≡ panic) ↔ Exhausts (codes "*?")
match_simple-panic_example = match_simple-panic (codes "*?")
