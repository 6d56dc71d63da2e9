-- ===== src/Tests/HttpRange.antt =====
-- cmd/httprange.go on some headers.
use minio.Base.{ℕ, ◌≡◌, refl, Option}
use minio.Base.Int.{pos, negsuc}
use minio.Base.Text.{codes, has_prefix}
use minio.HttpRange.{
  HttpRange, get_length, satisfiable, malformed, invalid_range, all_digits, value_of, byte_position,
  split_at_dash, byte_positions, resolve, parse_request_range,
}
use minio.HttpRange.Header.{Header}
use minio.HttpRange.Selection.{Senseless, Selects, parse_request_range-Selects}

program : Unit {0}
unfolding get_length all_digits value_of byte_position split_at_dash byte_positions resolve
    parse_request_range has_prefix
program = tt

abbrev three_to_six : HttpRange
three_to_six = record { offset_begin = 3; offset_end = pos 6; resource_size = 10 }

parse_test : parse_request_range (codes "bytes=3-6") 10 ≡ satisfiable three_to_six
unfolding program
parse_test = refl

parse_test_suffix :
    parse_request_range (codes "bytes=-3") 0
    ≡ satisfiable (record { offset_begin = 0; offset_end = negsuc 0; resource_size = 0 })
unfolding program
parse_test_suffix = refl

parse_test_reversed : parse_request_range (codes "bytes=6-3") 10 ≡ malformed
unfolding program
parse_test_reversed = refl

parse_test_beyond : parse_request_range (codes "bytes=10-") 10 ≡ invalid_range
unfolding program
parse_test_beyond = refl

parse_request_range-Selects_example :
    ((first last : Option ℕ)
      → Header (codes "bytes=3-6") first last
      → Selects first last 10 (parse_request_range (codes "bytes=3-6") 10)
        × (Senseless first last → parse_request_range (codes "bytes=3-6") 10 ≡ malformed))
    × (((first last : Option ℕ) → ¬ Header (codes "bytes=3-6") first last)
        → parse_request_range (codes "bytes=3-6") 10 ≡ malformed)
parse_request_range-Selects_example = parse_request_range-Selects (codes "bytes=3-6") 10
