-- ===== src/HttpRange.antt =====
-- cmd/httprange.go: the Range header of a request.
pub mod Header
pub mod Selection
use minio.Base.{
  ℕ, zero, suc, ◌+◌, ◌-◌, ◌*◌, ◌^◌, Bool, true, false, not, ◌&&◌, List, [], ◌∷◌, ◌++◌, Option, none,
  some, ltb, leb, ◌==◌, if◌then◌else◌, length, drop,
}
use minio.Base.Text.{Text, codes, has_prefix}
use minio.Base.Int.{ℤ, pos, negsuc}

-- `httpRange`. An end of -1 is possible, a negative begin or size is not.
pub record HttpRange : Type 0 where
  pub offset_begin : ℕ
  pub offset_end : ℤ
  pub resource_size : ℕ

-- `a - b`.
abbrev pub minus : ℕ → ℕ → ℤ
minus a b = if ltb a b then negsuc (b - a - 1) else pos (a - b)

-- `1 + offsetEnd - offsetBegin`.
unfoldable pub get_length : HttpRange → ℤ
get_length hrange = elim hrange.offset_end [
  | pos e ↦ minus (1 + e) hrange.offset_begin
  | negsuc n ↦ minus 0 (n + hrange.offset_begin)
]

-- The result: a range, a `fmt.Errorf` on the text, or `errInvalidRange`.
pub data RangeResult : Type 0 where
  satisfiable : HttpRange → RangeResult
  malformed : RangeResult
  invalid_range : RangeResult

abbrev pub byte_range_prefix : Text
byte_range_prefix = codes "bytes="

abbrev pub dash : ℕ
dash = 45

abbrev pub is_digit : ℕ → Bool
is_digit c = leb 48 c && leb c 57

-- `validBytePos` on a text that is not empty.
unfoldable pub all_digits : Text → Bool
all_digits [] = true
all_digits (c ∷ s) = is_digit c && all_digits s

unfoldable pub value_of : ℕ → Text → ℕ
value_of acc [] = acc
value_of acc (c ∷ s) = value_of (10 * acc + (c - 48)) s

-- One byte position: `some none` is the -1 of an empty text; the outer `none` is an error, of the
-- pattern or of `strconv.ParseInt` on a number beyond int64.
unfoldable pub byte_position : Text → Option (Option ℕ)
byte_position s =
    if length s == 0
    then some none
    else if not (all_digits s)
    then none
    else if leb (2 ^ 63) (value_of 0 s)
    then none
    else some (some (value_of 0 s))

-- What stands before and behind the first dash.
unfoldable pub split_at_dash : Text → Option (Text × Text)
split_at_dash [] = none
split_at_dash (c ∷ s) =
    let rest = split_at_dash s in
    if c == dash
    then some ([], s)
    else elim rest [ none ↦ none | some parts ↦ some (c ∷ parts.0, parts.1) ]

-- The two positions of the text.
unfoldable pub byte_positions : Text → Option (Option ℕ × Option ℕ)
byte_positions s =
    if not (has_prefix s byte_range_prefix)
    then none
    else elim (split_at_dash (drop (length byte_range_prefix) s)) [
      | none ↦ none
      | some parts ↦ elim (byte_position parts.0) [
        | none ↦ none
        | some first ↦ elim (byte_position parts.1) [ none ↦ none | some last ↦ some (first, last) ]
      ]
    ]

abbrev pub range_of : ℕ → ℤ → ℕ → RangeResult
range_of offset_begin offset_end resource_size =
    satisfiable (record {
      offset_begin = offset_begin;
      offset_end = offset_end;
      resource_size = resource_size;
    })

-- The cases of the positions that are given; `none` is -1.
unfoldable pub resolve : Option ℕ → Option ℕ → ℕ → RangeResult
resolve (some first) (some last) resource_size =
    if ltb last first
    then malformed
    else if leb resource_size first
    then invalid_range
    else if leb resource_size last
    then range_of first (minus resource_size 1) resource_size
    else range_of first (pos last) resource_size
resolve (some first) none resource_size =
    if leb resource_size first
    then invalid_range
    else range_of first (minus resource_size 1) resource_size
resolve none (some last) resource_size =
    if last == 0
    then invalid_range
    else if leb resource_size last
    then range_of 0 (minus resource_size 1) resource_size
    else range_of (resource_size - last) (minus resource_size 1) resource_size
resolve none none resource_size = malformed

unfoldable pub parse_request_range : Text → ℕ → RangeResult
parse_request_range range_string resource_size = elim (byte_positions range_string) [
  | none ↦ malformed
  | some positions ↦ resolve positions.0 positions.1 resource_size
]
