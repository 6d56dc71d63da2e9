-- ===== src/Tests/Preconditions.antt =====
-- cmd/object-handlers-common.go on some requests.
use minio.Base.{◌+◌, ◌≡◌, ◌↔◌, refl, true, false, [], ◌∷◌, ◌++◌, some, none, if◌then◌else◌}
use minio.Base.Text.{Text, codes, text_discrete, same}
use minio.Base.Assoc.{put}
use minio.Preconditions.{
  second, quote, ObjectInfo, Request, Server, trim_prefix_quote, trim_suffix_quote,
  canonicalize_etag, is_etag_equal, if_modified_since, has_no_mod_time, check_preconditions,
  check_copy_object_preconditions, set_common_headers, write_headers, unix_epoch,
}
use minio.Preconditions.Etags.{is_etag_equal_iff}
use minio.Preconditions.Decision.{
  Passes, check_preconditions_iff, check_copy_object_preconditions_iff,
}

program : Unit {0}
unfolding trim_prefix_quote trim_suffix_quote canonicalize_etag is_etag_equal if_modified_since
    has_no_mod_time check_preconditions check_copy_object_preconditions set_common_headers
    write_headers text_discrete put
program = tt

-- A clock that knows one text for one time.
abbrev server : Server
server = record {
  parse_time = λ t. if same t (codes "noon") then some unix_epoch else none;
  format_time = λ t. codes "noon";
  request_id = codes "1";
  user_agent = codes "Minio";
}

abbrev info : ObjectInfo
info = record { mod_time = unix_epoch + second; md5_sum = codes "ab" }

abbrev request : Text → Text → Text → Request
request method name value = record {
  method = method;
  header = λ h. if same h name then value else [];
}

-- An object that is a second younger than the time counts as not modified since then.
second_test : if_modified_since server info.mod_time (codes "noon") ≡ false
unfolding program
second_test = refl

quoted_test : is_etag_equal (codes "ab") (quote ∷ (codes "ab" ++ (quote ∷ []))) ≡ true
unfolding program
quoted_test = refl

is_etag_equal_iff_example :
    ((is_etag_equal (codes "ab") (codes "cd") ≡ true) ↔ (codes "ab" ≡ codes "cd"))
    × ((is_etag_equal (codes "ab") (quote ∷ (codes "cd" ++ (quote ∷ []))) ≡ true)
        ↔ (codes "ab" ≡ codes "cd"))
is_etag_equal_iff_example =
    is_etag_equal_iff (codes "ab") (codes "cd") (refl, (refl, tt)) (refl, (refl, tt))

abbrev get : Request
get = request (codes "GET") (codes "If-Match") (codes "ab")

check_preconditions_iff_example :
    (check_preconditions server get info ≡ none)
    ↔ Passes server info
        (get.header (codes "If-Modified-Since"))
        (get.header (codes "If-Unmodified-Since"))
        (get.header (codes "If-Match"))
        (get.header (codes "If-None-Match"))
unfolding program
check_preconditions_iff_example = check_preconditions_iff server get info refl refl

abbrev copy : Request
copy = request (codes "PUT") (codes "x-amz-copy-source-if-match") (codes "ab")

check_copy_object_preconditions_iff_example :
    (check_copy_object_preconditions server copy info ≡ none)
    ↔ Passes server info
        (copy.header (codes "x-amz-copy-source-if-modified-since"))
        (copy.header (codes "x-amz-copy-source-if-unmodified-since"))
        (copy.header (codes "x-amz-copy-source-if-match"))
        (copy.header (codes "x-amz-copy-source-if-none-match"))
unfolding program
check_copy_object_preconditions_iff_example =
    check_copy_object_preconditions_iff server copy info refl refl refl
