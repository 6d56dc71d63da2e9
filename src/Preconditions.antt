-- ===== src/Preconditions.antt =====
-- cmd/object-handlers-common.go: the preconditions of a GET, a HEAD and a copy.
pub mod Etags
pub mod Decision
use minio.Base.{
  ℕ, ◌+◌, ◌*◌, Bool, true, false, not, ◌&&◌, ◌||◌, List, [], ◌∷◌, ◌++◌, Option, none, some, ltb,
  ◌==◌, if◌then◌else◌,
}
use minio.Base.Text.{Text, codes, text_discrete, same, has_prefix}
use minio.Base.Assoc.{put}

-- Times are nanoseconds since the zero time of Go, 1 January of the year 1.
abbrev pub second : ℕ
second = 1000000000

abbrev pub unix_epoch : ℕ
unix_epoch = 62135596800 * second

abbrev pub quote : ℕ
quote = 34

-- `ObjectInfo`, as far as the preconditions read it.
pub record ObjectInfo : Type 0 where
  pub mod_time : ℕ
  pub md5_sum : Text

-- The request: its method, and what `Header.Get` returns for a name, empty where there is none.
pub record Request : Type 0 where
  pub method : Text
  pub header : Text → Text

abbrev pub Headers : Type 0
Headers = List (Text × Text)

-- What is written: the status 304 alone, or the error response for `ErrPreconditionFailed`.
pub data Reply : Type 0 where
  not_modified : Headers → Reply
  precondition_failed : Headers → Reply

abbrev pub set_header : Text → Text → Headers → Headers
set_header name value headers = put text_discrete name value headers

unfoldable pub trim_prefix_quote : Text → Text
trim_prefix_quote [] = []
trim_prefix_quote (c ∷ s) = if c == quote then s else c ∷ s

unfoldable pub trim_suffix_quote : Text → Text
trim_suffix_quote [] = []
trim_suffix_quote (c ∷ []) = if c == quote then [] else c ∷ []
trim_suffix_quote (c ∷ (d ∷ s)) = c ∷ trim_suffix_quote (d ∷ s)

unfoldable pub canonicalize_etag : Text → Text
canonicalize_etag etag = trim_suffix_quote (trim_prefix_quote etag)

unfoldable pub is_etag_equal : Text → Text → Bool
is_etag_equal left right = same (canonicalize_etag left) (canonicalize_etag right)

-- What the code takes from Go's `time` and from the server: `time.Parse(http.TimeFormat, _)`, the
-- format of that layout, the identifier of the request and the name of the server.
pub record Server : Type 0 where
  pub parse_time : Text → Option ℕ
  pub format_time : ℕ → Text
  pub request_id : Text
  pub user_agent : Text

module _ (server : Server) where
  unfoldable pub set_common_headers : Headers → Headers
  set_common_headers headers = set_header (codes "Accept-Ranges") (codes "bytes") (
      set_header (codes "Server") server.user_agent
        (set_header (codes "X-Amz-Request-Id") server.request_id headers))

  -- The closure `writeHeaders`.
  unfoldable pub write_headers : ObjectInfo → Headers
  write_headers info =
      let headers =
        set_header (codes "Last-Modified") (server.format_time info.mod_time)
          (set_common_headers []) in
      if same info.md5_sum []
      then headers
      else set_header (codes "ETag") (quote ∷ (info.md5_sum ++ (quote ∷ []))) headers

  unfoldable pub if_modified_since : ℕ → Text → Bool
  if_modified_since obj_time given_time_str = elim (server.parse_time given_time_str) [
    | none ↦ true
    | some given_time ↦ ltb (given_time + 1 * second) obj_time
  ]

  unfoldable pub has_no_mod_time : ObjectInfo → Bool
  has_no_mod_time info = (info.mod_time == 0) || (info.mod_time == unix_epoch)

  -- `none` is false: the operation proceeds.
  unfoldable pub check_copy_object_preconditions : Request → ObjectInfo → Option Reply
  check_copy_object_preconditions r info =
      let since = r.header (codes "x-amz-copy-source-if-modified-since") in
      let unmodified = r.header (codes "x-amz-copy-source-if-unmodified-since") in
      let matching = r.header (codes "x-amz-copy-source-if-match") in
      let none_match = r.header (codes "x-amz-copy-source-if-none-match") in
      if not (same r.method (codes "PUT"))
      then none
      else if has_no_mod_time info
      then none
      else if not (same since []) && not (if_modified_since info.mod_time since)
      then some (precondition_failed (write_headers info))
      else if not (same unmodified []) && if_modified_since info.mod_time unmodified
      then some (precondition_failed (write_headers info))
      else if not (same matching [])
          && (not (same info.md5_sum []) && not (is_etag_equal info.md5_sum matching))
      then some (precondition_failed (write_headers info))
      else if not (same none_match [])
          && (not (same info.md5_sum []) && is_etag_equal info.md5_sum none_match)
      then some (precondition_failed (write_headers info))
      else none

  unfoldable pub check_preconditions : Request → ObjectInfo → Option Reply
  check_preconditions r info =
      let since = r.header (codes "If-Modified-Since") in
      let unmodified = r.header (codes "If-Unmodified-Since") in
      let matching = r.header (codes "If-Match") in
      let none_match = r.header (codes "If-None-Match") in
      if not (same r.method (codes "GET")) && not (same r.method (codes "HEAD"))
      then none
      else if has_no_mod_time info
      then none
      else if not (same since []) && not (if_modified_since info.mod_time since)
      then some (not_modified (write_headers info))
      else if not (same unmodified []) && if_modified_since info.mod_time unmodified
      then some (precondition_failed (write_headers info))
      else if not (same matching []) && not (is_etag_equal info.md5_sum matching)
      then some (precondition_failed (write_headers info))
      else if not (same none_match []) && is_etag_equal info.md5_sum none_match
      then some (not_modified (write_headers info))
      else none
