-- ===== src/Web.antt =====
-- What a handler reads of a request, and the tests on it (session.go, middleware.go).
use dingbap.Base.{◌++◌, ◌||◌, if◌then◌else◌, true, Bool, is_empty}
use dingbap.Text.{Text, codes, text_eq, has_prefix, equal_fold}

-- The headers are empty where the request has none.
pub record Request : Type 0 where
  pub method : Text
  pub path : Text
  pub host : Text
  pub tls : Bool
  pub forwarded_proto : Text
  pub origin : Text
  pub referer : Text
  pub accept : Text

abbrev pub has_method : Text → Request → Bool
has_method m r = text_eq r.method m

unfoldable pub expected_origin : Request → Text
unfolding equal_fold
expected_origin r =
    (if r.tls || equal_fold r.forwarded_proto (codes "https") then codes "https" else codes "http")
    ++ (codes "://" ++ r.host)

-- `ref == exp + "/"` is a case of the prefix test and is kept as the code has it.
unfoldable pub same_origin : Request → Bool
unfolding expected_origin text_eq has_prefix
same_origin r =
    if has_method (codes "GET") r || (has_method (codes "HEAD") r || has_method (codes "OPTIONS") r)
    then true
    else if is_empty r.origin
    then is_empty r.referer
      || (has_prefix r.referer (expected_origin r ++ codes "/")
          || (text_eq r.referer (expected_origin r ++ codes "/")
              || text_eq r.referer (expected_origin r)))
    else text_eq r.origin (expected_origin r)
