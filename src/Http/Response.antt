-- ===== src/Http/Response.antt =====
-- Responses: the status, the header map and the body. Header names are in lower case, as `http` keeps
-- them; `header_insert` is `HeaderMap::insert`, which replaces.
use redis_web.Prelude.{ℕ, Option, none, some, List, [], ◌∷◌, if◌then◌else◌, ◌≡◌, refl, arith}
use redis_web.Text.{Bytes, codes, eq_bytes, eq_bytes_cases}

pub record Response : Type 0 where
  pub status : ℕ
  pub headers : List (Bytes × Bytes)
  pub body : Bytes

unfoldable pub header_get : Bytes → List (Bytes × Bytes) → Option Bytes
header_get name [] = none
header_get name ((n, v) ∷ hs) = if eq_bytes n name then some v else header_get name hs

unfoldable pub header_remove : Bytes → List (Bytes × Bytes) → List (Bytes × Bytes)
header_remove name [] = []
header_remove name ((n, v) ∷ hs) =
    let rest = header_remove name hs in if eq_bytes n name then rest else (n, v) ∷ rest

unfoldable pub header_insert : Bytes → Bytes → Response → Response
unfolding header_remove
header_insert name value r = record r { headers = (name, value) ∷ header_remove name r.headers }

abbrev pub header : Bytes → Response → Option Bytes
header name r = header_get name r.headers

abbrev pub content_type : Bytes
content_type = codes "content-type"

abbrev pub etag_name : Bytes
etag_name = codes "etag"

abbrev pub allow_origin : Bytes
allow_origin = codes "access-control-allow-origin"

abbrev pub with_cors : Response → Response
with_cors r = header_insert allow_origin (codes "*") r

-- `Response::builder().status(…).header(CONTENT_TYPE, …).body(…)`
abbrev pub typed : ℕ → Bytes → Bytes → Response
typed status mime body = record {
  status = status;
  headers = (content_type, mime) ∷ [];
  body = body;
}

-- a builder without headers, or `StatusCode::into_response`
abbrev pub untyped : ℕ → Bytes → Response
untyped status body = record { status = status; headers = []; body = body }

header_get-remove :
    (n m : Bytes) (hs : List (Bytes × Bytes))
    → header_get m (header_remove n hs) ≡ (if eq_bytes n m then none else header_get m hs)
unfolding header_get header_remove
header_get-remove n m [] = ground arith
header_get-remove n m ((k, v) ∷ hs) =
    ground
      (arith, header_get-remove n m hs, eq_bytes_cases k n, eq_bytes_cases k m, eq_bytes_cases n m)

-- A header that is set is found, and no other changes.
pub header-header_insert :
    (n m v : Bytes) (r : Response)
    → header m (header_insert n v r) ≡ (if eq_bytes n m then some v else header m r)
unfolding header_insert header_get
header-header_insert n m v r = ground (arith, header_get-remove n m r.headers)

status-header_insert : (n v : Bytes) (r : Response) → (header_insert n v r).status ≡ r.status
unfolding header_insert
status-header_insert n v r = refl

body-header_insert : (n v : Bytes) (r : Response) → (header_insert n v r).body ≡ r.body
unfolding header_insert
body-header_insert n v r = refl
