-- ===== src/Bench/Tests.antt =====
-- A base with a nested object, and an override of one of its members.
use redis_web.Prelude.{true, none, ◌≡◌, refl}
use redis_web.Text.{codes}
use redis_web.Text.Decimal.{pos}
use redis_web.Http.Json.{Members, null, boolean, number, object, no_members, member, lt_bytes, get}
use redis_web.Bench.Spec.{merge_members, eq_json, flatten_diff, collect_diff_entries}
use redis_web.Bench.Merging.{combined, get-merge_members}
use redis_web.Bench.Differences.{IsOrdered, flatten_diff_complete}

abbrev base : Members
base = member (codes "grpc") (object (member (codes "port") (number (pos 1)) no_members)) no_members

abbrev overrides : Members
overrides =
    member (codes "grpc") (object (member (codes "health") (boolean true) no_members))
      (member (codes "ssl") null no_members)

get-merge_members_example :
    get (codes "grpc") (merge_members base overrides)
    ≡ combined (get (codes "grpc") base) (get (codes "grpc") overrides)
unfolding lt_bytes
get-merge_members_example = get-merge_members (codes "grpc") overrides base (refl, _)

flatten_diff_complete_example : eq_json (object base) (object base) ≡ true
unfolding IsOrdered flatten_diff collect_diff_entries eq_json
flatten_diff_complete_example =
    flatten_diff_complete (λ _. none) (object base) (object base) (_, ((_, (_, _)), _))
      (_, ((_, (_, _)), _)) refl
