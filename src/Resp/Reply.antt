-- ===== src/Resp/Reply.antt =====
-- The replies of Redis and `value_to_resp` of crates/redis-web-core/src/resp.rs.
use redis_web.Prelude.{ℕ, suc, [], ◌∷◌, ◌++◌, length}
use redis_web.Text.{Bytes, codes, crlf}
use redis_web.Text.Decimal.{ℤ, to_string, int_to_string}

-- The variants of `redis::Value` that the crates match on; `resp3` stands for each of the others,
-- which they treat alike.
mutual
  pub data Value : Type 0 where
    nil : Value
    int : ℤ → Value
    bulk_string : Bytes → Value
    array : Values → Value
    simple_string : Bytes → Value
    okay : Value
    resp3 : ℕ → Value

  pub data Values : Type 0 where
    no_values : Values
    value : Value → Values → Values

abbrev pub count : Values → ℕ
count no_values = 0
count (value v vs) = suc (count vs)

unfoldable mutual
  pub value_to_resp : Value → Bytes
  value_to_resp nil = codes "$-1" ++ crlf
  value_to_resp (int i) = b':' ∷ (int_to_string i ++ crlf)
  value_to_resp (bulk_string bytes) = b'$' ∷ (to_string (length bytes) ++ (crlf ++ (bytes ++ crlf)))
  value_to_resp (array items) = b'*' ∷ (to_string (count items) ++ (crlf ++ items_to_resp items))
  value_to_resp (simple_string s) = b'+' ∷ (s ++ crlf)
  value_to_resp okay = codes "+OK" ++ crlf
  value_to_resp (resp3 _) = codes "-ERR Unsupported RESP3 type" ++ crlf

  -- the loop over the items of an array
  pub items_to_resp : Values → Bytes
  items_to_resp no_values = []
  items_to_resp (value item items) = value_to_resp item ++ items_to_resp items
