-- ===== src/Grpc/Value.antt =====
-- Statuses and reply values of crates/redis-web-runtime/src/grpc.rs.
use redis_web.Prelude.{Bool, true, false, ◌||◌, Result, ok, err, ◌>>=◌, ◌≡◌, refl, ◌⊎◌, inl, inr}
use redis_web.Text.{Bytes, codes}
use redis_web.Text.Decimal.{ℤ}
use redis_web.Resp.Reply.{Value, Values, no_values, value}

-- The status codes that the crate sets; `other_code` is a code of the transport.
pub data Code : Type 0 where
  invalid_argument permission_denied unavailable internal : Code
  other_code : Bytes → Code

pub record Status : Type 0 where
  pub code : Code
  pub message : Bytes

-- the message `RedisValue`, by its `kind`
mutual
  pub data RedisValue : Type 0 where
    nil : RedisValue
    integer : ℤ → RedisValue
    bulk_bytes simple_string : Bytes → RedisValue
    array : RedisArray → RedisValue

  pub data RedisArray : Type 0 where
    empty : RedisArray
    values : RedisValue → RedisArray → RedisArray

abbrev unsupported_reply : Status
unsupported_reply = record {
  code = internal;
  message = codes "unsupported Redis reply type for gRPC response";
}

unfoldable mutual
  pub redis_value_to_proto : Value → Result Status RedisValue
  redis_value_to_proto Value.nil = ok nil
  redis_value_to_proto (Value.int i) = ok (integer i)
  redis_value_to_proto (Value.bulk_string bytes) = ok (bulk_bytes bytes)
  redis_value_to_proto (Value.array items) =
      values_to_proto items >>= λ converted. ok (array converted)
  redis_value_to_proto (Value.simple_string s) = ok (simple_string s)
  redis_value_to_proto Value.okay = ok (simple_string (codes "OK"))
  redis_value_to_proto (Value.resp3 _) = err unsupported_reply

  -- the loop over an array, which stops at the first error
  values_to_proto : Values → Result Status RedisArray
  values_to_proto no_values = ok empty
  values_to_proto (value v vs) =
      redis_value_to_proto v >>= λ first. values_to_proto vs >>= λ others. ok (values first others)

unfoldable mutual
  -- the reply that a message stands for
  from_proto : RedisValue → Value
  from_proto nil = Value.nil
  from_proto (integer i) = Value.int i
  from_proto (bulk_bytes bytes) = Value.bulk_string bytes
  from_proto (simple_string s) = Value.simple_string s
  from_proto (array vs) = Value.array (from_protos vs)

  from_protos : RedisArray → Values
  from_protos empty = no_values
  from_protos (values v vs) = value (from_proto v) (from_protos vs)

unfoldable mutual
  -- is there a RESP3 value, at any depth?
  has_resp3 : Value → Bool
  has_resp3 Value.nil = false
  has_resp3 (Value.int i) = false
  has_resp3 (Value.bulk_string bytes) = false
  has_resp3 (Value.array items) = items_have_resp3 items
  has_resp3 (Value.simple_string s) = false
  has_resp3 Value.okay = false
  has_resp3 (Value.resp3 _) = true

  items_have_resp3 : Values → Bool
  items_have_resp3 no_values = false
  items_have_resp3 (value v vs) = has_resp3 v || items_have_resp3 vs

mutual
  unfolding redis_value_to_proto from_proto

  to_proto-from_proto : (v : RedisValue) → redis_value_to_proto (from_proto v) ≡ ok v
  to_proto-from_proto nil = refl
  to_proto-from_proto (integer i) = refl
  to_proto-from_proto (bulk_bytes bytes) = refl
  to_proto-from_proto (simple_string s) = refl
  to_proto-from_proto (array vs) = rw (to_protos-from_protos vs) refl

  to_protos-from_protos : (vs : RedisArray) → values_to_proto (from_protos vs) ≡ ok vs
  to_protos-from_protos empty = refl
  to_protos-from_protos (values v vs) = rw (to_proto-from_proto v, to_protos-from_protos vs) refl

-- Each message is the reply that it stands for, converted.
redis_value_to_proto-from_proto : (v : RedisValue) → redis_value_to_proto (from_proto v) ≡ ok v
redis_value_to_proto-from_proto v = to_proto-from_proto v

abbrev Converts {ℓ} : {A : Type ℓ} → Result Status A → Bool → Type ℓ
Converts r true = r ≡ err unsupported_reply
Converts {A = A} r false = (a : A) × (r ≡ ok a)

mutual
  unfolding redis_value_to_proto has_resp3

  value-Converts : (v : Value) → Converts (redis_value_to_proto v) (has_resp3 v)
  value-Converts Value.nil = (nil, refl)
  value-Converts (Value.int i) = (integer i, refl)
  value-Converts (Value.bulk_string bytes) = (bulk_bytes bytes, refl)
  value-Converts (Value.array items) = wrapped (items_have_resp3 items) (items-Convert items)
    where
      wrapped :
          (b : Bool)
          → Converts (values_to_proto items) b
          → Converts (values_to_proto items >>= λ converted. ok (array converted)) b
      wrapped true e = rw (e) refl
      wrapped false (a, e) = (array a, rw (e) refl)
  value-Converts (Value.simple_string s) = (simple_string s, refl)
  value-Converts Value.okay = (simple_string (codes "OK"), refl)
  value-Converts (Value.resp3 _) = refl

  items-Convert : (vs : Values) → Converts (values_to_proto vs) (items_have_resp3 vs)
  items-Convert no_values = (empty, refl)
  items-Convert (value v vs) =
      both (has_resp3 v) (items_have_resp3 vs) (value-Converts v) (items-Convert vs)
    where
      both :
          (b c : Bool)
          → Converts (redis_value_to_proto v) b
          → Converts (values_to_proto vs) c
          → Converts
              (redis_value_to_proto v >>= λ first.
                values_to_proto vs >>= λ others. ok (values first others))
              (b || c)
      both true c e d = rw (e) refl
      both false true (a, e) d = rw (e, d) refl
      both false false (a, e) (as', d) = (values a as', rw (e, d) refl)

-- A reply is refused exactly if it has a RESP3 value somewhere, in an array too.
redis_value_to_proto_refuses :
    (v : Value)
    → ((has_resp3 v ≡ true) × (redis_value_to_proto v ≡ err unsupported_reply))
      ⊎ ((has_resp3 v ≡ false) × ((p : RedisValue) × (redis_value_to_proto v ≡ ok p)))
redis_value_to_proto_refuses v = go (has_resp3 v) refl (value-Converts v)
  where
    go :
        (b : Bool)
        → has_resp3 v ≡ b
        → Converts (redis_value_to_proto v) b
        → ((has_resp3 v ≡ true) × (redis_value_to_proto v ≡ err unsupported_reply))
          ⊎ ((has_resp3 v ≡ false) × ((p : RedisValue) × (redis_value_to_proto v ≡ ok p)))
    go true h e = inl (h, e)
    go false h e = inr (h, e)
