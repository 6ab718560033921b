-- ===== src/Compat/Table.antt =====
-- The table of sessions as a map: lookups after changes, its size, and that no id stands in it twice.
use redis_web.Prelude.{
  ◌≤◌, Option, none, some, List, [], ◌∷◌, ◌≡◌, refl, arith, length, if◌then◌else◌,
}
use redis_web.Text.{Bytes, eq_bytes, eq_bytes_cases}
use redis_web.Compat.Session.{Session}
use redis_web.Compat.Manager.{Sessions, get, remove, insert, remove_each, store}
use redis_web.Compat.Control.{has}

-- no id twice
abbrev pub Unique : Sessions → Type 0
Unique [] = Unit
Unique ((id, session) ∷ sessions) = (get id sessions ≡ none) × Unique sessions

get-remove :
    (n m : Bytes) (sessions : Sessions)
    → get m (remove n sessions) ≡ (if eq_bytes n m then none else get m sessions)
unfolding get remove
get-remove n m [] = ground arith
get-remove n m ((k, v) ∷ sessions) =
    ground
      (arith, get-remove n m sessions, eq_bytes_cases k n, eq_bytes_cases k m, eq_bytes_cases n m)

pub get-remove_each :
    (ids : List Bytes) (m : Bytes) (sessions : Sessions)
    → get m (remove_each ids sessions) ≡ (if has m ids then none else get m sessions)
get-remove_each [] m sessions = refl
get-remove_each (id ∷ ids) m sessions = ground (
  arith,
  get-remove_each ids m (remove id sessions),
  get-remove id m sessions,
  eq_bytes_cases id m,
  eq_bytes_cases m id,
)

get-store :
    (n m : Bytes) (o : Option Session) (sessions : Sessions)
    → get m sessions ≡ none
    → get m (store n o sessions) ≡ none
unfolding get store
get-store n m none sessions h = h
get-store n m (some v) [] h = refl
get-store n m (some v) ((k, w) ∷ sessions) h = ground (arith, get-store n m (some v) sessions)

pub length-remove : (n : Bytes) (sessions : Sessions) → length (remove n sessions) ≤ length sessions
unfolding remove
length-remove n [] = omega arith
length-remove n ((k, v) ∷ sessions) = ground (arith, length-remove n sessions)

pub remove-Unique : (n : Bytes) (sessions : Sessions) → Unique sessions → Unique (remove n sessions)
unfolding remove
remove-Unique n [] u = tt
remove-Unique n ((k, v) ∷ sessions) (new, u) =
    ground (arith, remove-Unique n sessions u, get-remove n k sessions)

pub remove_each-Unique :
    (ids : List Bytes) (sessions : Sessions) → Unique sessions → Unique (remove_each ids sessions)
remove_each-Unique [] sessions u = u
remove_each-Unique (id ∷ ids) sessions u =
    remove_each-Unique ids (remove id sessions) (remove-Unique id sessions u)

pub insert-Unique :
    (n : Bytes) (v : Session) (sessions : Sessions) → Unique sessions → Unique (insert n v sessions)
unfolding insert
insert-Unique n v sessions u =
    (ground (arith, get-remove n n sessions, eq_bytes_cases n n), remove-Unique n sessions u)

pub store-Unique :
    (n : Bytes) (o : Option Session) (sessions : Sessions)
    → Unique sessions
    → Unique (store n o sessions)
unfolding store
store-Unique n none sessions u = u
store-Unique n (some v) [] u = tt
store-Unique n (some v) ((k, w) ∷ sessions) (new, u) =
    ground (arith, store-Unique n (some v) sessions u, get-store n k (some v) sessions new)

-- A session that is new to the table makes it longer by one.
pub length-remove_new :
    (n : Bytes) (sessions : Sessions)
    → get n sessions ≡ none
    → length (remove n sessions) ≡ length sessions
unfolding remove get
length-remove_new n [] h = refl
length-remove_new n ((k, v) ∷ sessions) h = ground (arith, length-remove_new n sessions)
