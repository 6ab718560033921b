-- ===== src/Compat/Sweeping.antt =====
-- Expired sessions, and the table under any sequence of requests.
use redis_web.Prelude.{
  Bool, false, Option, none, some, [], ◌∷◌, ◌≡◌, refl, ap, arith, ltb, if◌then◌else◌,
}
use redis_web.Text.{Bytes, eq_bytes_cases}
use redis_web.Compat.Control.{has}
use redis_web.Compat.Session.{Backend, Session, idle_for}
use redis_web.Compat.Manager.{
  CompatSessionSettings, Sessions, get, expired, sweep_expired, admit, enter, touched, get_session,
  remove_session, Table, Step, Reaches, here, then_step, admits, refuses, connects,
  fails_to_connect, gets, removes, uses, changes,
}
use redis_web.Compat.Table.{
  Unique, get-remove_each, remove-Unique, remove_each-Unique, insert-Unique, store-Unique,
}

module _ (backend : Backend) (settings : CompatSessionSettings) where
  abbrev is_stale : Session → backend.S → Bool
  is_stale session s = ltb settings.session_ttl (idle_for backend session s)

  -- the session that is there, unless it has been idle for too long
  abbrev pub unless_stale : Option Session → backend.S → Option Session
  unless_stale none s = none
  unless_stale (some session) s = if is_stale session s then none else some session

  abbrev found_stale : Option Session → backend.S → Bool
  found_stale none s = false
  found_stale (some session) s = is_stale session s

  expired-none :
      (id : Bytes) (sessions : Sessions) (s : backend.S)
      → get id sessions ≡ none
      → has id (expired backend settings sessions s) ≡ false
  unfolding get expired
  expired-none id [] s h = refl
  expired-none id ((key, session) ∷ sessions) s h =
      ground (arith, expired-none id sessions s, eq_bytes_cases key id, eq_bytes_cases id key)

  has-expired :
      (id : Bytes) (sessions : Sessions) (s : backend.S)
      → Unique sessions
      → has id (expired backend settings sessions s) ≡ found_stale (get id sessions) s
  unfolding get expired
  has-expired id [] s u = refl
  has-expired id ((key, session) ∷ sessions) s (new, u) = ground (
    arith,
    has-expired id sessions s u,
    expired-none key sessions s new,
    eq_bytes_cases key id,
    eq_bytes_cases id key,
  )

  -- After a sweep, a session is there if it was there and has been idle for no longer than allowed.
  get-sweep_expired :
      (id : Bytes) (sessions : Sessions) (s : backend.S)
      → Unique sessions
      → get id (sweep_expired backend settings sessions s) ≡ unless_stale (get id sessions) s
  unfolding sweep_expired
  get-sweep_expired id sessions s u = ground (
    arith,
    get-remove_each (expired backend settings sessions s) id sessions,
    has-expired id sessions s u,
  )

  -- A request for a session finds the one of that id, touched now, unless it has been idle for longer
  -- than the settings allow; then, as when there is none, nothing is found.
  pub get_session_finds :
      (id : Bytes) (sessions : Sessions) (s : backend.S)
      → Unique sessions
      → (get_session backend settings id sessions s).0
        ≡ touched backend settings (unless_stale (get id sessions) s) s
  unfolding get_session
  get_session_finds id sessions s u =
      ap (λ found. touched backend settings found s) (get-sweep_expired id sessions s u)

  pub sweep_expired-Unique :
      (sessions : Sessions) (s : backend.S)
      → Unique sessions
      → Unique (sweep_expired backend settings sessions s)
  unfolding sweep_expired
  sweep_expired-Unique sessions s u =
      remove_each-Unique (expired backend settings sessions s) sessions u

  Step-Unique :
      {t t' : Table backend settings}
      → Step backend settings t t'
      → Unique t.sessions
      → Unique t'.sessions
  unfolding admit enter get_session remove_session
  Step-Unique (admits t h) u = sweep_expired-Unique t.sessions t.state u
  Step-Unique (refuses t h) u = sweep_expired-Unique t.sessions t.state u
  Step-Unique (connects sessions n s h) u = insert-Unique _ _ sessions u
  Step-Unique (fails_to_connect sessions n s h) u = u
  Step-Unique (gets t id) u =
      store-Unique id _ (sweep_expired backend settings t.sessions t.state)
        (sweep_expired-Unique t.sessions t.state u)
  Step-Unique (removes t id) u = remove-Unique id t.sessions u
  Step-Unique (uses t id session) u = store-Unique id (some session) t.sessions u
  Step-Unique (changes t s) u = u

  -- The list that stands for the table (a hash map) has no id twice, if it has none at the start,
  -- however requests come one after the other or between the steps of others.
  pub Reaches-Unique :
      (t t' : Table backend settings)
      → Reaches backend settings t t'
      → Unique t.sessions
      → Unique t'.sessions
  Reaches-Unique t t' (here _) u = u
  Reaches-Unique t t' (then_step {u = middle} r step) u =
      Step-Unique step (Reaches-Unique t middle r u)
