-- ===== src/Compat/Manager.antt =====
-- `CompatSessionManager` of crates/redis-web-runtime/src/compat.rs: the table of sessions. The lock of
-- the table is not held while a connection is opened, so that creating a session is two steps.
use redis_web.Prelude.{
  ℕ, Bool, true, false, not, Option, none, some, List, [], ◌∷◌, ◌++◌, if◌then◌else◌, length, leb,
  ltb, suc, ◌≡◌, ◌≢◌, Result, ok, err,
}
use redis_web.Text.{Bytes, codes, eq_bytes}
use redis_web.Compat.Session.{Backend, Session, Task, touch, idle_for}

pub record CompatSessionSettings : Type 0 where
  pub enabled : Bool
  pub path_prefix : Bytes
  pub session_ttl : ℕ
  pub max_sessions : ℕ
  pub max_pipeline_commands : ℕ

pub data CreateSessionError : Type 0 where
  limit_reached : CreateSessionError
  backend_unavailable : Bytes → CreateSessionError

-- `HashMap<String, Arc<CompatSession>>`, in no order that matters
abbrev pub Sessions : Type 0
Sessions = List (Bytes × Session)

unfoldable pub get : Bytes → Sessions → Option Session
get id [] = none
get id ((key, session) ∷ sessions) = if eq_bytes key id then some session else get id sessions

unfoldable pub remove : Bytes → Sessions → Sessions
remove id [] = []
remove id ((key, session) ∷ sessions) =
    let rest = remove id sessions in if eq_bytes key id then rest else (key, session) ∷ rest

unfoldable pub insert : Bytes → Session → Sessions → Sessions
unfolding remove
insert id session sessions = (id, session) ∷ remove id sessions

abbrev pub remove_each : List Bytes → Sessions → Sessions
remove_each [] sessions = sessions
remove_each (id ∷ ids) sessions = remove_each ids (remove id sessions)

abbrev pub new_session : Bytes → ℕ → Session
new_session id now = record {
  id = id;
  created_at = now;
  last_access = now;
  has_pubsub = false;
  http_pubsub_warning_emitted = false;
  task = Task.unstarted;
  pushed = [];
}

-- A session is shared, so that touching it changes the one in the table.
unfoldable pub store : Bytes → Option Session → Sessions → Sessions
store id none sessions = sessions
store id (some session) [] = []
store id (some session) ((key, old) ∷ sessions) =
    let rest = store id (some session) sessions in
    if eq_bytes key id then (key, session) ∷ rest else (key, old) ∷ rest

abbrev is_found : Option Session → Bool
is_found none = false
is_found (some session) = true

unfoldable pub remove_session : Bytes → Sessions → Bool × Sessions
remove_session id sessions = (is_found (get id sessions), remove id sessions)

module _ (backend : Backend) (settings : CompatSessionSettings) where
  open backend use {S, clock, connect, new_id}
  open settings use {session_ttl, max_sessions}

  -- the ids of the sessions that have been idle for too long
  unfoldable pub expired : Sessions → S → List Bytes
  expired [] s = []
  expired ((id, session) ∷ sessions) s =
      let rest = expired sessions s in
      if ltb session_ttl (idle_for backend session s) then id ∷ rest else rest

  unfoldable pub sweep_expired : Sessions → S → Sessions
  sweep_expired sessions s = remove_each (expired sessions s) sessions

  -- the first step of `create_session`: room is made, and the limit is checked
  unfoldable pub admit : Sessions → S → Bool × Sessions
  admit sessions s =
      let swept = sweep_expired sessions s in (not (leb max_sessions (length swept)), swept)

  -- the second step, with the connection open
  unfoldable pub enter : Sessions → S → Session × Sessions × S
  enter sessions s =
      let (id, s1) = new_id s in
      let session = new_session id (clock s1) in (session, insert id session sessions, s1)

  -- both steps, when no other request comes between them
  unfoldable pub create_session : Sessions → S → Result CreateSessionError Session × Sessions × S
  create_session sessions s =
      let (admitted, swept) = admit sessions s in
      if admitted
      then (let (failure, s1) = connect s in
          elim failure [
            | some message ↦ (
              err (
                  backend_unavailable
                    (codes "failed to create compat command connection: " ++ message)),
              swept,
              s1,
            )
            | none ↦ let (session, sessions', s2) = enter swept s1 in (ok session, sessions', s2)
          ])
      else (err limit_reached, swept, s)

  abbrev pub touched : Option Session → S → Option Session
  touched none s = none
  touched (some session) s = some (touch backend session s)

  unfoldable pub get_session : Bytes → Sessions → S → Option Session × Sessions
  get_session id sessions s =
      let swept = sweep_expired sessions s in
      let found = touched (get id swept) s in (found, store id found swept)

  -- What the requests do to the table. A request that was admitted is counted until it has its
  -- connection, and other requests come between.
  pub record Table : Type 0 where
    pub sessions : Sessions
    pub admitted : ℕ
    pub state : S

  pub data Step : Table → Table → Type 0 where
    admits :
        (t : Table)
        → (admit t.sessions t.state).0 ≡ true
        → Step t (record t { sessions = (admit t.sessions t.state).1; admitted = suc t.admitted })
    refuses :
        (t : Table)
        → (admit t.sessions t.state).0 ≡ false
        → Step t (record t { sessions = (admit t.sessions t.state).1 })
    connects :
        (sessions : Sessions) (n : ℕ) (s : S)
        → (connect s).0 ≡ none
        → Step
            (record { sessions = sessions; admitted = suc n; state = s })
            (record {
              sessions = (enter sessions (connect s).1).1;
              admitted = n;
              state = (enter sessions (connect s).1).2;
            })
    fails_to_connect :
        (sessions : Sessions) (n : ℕ) (s : S)
        → (connect s).0 ≢ none
        → Step
            (record { sessions = sessions; admitted = suc n; state = s })
            (record { sessions = sessions; admitted = n; state = (connect s).1 })
    gets :
        (t : Table) (id : Bytes)
        → Step t (record t { sessions = (get_session id t.sessions t.state).1 })
    removes :
        (t : Table) (id : Bytes) → Step t (record t { sessions = (remove_session id t.sessions).1 })
    uses :
        (t : Table) (id : Bytes) (session : Session)
        → Step t (record t { sessions = store id (some session) t.sessions })
    changes : (t : Table) (s : S) → Step t (record t { state = s })

  pub data Reaches : Table → Table → Type 0 where
    here : (t : Table) → Reaches t t
    then_step : {t u v : Table} → Reaches t u → Step u v → Reaches t v
