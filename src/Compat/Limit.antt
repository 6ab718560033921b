-- ===== src/Compat/Limit.antt =====
-- The limit on the number of sessions.
use redis_web.Prelude.{
  ℕ, suc, ◌≤◌, ◌<◌, none, List, [], ◌∷◌, ◌≡◌, ◌∙◌, ap, subst, arith, length, leb, err, Bool-cases,
  Option-cases, inl, inr,
}
use redis_web.Text.{Bytes}
use redis_web.Compat.Session.{Backend, Session}
use redis_web.Compat.Manager.{
  CompatSessionSettings, CreateSessionError, Sessions, get, remove, insert, remove_each, expired,
  sweep_expired, admit, enter, create_session, new_session, Table, Step, Reaches, here, then_step,
  admits, connects,
}
use redis_web.Compat.Table.{length-remove, length-remove_new}

length-remove_each :
    (ids : List Bytes) (sessions : Sessions) → length (remove_each ids sessions) ≤ length sessions
length-remove_each [] sessions = omega arith
length-remove_each (id ∷ ids) sessions =
    omega (arith, length-remove_each ids (remove id sessions), length-remove id sessions)

length-insert :
    (id : Bytes) (v : Session) (sessions : Sessions)
    → length (insert id v sessions) ≤ suc (length sessions)
unfolding insert
length-insert id v sessions = omega (arith, length-remove id sessions)

length-insert_new :
    (id : Bytes) (v : Session) (sessions : Sessions)
    → get id sessions ≡ none
    → length (insert id v sessions) ≡ suc (length sessions)
unfolding insert
length-insert_new id v sessions h = ap suc (length-remove_new id sessions h)

module _ (backend : Backend) (settings : CompatSessionSettings) where
  length-sweep_expired :
      (sessions : Sessions) (s : backend.S)
      → length (sweep_expired backend settings sessions s) ≤ length sessions
  unfolding sweep_expired
  length-sweep_expired sessions s =
      length-remove_each (expired backend settings sessions s) sessions

  -- While no other request comes between its steps, a request for a session keeps the table within the
  -- limit, and the table is no longer than before if the request is refused.
  pub create_session-limit :
      (sessions : Sessions) (s : backend.S)
      → length sessions ≤ settings.max_sessions
      → (length (create_session backend settings sessions s).1 ≤ settings.max_sessions)
        × ((e : CreateSessionError)
            → (create_session backend settings sessions s).0 ≡ err e
            → length (create_session backend settings sessions s).1 ≤ length sessions)
  unfolding create_session admit enter
  create_session-limit sessions s h =
      elim (Bool-cases
        (leb settings.max_sessions (length (sweep_expired backend settings sessions s)))) [
          | inl full ↦ rw (full) (
            omega (arith, length-sweep_expired sessions s),
            λ _ _. length-sweep_expired sessions s,
          )
          | inr room ↦
              let swept = sweep_expired backend settings sessions s in
              let smaller : length swept < settings.max_sessions = ground arith in
              elim (Option-cases (backend.connect s).0) [
                | inl e ↦
                    let (id, s2) = backend.new_id (backend.connect s).1 in
                    rw (room, e)
                      (
                        omega (
                          arith,
                          smaller,
                          length-insert id (new_session id (backend.clock s2)) swept,
                        ),
                        λ _ k. cc k,
                      )
                | inr (message, e) ↦
                    rw (room, e) (omega (arith, smaller), λ _ _. length-sweep_expired sessions s)
              ]
        ]

  -- the table after a request that was admitted has its connection
  abbrev pub entered : Sessions → backend.S → Sessions
  entered sessions s = (enter backend settings sessions (backend.connect s).1).1

  abbrev pub state_after : Sessions → backend.S → backend.S
  state_after sessions s = (enter backend settings sessions (backend.connect s).1).2

  abbrev pub next_id : backend.S → Bytes
  next_id s = (backend.new_id (backend.connect s).1).0

  length-entered :
      (sessions : Sessions) (s : backend.S)
      → get (next_id s) sessions ≡ none
      → length (entered sessions s) ≡ suc (length sessions)
  unfolding enter
  length-entered sessions s new = length-insert_new (next_id s) _ sessions new

  abbrev pub at_table : Sessions → ℕ → backend.S → Table backend settings
  at_table sessions n s = record { sessions = sessions; admitted = n; state = s }

  admits_one :
      (sessions : Sessions) (s : backend.S) (n : ℕ)
      → sweep_expired backend settings sessions s ≡ sessions
      → suc (length sessions) ≡ settings.max_sessions
      → Step backend settings (at_table sessions n s) (at_table sessions (suc n) s)
  unfolding admit
  admits_one sessions s n none_expired one_left =
      subst (λ table. Step backend settings (at_table sessions n s) (at_table table (suc n) s))
        none_expired (admits (at_table sessions n s) (rw none_expired (ground (arith, one_left))))

  -- The limit is checked before the connection is opened, and the lock of the table is not held in
  -- between. If there is room for one session, then two requests can both be admitted before
  -- either has its connection, and the table is then longer than the limit by one.
  pub create_session_race :
      (sessions : Sessions) (s : backend.S)
      → sweep_expired backend settings sessions s ≡ sessions
      → suc (length sessions) ≡ settings.max_sessions
      → (backend.connect s).0 ≡ none
      → get (next_id s) sessions ≡ none
      → (backend.connect (state_after sessions s)).0 ≡ none
      → get (next_id (state_after sessions s)) (entered sessions s) ≡ none
      → (t : Table backend settings) × Reaches backend settings (at_table sessions 0 s) t
        × (length t.sessions ≡ suc settings.max_sessions)
  create_session_race sessions s none_expired one_left connected new connected' new' = (
    at_table (entered (entered sessions s) (state_after sessions s)) 0
        (state_after (entered sessions s) (state_after sessions s)),
    then_step
        (then_step
          (then_step
            (then_step (here (at_table sessions 0 s))
              (admits_one sessions s 0 none_expired one_left))
            (admits_one sessions s 1 none_expired one_left))
          (connects sessions 1 s connected))
        (connects (entered sessions s) 0 (state_after sessions s) connected'),
    length-entered (entered sessions s) (state_after sessions s) new'
        ∙ ap suc (length-entered sessions s new ∙ one_left),
  )
