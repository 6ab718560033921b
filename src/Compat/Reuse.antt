-- ===== src/Compat/Reuse.antt =====
-- A session that was created is found again by the paths that its creation answers.
use redis_web.Prelude.{
  ◌-◌, false, some, ◌++◌, ◌≡◌, refl, sym, ◌∙◌, ap, arith, length, length-append, take-append,
  drop-append, leb, le→leb, ltb, le→ltb, ok, Bool-cases, Option-cases, inl, inr,
}
use redis_web.Text.{Bytes, codes, eq_bytes_refl}
use redis_web.Compat.Session.{Backend, Session, touch, idle_for}
use redis_web.Compat.Manager.{
  CompatSessionSettings, Sessions, get, insert, new_session, admit, enter, sweep_expired,
  create_session, get_session,
}
use redis_web.Compat.Table.{Unique, insert-Unique}
use redis_web.Compat.Sweeping.{get_session_finds, sweep_expired-Unique}
use redis_web.Compat.Handlers.{normalize_raw_session_path}

-- The last segment of the URLs for commands and for the stream names the session.
normalize_raw_session_path_lem : (id : Bytes) → normalize_raw_session_path (id ++ codes ".raw") ≡ id
unfolding normalize_raw_session_path
normalize_raw_session_path_lem id =
    let size : length (id ++ codes ".raw") - 4 ≡ length id =
      omega (arith, length-append id (codes ".raw")) in
    rw
      (
        size,
        le→leb 4 (length (id ++ codes ".raw")) (omega (arith, length-append id (codes ".raw"))),
        drop-append id (codes ".raw"),
      )
      (take-append id (codes ".raw"))

module _ (backend : Backend) (settings : CompatSessionSettings) where
  get-insert :
      (id : Bytes) (v : Session) (sessions : Sessions) → get id (insert id v sessions) ≡ some v
  unfolding get insert
  get-insert id v sessions = rw (eq_bytes_refl id)

  -- What a successful creation leaves in the table.
  create_session-ok {ℓ} :
      {A : Type ℓ} (sessions : Sessions) (s : backend.S) (session : Session)
      → (create_session backend settings sessions s).0 ≡ ok session
      → ((id : Bytes) (s1 : backend.S)
          → session ≡ new_session id (backend.clock s1)
          → (create_session backend settings sessions s).1
            ≡ insert id session (sweep_expired backend settings sessions s)
          → (create_session backend settings sessions s).2 ≡ s1
          → A)
      → A
  unfolding create_session enter admit
  create_session-ok sessions s session e k =
      elim (Bool-cases
        (leb settings.max_sessions (length (sweep_expired backend settings sessions s)))) [
          | inl full ↦ cc (full, e)
          | inr room ↦ elim (Option-cases (backend.connect s).0) [
            | inr (message, failed) ↦ cc (room, failed, e)
            | inl connected ↦
                let (id, s1) = backend.new_id (backend.connect s).1 in
                let built = new_session id (backend.clock s1) in
                let swept = sweep_expired backend settings sessions s in
                let made : create_session backend settings sessions s
                    ≡ (ok built, insert id built swept, s1) =
                  rw (room, connected) in
                let same : session ≡ built = cc (e, ap (λ r. r.0) made) in
                k id s1 same (ap (λ r. r.1) made ∙ ap (λ v. insert id v swept) (sym same))
                  (ap (λ r. r.2) made)
          ]
        ]

  new_session-found :
      (id : Bytes) (sessions : Sessions) (s : backend.S)
      → Unique sessions
      → (get_session backend settings id
          (insert id (new_session id (backend.clock s)) sessions)
          s).0
        ≡ some (new_session id (backend.clock s))
  unfolding idle_for touch
  new_session-found id sessions s u =
      let v = new_session id (backend.clock s) in
      let idle : ltb settings.session_ttl (backend.clock s - backend.clock s) ≡ false =
        le→ltb _ _ (omega arith) in
      get_session_finds backend settings id (insert id v sessions) s (insert-Unique id v sessions u)
      ∙ rw (get-insert id v sessions) (rw idle refl)

  -- A session that has been created is found by its id right away, whatever the settings, if no id
  -- stood in the table twice before.
  create_session_found :
      (sessions : Sessions) (s : backend.S) (session : Session)
      → Unique sessions
      → (create_session backend settings sessions s).0 ≡ ok session
      → (get_session backend settings session.id
          (create_session backend settings sessions s).1
          (create_session backend settings sessions s).2).0
        ≡ some session
  create_session_found sessions s session u e =
      create_session-ok sessions s session e λ id s1 same entered state.
        rw (entered, state, same)
          (new_session-found id (sweep_expired backend settings sessions s) s1
            (sweep_expired-Unique backend settings sessions s u))
