-- ===== src/Startup/Choices.antt =====
-- What a process does at its beginning: files are not overwritten, each program serves its transport,
-- and the parts of the server agree with each other.
use redis_web.Prelude.{
  ℕ, Bool, true, false, ◌&&◌, ◌||◌, Option, none, some, Result, ok, err, ◌≡◌, refl, ap, sym, ◌∙◌,
  ◌⊎◌, inl, inr, arith, Bool-cases,
}
use redis_web.Text.{Bytes, codes}
use redis_web.Acl.{new_acl}
use redis_web.Compat.Creation.{CompatHiRedisConfig}
use redis_web.Config.Settings.{Config, TransportMode, rest, grpc}
use redis_web.Redis.Connection.{RedisError, ConnectionInfo}
use redis_web.Redis.Pools.{new_registry, Pooling, create_pool}
use redis_web.Http.Json.{Json}
use redis_web.Config.Documents.{default_document, starter_document}
use redis_web.Startup.{
  default_schema_path, InvocationKind, Args, System, Loading, exits, loaded, load_config,
  config_path_for, config_new, write_default_config, write_minimal_config, write_document, written,
  loading, both_writes,
}
use redis_web.Startup.Launch.{Launched, serves, Level, run, run_grpc}
use redis_web.Startup.Server.{RuntimeComponents, build_runtime}

-- is the hiredis bridge to be served?
abbrev has_bridge : TransportMode → Option CompatHiRedisConfig → Bool
has_bridge rest (some cfg) = cfg.enabled
has_bridge _ _ = false

abbrev pub is_set {ℓ} : {A : Type ℓ} → Option A → Bool
is_set none = false
is_set (some _) = true

module _ (system : System) where
  open system use {Files, exists}

  abbrev config_in : Config → Loading → Config
  config_in c (loaded config path) = config
  config_in c (exits status message) = c

  write_document_keeps :
      (path : Bytes) (document : Json) (files : Files)
      → ((write_document system path document files).1 ≡ files) ⊎ (exists path files ≡ false)
  write_document_keeps path document files = elim (Bool-cases (exists path files)) [
    | inl e ↦ inl (rw (e) refl)
    | inr e ↦ inr e
  ]

  pub written_lem :
      (heading name path : Bytes) (r : Result {0, 0} Bytes Unit × Files)
      → ((written system heading name path r).1 ≡ r.1)
        × ((status : ℕ) × ((message : Bytes) × ((written system heading name path r).0
                ≡ exits status message)))
  written_lem heading name path (ok _, files) = (refl, (_, (_, refl)))
  written_lem heading name path (err e, files) = (refl, (_, (_, refl)))

  -- what is to be written
  abbrev pub Asked : Args → Bool → Bool → Type 0
  Asked args both any_of =
      ((args.write_default_config && args.write_minimal_config) ≡ both)
      × ((args.write_default_config || args.write_minimal_config) ≡ any_of)

  pub load_config-cases :
      (kind : InvocationKind) (args : Args) (files : Files)
      → (Asked args true true
          × ((message : Bytes) × (load_config system kind args files ≡ (exits 1 message, files))))
        ⊎ ((Asked args false true
              × ((heading : Bytes) × ((name : Bytes) × ((document : Json) × (load_config system kind
                          args files
                        ≡ written system heading name (config_path_for system kind args files) (
                            write_document system
                              (config_path_for system kind args files)
                              document
                              files))))))
            ⊎ (Asked args false false
                × (load_config system kind args files ≡ (
                  loading system
                      (config_path_for system kind args files)
                      (config_new system (config_path_for system kind args files) files),
                  files,
                ))))
  unfolding load_config write_default_config write_minimal_config
  load_config-cases kind args files = elim (Bool-cases args.write_default_config) [
    | inl d ↦ elim (Bool-cases args.write_minimal_config) [
      | inl m ↦ inl ((rw (d, m) refl, rw (d) refl), (both_writes system, rw (d, m) refl))
      | inr m ↦ inr (
          inl (
            (rw (d, m) refl, rw (d) refl),
            (
              codes "Default",
              (codes "default", (default_document (default_schema_path kind), rw (d, m) refl)),
            ),
          ))
    ]
    | inr d ↦ elim (Bool-cases args.write_minimal_config) [
      | inl m ↦ inr (
          inl (
            (rw (d) refl, rw (d, m) refl),
            (
              codes "Minimal",
              (codes "minimal", (starter_document (default_schema_path kind), rw (d, m) refl)),
            ),
          ))
      | inr m ↦ inr (inr ((rw (d) refl, rw (d, m) refl), rw (d, m) refl))
    ]
  ]

  -- A start changes files only if it was asked to write one configuration, not both, and the file did
  -- not exist; then the process ends.
  pub load_config_keeps :
      (kind : InvocationKind) (args : Args) (files : Files)
      → ((load_config system kind args files).1 ≡ files)
        ⊎ ((exists (config_path_for system kind args files) files ≡ false)
            × (((args.write_default_config && args.write_minimal_config) ≡ false)
                × (((args.write_default_config || args.write_minimal_config) ≡ true)
                    × ((status : ℕ) × ((message : Bytes) × ((load_config system kind args files).0
                            ≡ exits status message))))))
  load_config_keeps kind args files = elim (load_config-cases kind args files) [
    | inl (_, (_, e)) ↦ inl (ap (λ l. l.1) e)
    | inr (inr (_, e)) ↦ inl (ap (λ l. l.1) e)
    | inr (inl ((b, a), (heading, (name, (document, e))))) ↦
        let path = config_path_for system kind args files in
        let (same, (status, (message, ends))) =
          written_lem heading name path (write_document system path document files) in
        elim (write_document_keeps path document files) [
          | inl k ↦ inl (ap (λ l. l.1) e ∙ (same ∙ k))
          | inr k ↦ inr (k, (b, (a, (status, (message, ap (λ l. l.0) e ∙ ends)))))
        ]
  ]

  -- the program that serves a transport
  abbrev pub program : TransportMode → InvocationKind → Args → Files → Launched × Files
  program rest = run system
  program grpc = run_grpc system

  loading_inv :
      (at : Bytes) (r : Result Bytes Config) (config : Config) (path : Bytes)
      → loading system at r ≡ loaded config path
      → r ≡ ok config
  loading_inv at (ok c) config path h = ap (λ l. ok (config_in c l)) h
  loading_inv at (err e) config path h = cc h

  -- A start that has a configuration to go on with loaded it from the path of the arguments, and no
  -- file was to be written.
  pub loaded_from :
      (kind : InvocationKind) (args : Args) (files : Files) (config : Config) (path : Bytes)
      → (load_config system kind args files).0 ≡ loaded config path
      → (config_new system (config_path_for system kind args files) files ≡ ok config)
        × ((args.write_default_config || args.write_minimal_config) ≡ false)
  loaded_from kind args files config path h = elim (load_config-cases kind args files) [
    | inl (_, (m, e)) ↦ cc (h, ap (λ l. l.0) e)
    | inr (inr ((_, none_of), e)) ↦
        (loading_inv _ _ config path (sym (ap (λ l. l.0) e) ∙ h), none_of)
    | inr (inl (_, (heading, (name, (document, e))))) ↦
        let (_, (status, (message, ends))) =
          written_lem heading name (config_path_for system kind args files)
            (write_document system (config_path_for system kind args files) document files) in
        cc (h, ap (λ l. l.0) e, ends)
  ]

  -- `redis-web` serves HTTP only and `redis-web-grpc` gRPC only, each what its configuration asks for,
  -- which was loaded from the path of the arguments while no file was to be written.
  pub run_serves :
      (mine mode : TransportMode) (kind : InvocationKind) (args : Args) (files : Files)
      (level : Level) (workers : Option ℕ) (config : Config)
      → (program mine kind args files).0 ≡ serves mode level workers config
      → (mode ≡ mine)
        × ((config.transport_mode ≡ mine)
            × ((config_new system (config_path_for system kind args files) files ≡ ok config)
                × ((args.write_default_config || args.write_minimal_config) ≡ false)))
  unfolding run run_grpc
  run_serves mine mode kind args files level workers config h =
      go mine (load_config system kind args files).0 refl h
    where
      go :
          (mine : TransportMode) (l : Loading)
          → (load_config system kind args files).0 ≡ l
          → (program mine kind args files).0 ≡ serves mode level workers config
          → (mode ≡ mine)
            × ((config.transport_mode ≡ mine)
                × ((config_new system (config_path_for system kind args files) files ≡ ok config)
                    × ((args.write_default_config || args.write_minimal_config) ≡ false)))
      go rest (exits status message) e h = ground (arith, e, h)
      go grpc (exits status message) e h = ground (arith, e, h)
      go rest (loaded c path) e h = ground (arith, e, h, loaded_from kind args files c path e)
      go grpc (loaded c path) e h = ground (arith, e, h, loaded_from kind args files c path e)

module _ (pooling : Pooling) {C Net : Type 0} (open_client : ConnectionInfo → Result RedisError C)
    (parse_net : Bytes → Option Net) where
  -- A server that was built answers for the configured database from the pool that was made for it,
  -- with the access list of the configuration, and has the hiredis bridge exactly if it serves REST
  -- and the bridge is enabled.
  build_runtime_agrees :
      (config : Config) (r : RuntimeComponents Net C)
      → build_runtime pooling open_client parse_net config ≡ ok r
      → (r.default_database ≡ config.database)
        × ((r.redis_pools.default_pool.database ≡ r.default_database)
            × ((r.acl ≡ new_acl parse_net config.acl)
                × (is_set r.compat_hiredis
                    ≡ has_bridge config.transport_mode config.compat_hiredis)))
  unfolding build_runtime new_registry create_pool
  build_runtime_agrees config r h = ground (arith, h)
