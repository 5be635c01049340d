-- ===== src/Pipeline/Gold/Hourly.antt =====
-- `main` of gold/transform/token_popularity_hourly.py, which reads token_flow with the schema of
-- schema/silver_schema.py.
use eth_project.Prelude.{ℕ, ◌≡◌, refl, Bool, true, false, Option, none, some, List}
use eth_project.Action.{
  Action, Result, Exception, ok, raised, os_error, value_error, continue, ◌>>◌,
}
use eth_project.Silver.TokenFlow.{TokenFlow}
use eth_project.Silver.Checks.{resolves, token_flow_schema}
use eth_project.Gold.Popularity.{Floats}
use eth_project.Gold.Hourly.{HourlyBase, TokenPopularityHourly, build_token_popularity_hourly}
use eth_project.Pipeline.Tables.{Table, read_silver}
use eth_project.Pipeline.Gold.{GoldTable, GoldEnv, gold_session, write_gold, write_gold_to_bq}

module _ {A : Type 0} where
  -- An action that raises and changes nothing.
  abbrev Raises : Action (GoldTable A) (Unit {0}) → GoldTable A → Type 0
  Raises m s = (e : Exception) × (m s ≡ (raised e, s))

  then-Raises :
      (m n : Action (GoldTable A) (Unit {0})) (s : GoldTable A) → Raises m s → Raises (m >> n) s
  then-Raises m n s (e, h) = (e, rw h refl)

  session-Raises :
      (works : Bool) (m : Action (GoldTable A) (Unit {0})) (s : GoldTable A)
      → Raises m s
      → Raises (gold_session works >> m) s
  session-Raises true m s h = h
  session-Raises false m s h = (os_error, refl)

module _ {Float : Type 0} (floats : Floats Float)
    (by_hour : List (HourlyBase Float) → List (HourlyBase Float))
    (has_status_1 : TokenFlow Float → Bool) (silver : Table (TokenFlow Float)) (d : ℕ) where
  -- Both writes of a table that could be built.
  unfoldable pub store_hourly :
      GoldEnv (TokenPopularityHourly Float)
      → Option (List (TokenPopularityHourly Float))
      → Action (GoldTable (TokenPopularityHourly Float)) (Unit {0})
  store_hourly env none s = (raised value_error, s)
  store_hourly env (some out) s = (do write_gold env.write d out; write_gold_to_bq env.load d out) s

  unfoldable pub build_and_store_hourly :
      GoldEnv (TokenPopularityHourly Float)
      → Result (List (TokenFlow Float))
      → Action (GoldTable (TokenPopularityHourly Float)) (Unit {0})
  build_and_store_hourly env read = continue read (λ rows.
      store_hourly env
        (build_token_popularity_hourly floats by_hour token_flow_schema has_status_1 rows))

  unfoldable pub token_popularity_hourly_main :
      GoldEnv (TokenPopularityHourly Float)
      → Action (GoldTable (TokenPopularityHourly Float)) (Unit {0})
  token_popularity_hourly_main env = do
    gold_session env.session
    build_and_store_hourly env (read_silver env.readable silver d)
    gold_session env.stop

  -- The schema of token_flow has no column `status`.
  build_hourly-none :
      (rows : List (TokenFlow Float))
      → build_token_popularity_hourly floats by_hour token_flow_schema has_status_1 rows ≡ none
  unfolding build_token_popularity_hourly token_flow_schema resolves
  build_hourly-none rows = refl

  build_and_store_hourly-Raises :
      (env : GoldEnv (TokenPopularityHourly Float)) (read : Result (List (TokenFlow Float)))
      (s : GoldTable (TokenPopularityHourly Float))
      → Raises (build_and_store_hourly env read) s
  unfolding build_and_store_hourly store_hourly
  build_and_store_hourly-Raises env (raised e) s = (e, refl)
  build_and_store_hourly-Raises env (ok rows) s = (value_error, rw (build_hourly-none rows) refl)

  -- The hourly job raises and stores nothing, whatever table it reads.
  pub hourly_main_raises :
      (env : GoldEnv (TokenPopularityHourly Float)) (s : GoldTable (TokenPopularityHourly Float))
      → (e : Exception) × (token_popularity_hourly_main env s ≡ (raised e, s))
  unfolding token_popularity_hourly_main
  hourly_main_raises env s =
      session-Raises env.session
        (build_and_store_hourly env (read_silver env.readable silver d) >> gold_session env.stop) s
        (then-Raises (build_and_store_hourly env (read_silver env.readable silver d))
          (gold_session env.stop) s
          (build_and_store_hourly-Raises env (read_silver env.readable silver d) s))
