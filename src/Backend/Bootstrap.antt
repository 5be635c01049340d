-- ===== src/Backend/Bootstrap.antt =====
-- `bootstrap_es_tokens` of scripts/bootstrap_es_tokens.py, which fills the index that
-- Backend/Trending searches. Each call returns or raises as `BootstrapEnv` says.
use eth_project.Prelude.{
  ◌≡◌, refl, String, Bool, true, false, Option, none, some, List, [], ◌∷◌, select, ap,
}
use eth_project.Action.{Action, Result, ok, raised, os_error, database_error, call, ◌>>◌, finally}
use eth_project.Backend.Tokens.{TokenInfo}
use eth_project.Backend.Loading.{upsert_all, row_of}
use eth_project.Backend.Loading.Upserts.{last_or, row_of-upsert_all}

-- The index `tokens`, if there is one, and the two clients.
pub record Clients : Type 0 where
  pub index : Option (List TokenInfo)
  pub conn_open : Bool
  pub es_open : Bool

pub record BootstrapEnv : Type 0 where
  pub exists_returns : Bool
  pub delete_returns : Bool
  pub create_returns : Bool
  pub connect_returns : Bool
  pub token_rows : Option (List TokenInfo)
  pub bulk_returns : Bool
  -- Whether Elasticsearch takes a document, be it that `bulk` returns or, as in a timeout, raises.
  pub takes : TokenInfo → Bool
  pub conn_closes : Bool
  pub es_closes : Bool

abbrev es_call : Bool → (Clients → Clients) → Action Clients (Unit {0})
es_call works f = call works os_error f

-- The index that is there is deleted.
unfoldable pub delete_index : Bool → Option (List TokenInfo) → Action Clients (Unit {0})
delete_index returns none s = (ok tt, s)
delete_index returns (some docs) s = es_call returns (λ c. record c { index = none }) s

unfoldable pub create_index : BootstrapEnv → Action Clients (Unit {0})
create_index env = do
  es_call env.exists_returns (λ c. c)
  (λ s. delete_index env.delete_returns s.index s)
  es_call env.create_returns (λ c. record c { index = some [] })

abbrev pub documents : Option (List TokenInfo) → List TokenInfo
documents none = []
documents (some docs) = docs

-- `bulk` indexes by `_id`; a bulk index creates what is missing.
unfoldable pub put_documents : List TokenInfo → Clients → Clients
put_documents docs c = record c {
  index = some (upsert_all TokenInfo.address docs (documents c.index));
}

abbrev answer : Bool → Result (Unit {0})
answer true = ok tt
answer false = raised os_error

unfoldable pub fill_index :
    (takes : TokenInfo → Bool) (bulk_returns : Bool)
    → Option (List TokenInfo)
    → Action Clients (Unit {0})
fill_index takes bulk_returns none s = (raised database_error, s)
fill_index takes bulk_returns (some []) s = (ok tt, s)
fill_index takes bulk_returns (some (t ∷ ts)) s =
    (answer bulk_returns, put_documents (select takes (t ∷ ts)) s)

-- `except Exception as e: logger.error(...)`.
abbrev logged_error : Action Clients (Unit {0}) → Action Clients (Unit {0})
logged_error m s = let (r, s') = m s in (ok tt, s')

unfoldable pub close_clients_of : BootstrapEnv → Action Clients (Unit {0})
close_clients_of env = do
  call env.conn_closes database_error (λ c. record c { conn_open = false })
  es_call env.es_closes (λ c. record c { es_open = false })

-- From the client of Elasticsearch on, whose construction opens nothing that can fail.
unfoldable pub bootstrap_es_tokens : BootstrapEnv → Action Clients (Unit {0})
bootstrap_es_tokens env = do
  create_index env
  call env.connect_returns database_error (λ c. record c { conn_open = true })
  finally (logged_error (fill_index env.takes env.bulk_returns env.token_rows))
      (close_clients_of env)

-- The documents that the index gets.
abbrev pub indexed : (TokenInfo → Bool) → Option (List TokenInfo) → List TokenInfo
indexed takes none = []
indexed takes (some tokens) = select takes tokens

delete-create :
    (o : Option (List TokenInfo)) (s : Clients)
    → (delete_index true o >> es_call true (λ c. record c { index = some [] })) s
      ≡ (ok tt, record s { index = some [] })
unfolding delete_index
delete-create none s = refl
delete-create (some docs) s = refl

fill_index_lem :
    (takes : TokenInfo → Bool) (bulk_returns : Bool) (o : Option (List TokenInfo)) (s : Clients)
    → (fill_index takes bulk_returns o (record s { index = some [] })).1
      ≡ record s { index = some (upsert_all TokenInfo.address (indexed takes o) []) }
unfolding fill_index put_documents upsert_all
fill_index_lem takes bulk_returns none s = refl
fill_index_lem takes bulk_returns (some []) s = refl
fill_index_lem takes bulk_returns (some (t ∷ ts)) s = refl

-- The environment in which the calls around the filling of the index return.
abbrev pub around : (TokenInfo → Bool) → Bool → Option (List TokenInfo) → BootstrapEnv
around takes bulk_returns tokens = record {
  exists_returns = true;
  delete_returns = true;
  create_returns = true;
  connect_returns = true;
  token_rows = tokens;
  bulk_returns = bulk_returns;
  takes = takes;
  conn_closes = true;
  es_closes = true;
}

-- The index holds for an address the last document with it that Elasticsearch takes, and nothing of the
-- index before; both clients are closed; whether the query and the filling return or not, if the other
-- calls do.
pub bootstrap_lem :
    (takes : TokenInfo → Bool) (bulk_returns : Bool) (o : Option (List TokenInfo)) (s : Clients)
    → (docs : List TokenInfo) × (bootstrap_es_tokens (around takes bulk_returns o) s
        ≡ (ok tt, record { index = some docs; conn_open = false; es_open = false }))
      × ((k : String)
          → row_of TokenInfo.address k docs ≡ last_or TokenInfo.address k (indexed takes o) none)
unfolding bootstrap_es_tokens create_index close_clients_of row_of
bootstrap_lem takes bulk_returns o s = (
  upsert_all TokenInfo.address (indexed takes o) [],
  rw (delete-create s.index s) (
      ap (λ c. (ok tt, record c { conn_open = false; es_open = false }))
        (fill_index_lem takes bulk_returns o (record s { conn_open = true }))),
  λ k. row_of-upsert_all TokenInfo.address k (indexed takes o) [],
)
