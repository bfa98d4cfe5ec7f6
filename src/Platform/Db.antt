-- ===== src/Platform/Db.antt =====
-- The connection to the database, which is kept while the configuration asks for the same one.
pub mod Current
use srv.Prelude.{ite, Option, none, some, ◌++◌, Result, ok, err, Text, text_discrete}
use srv.Platform.Config.{Environment}
use srv.Platform.Orm.Keys.{get_db_prefix}

-- The options of a URL, and the client made with them.
pub record Clients : Type 1 where
  pub Client : Type 0
  pub Options : Type 0
  pub parse_url : Text → Result Options
  pub new_client : Options → Client

module _ (r : Clients) where
  -- The variables of the package.
  pub record Connection : Type 0 where
    pub client : Option r.Client
    pub client_url : Text
    pub key_prefix : Text

  -- A new client, or none for the panic on a URL that is no good.
  unfoldable pub connect : Environment → Connection → Option (r.Client × Text) × Connection
  unfolding get_db_prefix
  connect config s = elim (r.parse_url config.db_url) [
    | err e ↦ (none, s)
    | ok opts ↦
        let client = r.new_client opts in
        let prefix = get_db_prefix config.db_key_prefix in
        (
          some (client, prefix),
          record { client = some client; client_url = config.db_url; key_prefix = prefix },
        )
  ]

  unfoldable pub get_db : Environment → Connection → Option (r.Client × Text) × Connection
  unfolding connect get_db_prefix
  get_db config s = elim s.client [
    | none ↦ connect config s
    | some client ↦
        ite (text_discrete s.client_url config.db_url)
          (ite (text_discrete s.key_prefix (get_db_prefix config.db_key_prefix))
            (some (client, s.key_prefix), s) (connect config s))
          (connect config s)
  ]
