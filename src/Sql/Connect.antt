-- ===== src/Sql/Connect.antt =====
-- How a `SqlDataSource` of src/data_source/sql.rs is configured and opened.
use hotshot_query_service.Prelude.{
  ℕ, Option, none, some, List, [], ◌∷◌, ◌++◌, Bool, true, false, if◌then◌else◌, Result, ok, err,
  Fault, error, panic, ◌>>=◌, map_err, map_fault, and_then, ◌==◌,
}
use Prim.Native.String.{String}
use hotshot_query_service.NodeTypes.{NodeTypes}
use hotshot_query_service.Errors.{QueryError, failure}
use hotshot_query_service.Channel.{init}
use hotshot_query_service.Availability.QueryData.{genesis_leaf, genesis_block}
use hotshot_query_service.Sql.Client.{Client, Encodings}
use hotshot_query_service.Sql.Defs.{SqlDataSource, insert_leaf, insert_block, commit}
use hotshot_query_service.Sql.Queries.{source_height}
use hotshot_query_service.Sql.Migrations.{
  Refinery, Itertools, validate_migrations, add_custom_migrations, default_migrations,
}

pub record Config (R : Refinery) : Type 0 where
  pub host : String
  pub port : ℕ
  pub user : Option String
  pub password : Option String
  pub database : Option String
  pub migrations : List R.Migration
  pub no_migrations : Bool

module _ (R : Refinery) where
  -- `Config::default`
  abbrev pub default_config : Config R
  default_config = record {
    host = "localhost";
    port = 5432;
    user = none;
    password = none;
    database = none;
    migrations = [];
    no_migrations = false;
  }

  -- The methods of `Config` that set a field.
  abbrev pub set_host : Config R → String → Config R
  set_host config host = record config { host = host }

  abbrev pub set_port : Config R → ℕ → Config R
  set_port config port = record config { port = port }

  abbrev pub set_user : Config R → String → Config R
  set_user config user = record config { user = some user }

  abbrev pub set_password : Config R → String → Config R
  set_password config password = record config { password = some password }

  abbrev pub set_database : Config R → String → Config R
  set_database config database = record config { database = some database }

  abbrev pub extend_migrations : Config R → List R.Migration → Config R
  extend_migrations config migrations = record config {
    migrations = config.migrations ++ migrations;
  }

  abbrev pub skip_migrations : Config R → Config R
  skip_migrations config = record config { no_migrations = true }

-- What `connect` takes from the network and from the crates tokio_postgres and refinery: a connection to
-- a server, a client with a configuration, and the runner of migrations. `eq_migration` is `==`, and
-- `embedded` lists the migrations that the build embeds in the program.
pub record Server (R : Refinery) (Db : Type 0) : Type 1 where
  pub Tcp : Type 0
  pub PgConfig : Type 0
  pub embedded : List R.Migration
  pub eq_migration : R.Migration → R.Migration → Bool
  pub tcp_connect : String → ℕ → Result String Tcp
  pub pg_default : PgConfig
  pub pg_user : PgConfig → String → PgConfig
  pub pg_password : PgConfig → String → PgConfig
  pub pg_dbname : PgConfig → String → PgConfig
  pub connect_raw : PgConfig → Tcp → Result String Db
  pub get_last_applied : List R.Migration → Db → Db × Result String (Option R.Migration)
  pub run : List R.Migration → Db → Db × Result String (Unit {0})

-- An error of `connect`: the text of another error, or what its own text shows.
pub data ConnectError (R : Refinery) : Type 0 where
  caused : String → ConnectError R
  not_increasing : R.Migration × R.Migration → ConnectError R
  out_of_date : Option R.Migration → Option R.Migration → ConnectError R
  query_error : QueryError → ConnectError R

-- `slice::last`
unfoldable pub last : {A : Type 0} → List A → Option A
last [] = none
last (x ∷ []) = some x
last (x ∷ y ∷ ys) = last (y ∷ ys)

-- `==` on options
unfoldable pub eq_option : {A : Type 0} → (A → A → Bool) → Option A → Option A → Bool
eq_option eq (some a) (some b) = eq a b
eq_option eq none none = true
eq_option eq (some a) none = false
eq_option eq none (some b) = false

-- A setting that is given only if it is set.
abbrev with_setting : {G : Type 0} → (G → String → G) → Option String → G → G
with_setting f (some s) g = f g s
with_setting f none g = g

module _ (R : Refinery) {Db : Type 0} (S : Server R Db) where
  unfoldable pub pg_config : Config R → S.PgConfig
  pg_config config =
      with_setting S.pg_dbname config.database (
        with_setting S.pg_password config.password
          (with_setting S.pg_user config.user S.pg_default))

  -- The part of `connect` that brings the database up to date, or checks that it is.
  unfoldable pub migrate : Bool → List R.Migration → Db → Result (Fault (ConnectError R)) Db
  unfolding last eq_option
  migrate true migrations db =
      let (db', applied) = S.get_last_applied migrations db in
      do
        last_applied ← map_err (λ e. error (caused e)) applied
        (if eq_option S.eq_migration last_applied (last migrations)
            then ok db'
            else err (error (out_of_date last_applied (last migrations))))
  migrate false migrations db =
      let (db', ran) = S.run migrations db in
      do report ← map_err (λ e. error (caused e)) ran; ok db'

module _ (N : NodeTypes) (C : Encodings N) (K : Client C.Json C.Text) where
  -- `insert_genesis`
  unfoldable pub insert_genesis :
      SqlDataSource N C K → SqlDataSource N C K × Result (Fault QueryError) (Unit {0})
  unfolding source_height insert_leaf insert_block commit
  insert_genesis ds = elim (source_height N C K ds) [
    | err e ↦ (ds, err e)
    | ok height ↦
        if height == 0
        then and_then
            (and_then (map_fault error (insert_leaf N C K ds (genesis_leaf N)))
              (λ ds'. insert_block N C K ds' (genesis_block N)))
            (λ ds'. map_fault (λ e. error (failure e)) (commit N C K ds'))
        else (ds, ok tt)
  ]

  -- The data source on a database, with nothing in progress.
  unfoldable pub open_source : K.Db → SqlDataSource N C K
  unfolding init
  open_source db = record {
    client = db;
    tx_in_progress = false;
    leaf_stream = init;
    block_stream = init;
  }

  -- The data source, if the genesis block is stored.
  abbrev with_genesis :
      {R : Refinery}
      → SqlDataSource N C K × Result (Fault QueryError) (Unit {0})
      → Result (Fault (ConnectError R)) (SqlDataSource N C K)
  with_genesis (ds, ok _) = ok ds
  with_genesis (ds, err (error e)) = err (error (query_error e))
  with_genesis (ds, err panic) = err panic

  -- The task that drives the connection, and its end, are left out.
  unfoldable pub connect :
      (R : Refinery)
      → Itertools
      → Server R K.Db
      → Config R
      → Result (Fault (ConnectError R)) (SqlDataSource N C K)
  unfolding pg_config migrate insert_genesis open_source validate_migrations add_custom_migrations
      default_migrations
  connect R I S config = do
    tcp ← map_err (λ e. error (caused e)) (S.tcp_connect config.host config.port)
    db ← map_err (λ e. error (caused e)) (S.connect_raw (pg_config R S config) tcp)
    sorted ← map_err (λ e. error (not_increasing e)) (validate_migrations R config.migrations).1
    defaults ← default_migrations R S.embedded
    db' ←
        migrate R S config.no_migrations
          (add_custom_migrations R I defaults (validate_migrations R config.migrations).0) db
    with_genesis (insert_genesis (open_source db'))
