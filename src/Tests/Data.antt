-- ===== src/Tests/Data.antt =====
-- A small repository in memory, and the data of the runs.
use elara.Prelude.{Bytes, codes, false, none, []}
use elara.Prelude.Outcome.{Outcome, ok}
use elara.Domain.Failure.{Failure}
use elara.Domain.Config.{Config, Format, format_json}
use elara.Storage.Tx.{Ctx, no_tx}
use elara.Storage.Bolt.Memory.{empty_table}
use elara.Storage.Memory.{memory_backend}
use elara.ConfigStore.Db.{Db}
use elara.KvService.{World}

abbrev pub empty_db : Db memory_backend
empty_db = record {
  content = empty_table;
  meta = empty_table;
  namespaces = empty_table;
  changelog = empty_table;
  history = empty_table;
  sys = empty_table;
  lock_history = empty_table;
  lock_changelog = empty_table;
}

abbrev pub call : Ctx
call = record {
  mode = no_tx;
  collecting = false;
  now = 7;
  begin_fails = false;
  commit_fails = false;
}

abbrev pub prod : Bytes
prod = codes "prod"

abbrev pub app : Bytes
app = codes "/app"

abbrev pub hello : Bytes
hello = codes "hi"

abbrev pub config : Config
config = record {
  path = app;
  content = hello;
  content_hash = [];
  format = format_json;
  version = 0;
  revision = 0;
  create_revision = 0;
  namespace = prod;
  metadata = none;
  locked = false;
  namespace_locked = false;
  created_at = 0;
  updated_at = 0;
}

abbrev pub any_value : Bytes → Bytes → Bytes → Format → Outcome Failure (Unit {0})
any_value namespace path value format = ok tt

abbrev pub empty_world : World memory_backend
empty_world = record { db = empty_db; pending = []; published = [] }
