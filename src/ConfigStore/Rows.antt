-- ===== src/ConfigStore/Rows.antt =====
-- What the reads and writes of single rows do when they succeed.
use elara.Prelude.{ℕ, Bytes, ◌≡◌, arith, some}
use elara.Prelude.Outcome.{ok}
use elara.Domain.Config.{Config, EventType}
use elara.Domain.Row.{ConfigMeta, ChangeRow, domain_to_config_meta}
use elara.Storage.Backend.{Backend}
use elara.Storage.Tx.{bind_ok}
use elara.ConfigStore.Keys.{history_key, revision_bytes}
use elara.ConfigStore.Db.{
  Db, increment, sys_value, sys_revision_key, next_revision, write_config_entry, put_content,
  put_meta, write_history, write_changelog, validate_namespace_unlocked, find_meta,
}
use elara.ConfigStore.Write.{require_meta}

-- The row of a change in the changelog.
abbrev pub change_row : ℕ → EventType → Bytes → Bytes → ℕ → ChangeRow
change_row now kind path namespace version = record {
  kind = kind;
  path = path;
  namespace = namespace;
  version = version;
  timestamp = now;
}

module _ {K : Backend} where
  abbrev pub with_content : Bytes → Bytes → Db K → Db K
  with_content key v s = record s { content = K.put s.content key v }

  abbrev pub with_meta : Bytes → ConfigMeta → Db K → Db K
  with_meta key m s = record s { meta = K.put s.meta key (K.encode_meta m) }

  abbrev pub with_history : Bytes → Bytes → Db K → Db K
  with_history key v s = record s { history = K.put s.history key v }

  abbrev pub with_change : ℕ → ChangeRow → Db K → Db K
  with_change r e s = record s {
    changelog = K.put s.changelog (revision_bytes r) (K.encode_change e);
  }

  abbrev pub with_revision : ℕ → Db K → Db K
  with_revision r s = record s { sys = K.put s.sys sys_revision_key (revision_bytes r) }

  pub put_content_ok :
      (key v : Bytes) (s : Db K) {s' : Db K} {u : Unit {0}}
      → put_content key v s ≡ (ok u, s')
      → s' ≡ with_content key v s
  unfolding put_content
  put_content_ok key v s h = ground arith

  pub put_meta_ok :
      (key : Bytes) (m : ConfigMeta) (s : Db K) {s' : Db K} {u : Unit {0}}
      → put_meta key m s ≡ (ok u, s')
      → s' ≡ with_meta key m s
  unfolding put_meta
  put_meta_ok key m s h = ground arith

  pub write_history_ok :
      (ns path : Bytes) (r : ℕ) (v : Bytes) (s : Db K) {s' : Db K} {u : Unit {0}}
      → write_history ns path r v s ≡ (ok u, s')
      → s' ≡ with_history (history_key ns path r) v s
  unfolding write_history
  write_history_ok ns path r v s h = ground arith

  pub write_changelog_ok :
      (now r : ℕ) (kind : EventType) (path ns : Bytes) (version : ℕ) (s : Db K) {s' : Db K}
      {u : Unit {0}}
      → write_changelog now r kind path ns version s ≡ (ok u, s')
      → s' ≡ with_change r (change_row now kind path ns version) s
  unfolding write_changelog
  write_changelog_ok now r kind path ns version s h = ground arith

  pub next_revision_ok :
      (s : Db K) {s' : Db K} {r : ℕ}
      → next_revision s ≡ (ok r, s')
      → (r ≡ increment (sys_value s sys_revision_key)) × (s' ≡ with_revision r s)
  unfolding next_revision
  next_revision_ok s h = ground arith

  pub validate_namespace_unlocked_ok :
      (ns : Bytes) (s : Db K) {s' : Db K} {u : Unit {0}}
      → validate_namespace_unlocked ns s ≡ (ok u, s')
      → s' ≡ s
  unfolding validate_namespace_unlocked
  validate_namespace_unlocked_ok ns s h = ground arith

  pub require_meta_ok :
      (key : Bytes) (s : Db K) {s' : Db K} {m : ConfigMeta}
      → require_meta key s ≡ (ok m, s')
      → (s' ≡ s) × (find_meta s key ≡ ok (some m))
  unfolding require_meta
  require_meta_ok key s h = ground arith

  -- The four puts of a write, in the order of the code.
  abbrev pub with_entry : ℕ → Bytes → Bytes → Bytes → Bytes → ConfigMeta → EventType → Db K → Db K
  with_entry now key ns path v m kind s =
      with_change m.revision (change_row now kind path ns m.version)
        (with_history (history_key ns path m.revision) v (with_meta key m (with_content key v s)))

  pub write_config_entry_ok :
      (now : ℕ) (key : Bytes) (cfg : Config) (r : ℕ) (kind : EventType) (s : Db K) {s' : Db K}
      {u : Unit {0}}
      → cfg.revision ≡ r
      → write_config_entry now key cfg r kind s ≡ (ok u, s')
      → s'
        ≡ with_entry now key cfg.namespace cfg.path cfg.content (domain_to_config_meta cfg) kind s
  unfolding write_config_entry domain_to_config_meta
  write_config_entry_ok now key cfg r kind s e h =
      let (u1, t1, e1, h1) = bind_ok (put_content key cfg.content) _ s h in
      let (u2, t2, e2, h2) = bind_ok (put_meta key (domain_to_config_meta cfg)) _ t1 h1 in
      let (u3, t3, e3, h3) = bind_ok (write_history cfg.namespace cfg.path r cfg.content) _ t2 h2 in
      cc (
        e,
        put_content_ok key cfg.content s e1,
        put_meta_ok key (domain_to_config_meta cfg) t1 e2,
        write_history_ok cfg.namespace cfg.path r cfg.content t2 e3,
        write_changelog_ok now r kind cfg.path cfg.namespace cfg.version t3 h3,
      )
