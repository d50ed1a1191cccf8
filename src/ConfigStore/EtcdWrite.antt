-- ===== src/ConfigStore/EtcdWrite.antt =====
-- internal/storage/bbolt/config/etcd.go: PutKey and DeleteRangeKeys.
use elara.Prelude.{ℕ, Bytes, Bool, Option, none, some, List, [], ◌∷◌, if◌then◌else◌, map}
use elara.Prelude.Outcome.{Outcome, ok, err}
use elara.Domain.Failure.{Failure, locked, decode_failed}
use elara.Domain.Config.{KvPair, event_deleted}
use elara.Domain.Row.{ConfigMeta}
use elara.Storage.Bolt.Pairs.{Pairs}
use elara.Storage.Backend.{Backend}
use elara.Storage.Tx.{Run, Ctx, ◌>>=◌, ◌>>◌, pure, lift, with_tx}
use elara.ConfigStore.Keys.{config_key, parse_config_key}
use elara.ConfigStore.Db.{
  Db, bytes_of, validate_namespace_unlocked, put_content, put_meta, delete_content, delete_meta,
  next_revision, write_changelog, write_history,
}
use elara.ConfigStore.Write.{rollback_db}
use elara.ConfigStore.Etcd.{
  RangeParams, ExistingKey, build_range_params, should_break_range, resolve_existing_key,
  build_put_meta, build_prev_kv, check_put_allowed,
}

-- A key to delete, and its snapshot.
pub record DeleteTarget : Type 0 where
  pub key : Bytes
  pub kv : KvPair

abbrev add_target :
    DeleteTarget → Outcome Failure (List DeleteTarget) → Outcome Failure (List DeleteTarget)
add_target t (ok l) = ok (t ∷ l)
add_target t (err e) = err e

module _ {K : Backend} where
  unfoldable pub write_put :
      ℕ → Bytes → Bytes → Bytes → Option ExistingKey → Run (Db K) (Option KvPair × ℕ)
  write_put now namespace path value existing = do
    revision ← next_revision
    let new_meta = build_put_meta K now path value revision existing
    put_content (config_key namespace path) value
    put_meta (config_key namespace path) new_meta.0
    write_history namespace path revision value
    write_changelog now revision new_meta.1 path namespace new_meta.0.version
    pure (build_prev_kv existing namespace path, revision)

  unfoldable pub put_key_tx : ℕ → Bytes → Bytes → Bytes → Run (Db K) (Option KvPair × ℕ)
  put_key_tx now namespace path value = do
    existing ← resolve_existing_key (config_key namespace path)
    validate_namespace_unlocked namespace
    lift (check_put_allowed existing)
    write_put now namespace path value existing

  unfoldable pub put_key : Ctx → Bytes → Bytes → Bytes → Run (Db K) (Option KvPair × ℕ)
  put_key ctx namespace path value =
      with_tx rollback_db ctx (λ tx. put_key_tx tx.now namespace path value)

  unfoldable pub target_of : Db K → Bytes → ConfigMeta → Bool → DeleteTarget
  target_of s k m return_prev =
      let (ns, path) = parse_config_key k in
      record {
        key = k;
        kv =
            if return_prev
            then record {
              namespace = ns;
              path = path;
              value = bytes_of (K.get s.content k);
              create_revision = m.create_revision;
              mod_revision = m.revision;
              version = m.version;
            }
            else record {
              namespace = ns;
              path = path;
              value = [];
              create_revision = 0;
              mod_revision = 0;
              version = 0;
            };
      }

  unfoldable pub collect_delete_targets :
      Db K → RangeParams → Bool → Pairs → Outcome Failure (List DeleteTarget)
  unfolding target_of
  collect_delete_targets s rp return_prev [] = ok []
  collect_delete_targets s rp return_prev ((k, v) ∷ rest) =
      let onward = collect_delete_targets s rp return_prev rest in
      if should_break_range k rp then ok [] else elim (K.decode_meta v) [
        | none ↦ err decode_failed
        | some m ↦ if m.locked then err locked else add_target (target_of s k m return_prev) onward
      ]

  unfoldable pub delete_targets : ℕ → ℕ → List DeleteTarget → Run (Db K) Unit
  delete_targets now revision [] = pure tt
  delete_targets now revision (t ∷ targets) = do
    delete_content t.key
    delete_meta t.key
    write_changelog now revision event_deleted t.kv.path t.kv.namespace 0
    delete_targets now revision targets

  unfoldable pub delete_all_targets : ℕ → List DeleteTarget → Run (Db K) (List KvPair × ℕ)
  delete_all_targets now [] = pure ([], 0)
  delete_all_targets now (t ∷ targets) = do
    revision ← next_revision
    delete_targets now revision (t ∷ targets)
    pure (map (λ t. t.kv) (t ∷ targets), revision)

  unfoldable pub delete_range_keys_tx :
      ℕ → RangeParams → Bytes → Bool → Run (Db K) (List KvPair × ℕ)
  unfolding delete_all_targets
  delete_range_keys_tx now rp start_ns return_prev = do
    validate_namespace_unlocked start_ns
    targets ← λ s. lift (collect_delete_targets s rp return_prev (K.seek s.meta rp.start_key)) s
    delete_all_targets now targets

  unfoldable pub delete_range_keys :
      Ctx → Bytes → Bytes → Bytes → Bytes → Bool → Run (Db K) (List KvPair × ℕ)
  delete_range_keys ctx start_ns start_path end_ns end_path return_prev =
      with_tx rollback_db ctx (λ tx.
        delete_range_keys_tx tx.now (build_range_params start_ns start_path end_ns end_path)
          start_ns return_prev)
