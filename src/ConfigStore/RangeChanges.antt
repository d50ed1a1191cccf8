-- ===== src/ConfigStore/RangeChanges.antt =====
-- internal/storage/bbolt/config/etcd.go: what a DeleteRange leaves in the changelog.
use elara.Prelude.{ℕ, bytes_eq_refl, ◌≡◌, ap, sym, ◌∙◌, some, List, [], ◌∷◌, ◌++◌, if_true}
use elara.Prelude.Outcome.{ok}
use elara.Domain.Config.{event_deleted}
use elara.Storage.Backend.{Backend}
use elara.Storage.Tx.{bind_ok}
use elara.ConfigStore.Keys.{revision_bytes}
use elara.ConfigStore.Db.{Db, delete_content, delete_meta, write_changelog}
use elara.ConfigStore.EtcdWrite.{DeleteTarget, delete_targets}
use elara.ConfigStore.Rows.{change_row, write_changelog_ok}
use elara.ConfigStore.Writes.Delete.{without_entry}

module _ {K : Backend} where
  last_change :
      (now r : ℕ) (t : DeleteTarget) (s s' : Db K) (u : Unit {0})
      → delete_targets now r (t ∷ []) s ≡ (ok u, s')
      → K.get s'.changelog (revision_bytes r)
        ≡ some (K.encode_change (change_row now event_deleted t.kv.path t.kv.namespace 0))
  unfolding delete_targets delete_content delete_meta
  last_change now r t s s' u h =
      let (v, mid, e, rest) =
        bind_ok (write_changelog now r event_deleted t.kv.path t.kv.namespace 0)
          (λ _. delete_targets now r []) (without_entry t.key s) h in
      let written =
        write_changelog_ok now r event_deleted t.kv.path t.kv.namespace 0 (without_entry t.key s)
          e in
      let same : mid ≡ s' = ap (λ p. p.1) rest in
      ap (λ d. K.get d.changelog (revision_bytes r)) (sym same ∙ written)
      ∙ K.get-put s.changelog (revision_bytes r)
          (K.encode_change (change_row now event_deleted t.kv.path t.kv.namespace 0))
          (revision_bytes r)
      ∙ if_true _ _ _ (bytes_eq_refl (revision_bytes r))

  -- When the deletions of a DeleteRange have succeeded, the changelog has at its revision the change of
  -- the last key that was deleted.
  pub delete_targets-change :
      (now r : ℕ) (targets : List DeleteTarget) (t : DeleteTarget) (s s' : Db K) (u : Unit {0})
      → delete_targets now r (targets ++ t ∷ []) s ≡ (ok u, s')
      → K.get s'.changelog (revision_bytes r)
        ≡ some (K.encode_change (change_row now event_deleted t.kv.path t.kv.namespace 0))
  unfolding delete_targets delete_content delete_meta
  delete_targets-change now r [] t s s' u h = last_change now r t s s' u h
  delete_targets-change now r (x ∷ targets) t s s' u h =
      let (v, mid, e, rest) =
        bind_ok (write_changelog now r event_deleted x.kv.path x.kv.namespace 0)
          (λ _. delete_targets now r (targets ++ t ∷ [])) (without_entry x.key s) h in
      delete_targets-change now r targets t mid s' u rest
