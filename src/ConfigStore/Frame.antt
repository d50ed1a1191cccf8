-- ===== src/ConfigStore/Frame.antt =====
-- internal/storage/bbolt/config: a write of one key is not seen at the others.
use elara.Prelude.{
  ℕ, Bytes, bytes_eq, bytes_eq_refl, ◌≡◌, ap, sym, ◌∙◌, true, false, ◌&&◌, Option, none, some, [],
  ◌∷◌, if_true, if_false, Option-cases, inl, inr,
}
use elara.Prelude.Outcome.{ok, err}
use elara.Domain.Config.{KvPair}
use elara.Domain.Failure.{decode_failed}
use elara.Storage.Backend.{Backend}
use elara.ConfigStore.Keys.{config_key}
use elara.ConfigStore.Keys.Order.{no_sep, config_key_eq}
use elara.ConfigStore.Db.{Db, bytes_of}
use elara.ConfigStore.Etcd.{kv_pair, build_range_params}
use elara.ConfigStore.EtcdWrite.{put_key_tx}
use elara.ConfigStore.Write.{delete_config_tx}
use elara.ConfigStore.Writes.Put.{put_key_tx_ok}
use elara.ConfigStore.Writes.Delete.{delete_config_tx_ok}
use elara.ConfigStore.PointRead.{point_broken}
use elara.ConfigStore.ReadBack.{read_key, read_of, read_found, read_absent}

apart :
    (ns path ns' path' : Bytes)
    → no_sep ns ≡ true
    → no_sep ns' ≡ true
    → (bytes_eq ns ns' && bytes_eq path path') ≡ false
    → bytes_eq (config_key ns path) (config_key ns' path') ≡ false
apart ns path ns' path' clean clean' differ = config_key_eq ns path ns' path' clean clean' ∙ differ

module _ {K : Backend} where
  read_broken :
      (s : Db K) (ns path b : Bytes)
      → K.get s.meta (config_key ns path) ≡ some b
      → K.decode_meta b ≡ none
      → (read_key ns path s).0 ≡ err decode_failed
  unfolding read_key build_range_params bytes_eq
  read_broken s ns path b at broken =
      ap (λ p. p.0) (point_broken s (config_key ns path) b at broken)

  -- A read depends on the row and the content of its key.
  read_same :
      (s s' : Db K) (ns path : Bytes)
      → no_sep ns ≡ true
      → K.get s'.meta (config_key ns path) ≡ K.get s.meta (config_key ns path)
      → K.get s'.content (config_key ns path) ≡ K.get s.content (config_key ns path)
      → (read_key ns path s').0 ≡ (read_key ns path s).0
  read_same s s' ns path clean row content =
      elim (Option-cases (K.get s.meta (config_key ns path))) [
        | inl gone ↦
            ap (λ p. p.0) (read_absent s' ns path (row ∙ gone))
            ∙ sym (ap (λ p. p.0) (read_absent s ns path gone))
        | inr (b, at) ↦ elim (Option-cases (K.decode_meta b)) [
          | inl broken ↦
              read_broken s' ns path b (row ∙ at) broken ∙ sym (read_broken s ns path b at broken)
          | inr (m, decodes) ↦
              ap (λ p. p.0) (read_found s' ns path b m clean (row ∙ at) decodes)
              ∙ ap (λ c. ok (kv_pair ns path m (bytes_of c, m.revision) ∷ [], false)) content
              ∙ sym (ap (λ p. p.0) (read_found s ns path b m clean at decodes))
        ]
      ]

  -- A successful put leaves the read of every other key as it was; no namespace has the separator.
  pub put_elsewhere :
      (now : ℕ) (ns path value ns' path' : Bytes) (s s' : Db K) (p : Option KvPair × ℕ)
      → no_sep ns ≡ true
      → no_sep ns' ≡ true
      → (bytes_eq ns ns' && bytes_eq path path') ≡ false
      → put_key_tx now ns path value s ≡ (ok p, s')
      → (read_key ns' path' s').0 ≡ (read_key ns' path' s).0
  put_elsewhere now ns path value ns' path' s s' p clean clean' differ h =
      let (existing, found, allowed, same, w) = put_key_tx_ok now ns path value s h in
      let other = apart ns path ns' path' clean clean' differ in
      read_same s s' ns' path' clean' (w.meta_at (config_key ns' path') ∙ if_false _ _ _ other)
        (w.content_at (config_key ns' path') ∙ if_false _ _ _ other)

  -- After a successful Delete a read of the key finds nothing, and the read of every other key is as it
  -- was; no namespace has the separator.
  pub delete_then_read :
      (now : ℕ) (path ns path' ns' : Bytes) (s s' : Db K) (r : ℕ)
      → no_sep ns ≡ true
      → no_sep ns' ≡ true
      → (bytes_eq ns ns' && bytes_eq path path') ≡ false
      → delete_config_tx now path ns s ≡ (ok r, s')
      → (read_key ns path s' ≡ read_of [] s')
        × ((read_key ns' path' s').0 ≡ (read_key ns' path' s).0)
  delete_then_read now path ns path' ns' s s' r clean clean' differ h =
      let (m, found, unlocked, w) = delete_config_tx_ok now path ns s h in
      let other = apart ns path ns' path' clean clean' differ in
      (
        read_absent s' ns path
            (w.meta_at (config_key ns path) ∙ if_true _ _ _ (bytes_eq_refl (config_key ns path))),
        read_same s s' ns' path' clean' (w.meta_at (config_key ns' path') ∙ if_false _ _ _ other)
            (w.content_at (config_key ns' path') ∙ if_false _ _ _ other),
      )
