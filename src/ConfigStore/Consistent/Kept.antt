-- ===== src/ConfigStore/Consistent/Kept.antt =====
-- Every write of the repository keeps the invariant of the buckets.
use elara.Prelude.{
  ℕ, ◌+◌, ◌^◌, ◌<◌, ◌≤◌, Bytes, bytes_eq, bytes_eq_iff, bytes_eq_refl, bytes_eq_ne, some, ◌≡◌, refl,
  arith, false, ◌∙◌, sym, inl, inr, subst, Bool-cases,
}
use elara.Domain.Config.{EventType}
use elara.Domain.Row.{ConfigMeta}
use elara.Storage.Backend.{Backend, stored_meta}
use elara.ConfigStore.Keys.{config_key, history_key}
use elara.ConfigStore.Db.{Db}
use elara.ConfigStore.Writes.{Wrote}
use elara.ConfigStore.Consistent.{
  entry_key, history_key-entry_key, entry_key_inj, current, RowOk, IsConsistent, current-Wrote,
}

module _ {K : Backend} where
  -- The row that was written.
  new_row :
      {s s' : Db K} {now : ℕ} {ns path content : Bytes} {m : ConfigMeta} {kind : EventType}
      → current s + 1 < 2 ^ 64
      → m.create_revision ≤ m.revision
      → (w : Wrote s s' now ns path content m kind) → (b : Bytes) (m' : ConfigMeta)
      → K.get s'.meta (config_key ns path) ≡ some b
      → K.decode_meta b ≡ some m'
      → RowOk s' (config_key ns path) m'
  new_row {s} {s'} {now} {ns} {path} {content} {m} bound before w b m' at decodes =
      let key = config_key ns path in
      let (now_at, m_at) = current-Wrote bound w in
      let read : K.get s'.meta key ≡ some (K.encode_meta m) =
        rw (w.meta_at key, bytes_eq_refl key) refl in
      let same : m' ≡ stored_meta K.utf8 K.utf8_map m =
        cc (at, read, decodes, K.decode-encode_meta m) in
      rw same (record {
        given_out = omega arith;
        created_before = before;
        content = content;
        stored = rw (w.content_at key, bytes_eq_refl key) refl;
        recorded =
            rw
              (
                w.history_at (entry_key key m.revision),
                history_key-entry_key ns path m.revision,
                bytes_eq_refl (entry_key key m.revision),
              )
              refl;
      })

  -- A row of another config.
  old_row :
      {s s' : Db K} {now : ℕ} {ns path content : Bytes} {m : ConfigMeta} {kind : EventType}
      → current s + 1 < 2 ^ 64
      → (w : Wrote s s' now ns path content m kind) → (key : Bytes) (m' : ConfigMeta)
      → bytes_eq (config_key ns path) key ≡ false
      → RowOk s key m'
      → RowOk s' key m'
  old_row {s} {s'} {now} {ns} {path} {content} {m} bound w key m' other old =
      let (now_at, m_at) = current-Wrote bound w in
      let apart : bytes_eq (history_key ns path m.revision) (entry_key key m'.revision) ≡ false =
        bytes_eq_ne _ _ (λ e.
          let (same_key, same_rev) =
            entry_key_inj (config_key ns path) key m.revision m'.revision (omega arith)
              (omega (arith, old.given_out)) (sym (history_key-entry_key ns path m.revision) ∙ e) in
          absurd (omega (arith, same_rev, old.given_out))) in
      record {
        given_out = omega (arith, old.given_out);
        created_before = old.created_before;
        content = old.content;
        stored = rw (w.content_at key, other) old.stored;
        recorded = rw (w.history_at (entry_key key m'.revision), apart) old.recorded;
      }

  pub Wrote-IsConsistent :
      {s s' : Db K} {now : ℕ} {ns path content : Bytes} {m : ConfigMeta} {kind : EventType}
      → IsConsistent s
      → current s + 1 < 2 ^ 64
      → m.create_revision ≤ m.revision
      → Wrote s s' now ns path content m kind
      → IsConsistent s'
  Wrote-IsConsistent {s} {s'} {now} {ns} {path} c bound before w = record {
    row = λ key b m' at decodes. elim (Bool-cases (bytes_eq (config_key ns path) key)) [
      | inl same ↦
          let e : config_key ns path ≡ key = (bytes_eq_iff _ _).0 same in
          subst (λ k. RowOk s' k m') e
            (new_row bound before w b m' (subst (λ k. K.get s'.meta k ≡ some b) (sym e) at) decodes)
      | inr other ↦
          old_row bound w key m' other (c.row key b m' (rw (w.meta_at key, other) at at) decodes)
    ];
  }
