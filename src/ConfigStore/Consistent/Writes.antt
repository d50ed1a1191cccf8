-- ===== src/ConfigStore/Consistent/Writes.antt =====
-- Create, Update, PutKey, Delete and the locks keep the invariant of the buckets.
use elara.Prelude.{
  ℕ, ◌+◌, ◌^◌, ◌<◌, ◌≤◌, Bytes, bytes_eq, bytes_eq_iff, Option, none, some, ◌≡◌, ap, arith, Bool,
  inl, inr, subst, Bool-cases, Option-cases,
}
use elara.Prelude.Outcome.{ok, found_cases}
use elara.Domain.Row.{ConfigMeta, domain_to_config_meta}
use native.Mathlib.Nat.{le_refl}
use elara.Storage.Backend.{Backend, stored_meta}
use elara.ConfigStore.Keys.{config_key}
use elara.ConfigStore.Db.{Db, increment}
use elara.ConfigStore.Writes.Delete.{Removed}
use elara.Domain.Config.{Config, KvPair}
use elara.ConfigStore.Consistent.{current, RowOk, IsConsistent, current-Removed}
use elara.ConfigStore.Db.{find_meta}
use elara.ConfigStore.Write.{create_tx, update_config_tx, delete_config_tx}
use elara.ConfigStore.Writes.{create_tx_ok, update_config_tx_ok}
use elara.ConfigStore.Writes.Put.{put_key_tx_ok}
use elara.ConfigStore.Writes.Delete.{delete_config_tx_ok}
use elara.ConfigStore.Etcd.{ExistingKey, build_put_meta, resolve_existing_key}
use elara.ConfigStore.EtcdWrite.{put_key_tx}
use elara.ConfigStore.Consistent.Kept.{Wrote-IsConsistent}
use elara.ConfigStore.Writes.Lock.{LockSet, toggle_config_lock_tx_ok}
use elara.ConfigStore.Write.{toggle_config_lock_tx}

module _ {K : Backend} where
  pub find_meta_inv :
      (s : Db K) (key : Bytes) (m : ConfigMeta)
      → find_meta s key ≡ ok (some m)
      → (b : Bytes) × (K.get s.meta key ≡ some b) × (K.decode_meta b ≡ some m)
  unfolding find_meta
  find_meta_inv s key m h = elim (Option-cases (K.get s.meta key)) [
    | inl e ↦ absurd (ground arith)
    | inr (b, e) ↦ (b, e, ground arith)
  ]

  found_row :
      {s : Db K} (key : Bytes) {m : ConfigMeta}
      → IsConsistent s
      → find_meta s key ≡ ok (some m)
      → RowOk s key m
  found_row {s} key {m} c h =
      let (b, at, decodes) = find_meta_inv s key m h in c.row key b m at decodes

  -- Create, Update, PutKey, Delete, LockConfig and UnlockConfig keep the buckets consistent when they
  -- succeed, as long as the revision counter does not overflow.
  pub create_tx-IsConsistent :
      (now : ℕ) (cfg : Config) {s s' : Db K} {c : Config}
      → IsConsistent s
      → current s + 1 < 2 ^ 64
      → create_tx now cfg s ≡ (ok c, s')
      → IsConsistent s'
  unfolding domain_to_config_meta
  create_tx-IsConsistent now cfg {s} i bound h =
      let (free, same, wrote) = create_tx_ok now cfg s h in
      Wrote-IsConsistent i bound (rw same (le_refl _)) wrote

  pub update_config_tx-IsConsistent :
      (now : ℕ) (cfg : Config) {s s' : Db K} {c : Config}
      → IsConsistent s
      → current s + 1 < 2 ^ 64
      → update_config_tx now cfg s ≡ (ok c, s')
      → IsConsistent s'
  unfolding domain_to_config_meta
  update_config_tx-IsConsistent now cfg {s} i bound h =
      let (m, found, _, _, same, wrote) = update_config_tx_ok now cfg s h in
      let old = found_row _ i found in
      Wrote-IsConsistent i bound (rw same (omega (arith, old.given_out, old.created_before))) wrote

  existing_row :
      (s : Db K) (key : Bytes) (existing : ExistingKey)
      → IsConsistent s
      → resolve_existing_key key s ≡ (ok (some existing), s)
      → RowOk s key existing.meta
  unfolding resolve_existing_key
  existing_row s key existing i h = elim (found_cases (find_meta s key)) [
    | inl (m, e) ↦
        let same : m ≡ existing.meta = ground arith in
        subst (λ m. RowOk s key m) same (found_row key i e)
    | inr other ↦ absurd (ground arith)
  ]

  put_before :
      (now : ℕ) (ns path value : Bytes) (s : Db K) (existing : Option ExistingKey)
      → IsConsistent s
      → current s + 1 < 2 ^ 64
      → resolve_existing_key (config_key ns path) s ≡ (ok existing, s)
      → (r : ℕ) → r ≡ increment (current s)
      → (build_put_meta K now path value r existing).0.create_revision
        ≤ (build_put_meta K now path value r existing).0.revision
  unfolding build_put_meta
  put_before now ns path value s none i bound h r e = le_refl r
  put_before now ns path value s (some existing) i bound h r e =
      let old = existing_row s (config_key ns path) existing i h in
      omega (arith, old.given_out, old.created_before)

  pub put_key_tx-IsConsistent :
      (now : ℕ) (ns path value : Bytes) {s s' : Db K} {p : Option KvPair × ℕ}
      → IsConsistent s
      → current s + 1 < 2 ^ 64
      → put_key_tx now ns path value s ≡ (ok p, s')
      → IsConsistent s'
  put_key_tx-IsConsistent now ns path value {s} {p = p} i bound h =
      let (existing, found, _, same, wrote) = put_key_tx_ok now ns path value s h in
      Wrote-IsConsistent i bound
        (put_before now ns path value s existing i bound found p.1 (ap (λ q. q.1) same)) wrote

  pub Removed-IsConsistent :
      {s s' : Db K} {now : ℕ} {ns path : Bytes} {r : ℕ}
      → IsConsistent s
      → current s + 1 < 2 ^ 64
      → Removed s s' now ns path r
      → IsConsistent s'
  Removed-IsConsistent {s} {s'} {now} {ns} {path} i bound w = record {
    row = λ key b m at decodes. elim (Bool-cases (bytes_eq (config_key ns path) key)) [
      | inl same ↦ cc (w.meta_at key, same, at)
      | inr other ↦
          let old = i.row key b m (rw (w.meta_at key, other) at at) decodes in
          let (now_at, _) = current-Removed bound w in
          record {
            given_out = omega (arith, old.given_out);
            created_before = old.created_before;
            content = old.content;
            stored = rw (w.content_at key, other) old.stored;
            recorded = rw w.history old.recorded;
          }
    ];
  }

  pub delete_config_tx-IsConsistent :
      (now : ℕ) (path ns : Bytes) {s s' : Db K} {r : ℕ}
      → IsConsistent s
      → current s + 1 < 2 ^ 64
      → delete_config_tx now path ns s ≡ (ok r, s')
      → IsConsistent s'
  delete_config_tx-IsConsistent now path ns {s} i bound h =
      let (m, _, _, w) = delete_config_tx_ok now path ns s h in Removed-IsConsistent i bound w

  LockSet-IsConsistent :
      {s s' : Db K} (ns path : Bytes) (m : ConfigMeta) (lock : Bool)
      → IsConsistent s
      → find_meta s (config_key ns path) ≡ ok (some m)
      → LockSet s s' ns path m lock
      → IsConsistent s'
  LockSet-IsConsistent {s} {s'} ns path m lock i found w = record {
    row = λ key b m' at decodes. elim (Bool-cases (bytes_eq (config_key ns path) key)) [
      | inl same ↦
          let e : config_key ns path ≡ key = (bytes_eq_iff _ _).0 same in
          let old = found_row (config_key ns path) i found in
          let row : m' ≡ stored_meta K.utf8 K.utf8_map (record m { locked = lock }) =
            cc (
              w.meta_at key,
              same,
              at,
              decodes,
              K.decode-encode_meta (record m { locked = lock }),
            ) in
          subst (λ k. RowOk s' k m') e
            (rw row (record {
              given_out = omega (arith, old.given_out, w.revision);
              created_before = old.created_before;
              content = old.content;
              stored = rw w.content old.stored;
              recorded = rw w.history old.recorded;
            }))
      | inr other ↦
          let old = i.row key b m' (rw (w.meta_at key, other) at at) decodes in
          record {
            given_out = omega (arith, old.given_out, w.revision);
            created_before = old.created_before;
            content = old.content;
            stored = rw w.content old.stored;
            recorded = rw w.history old.recorded;
          }
    ];
  }

  pub toggle_config_lock_tx-IsConsistent :
      (now : ℕ) (ns path : Bytes) (lock : Bool) {s s' : Db K} {u : Unit {0}}
      → IsConsistent s
      → toggle_config_lock_tx now ns path lock s ≡ (ok u, s')
      → IsConsistent s'
  toggle_config_lock_tx-IsConsistent now ns path lock {s} i h =
      let (m, found, done) = toggle_config_lock_tx_ok now ns path lock s h in
      elim done [
        | inl (_, same) ↦ rw same i
        | inr (_, w) ↦ LockSet-IsConsistent ns path m lock i found w
      ]
