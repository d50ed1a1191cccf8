-- ===== src/ConfigStore/Writes/Put.antt =====
-- PutKey: what it leaves in the buckets when it succeeds.
use elara.Prelude.{ℕ, Bytes, Option, none, some, ◌≡◌, refl, arith, ◌∙◌, inl, inr, subst}
use elara.Prelude.Outcome.{ok, found_cases}
use elara.Domain.Config.{EventType, KvPair}
use elara.Domain.Row.{ConfigMeta}
use elara.Storage.Backend.{Backend}
use elara.Storage.Tx.{bind_ok, pure_ok, ◌>>◌, pure}
use elara.ConfigStore.Keys.{config_key}
use elara.ConfigStore.Db.{
  Db, increment, sys_value, sys_revision_key, next_revision, bytes_of, put_content, put_meta,
  write_history, write_changelog, validate_namespace_unlocked, find_meta,
}
use elara.ConfigStore.Rows.{
  with_entry, put_content_ok, put_meta_ok, write_history_ok, write_changelog_ok, next_revision_ok,
}
use elara.ConfigStore.Etcd.{
  ExistingKey, resolve_existing_key, build_put_meta, build_prev_kv, check_put_allowed,
}
use elara.ConfigStore.EtcdWrite.{put_key_tx, write_put}
use elara.ConfigStore.Writes.{Wrote, written-Wrote}

put_meta_revision :
    (K : Backend) (now : ℕ) (path value : Bytes) (r : ℕ) (existing : Option ExistingKey)
    → (build_put_meta K now path value r existing).0.revision ≡ r
unfolding build_put_meta
put_meta_revision K now path value r none = refl
put_meta_revision K now path value r (some existing) = refl

module _ {K : Backend} where
  put_after_checks :
      (now : ℕ) (ns path value : Bytes) (s : Db K) {s' : Db K} {p : Option KvPair × ℕ}
      → put_key_tx now ns path value s ≡ (ok p, s')
      → (existing : Option ExistingKey) × (resolve_existing_key (config_key ns path) s
          ≡ (ok existing, s))
        × (check_put_allowed existing ≡ ok tt)
        × (write_put now ns path value existing s ≡ (ok p, s'))
  unfolding put_key_tx validate_namespace_unlocked resolve_existing_key check_put_allowed
  put_after_checks now ns path value s h = elim (found_cases (find_meta s (config_key ns path))) [
    | inl (m, e) ↦ (
      some (record { meta = m; prev_value = bytes_of (K.get s.content (config_key ns path)) }),
      ground arith,
      ground arith,
      ground arith,
    )
    | inr (inl e) ↦ (none, ground arith, ground arith, ground arith)
    | inr (inr e) ↦ absurd (ground arith)
  ]

  -- The puts of PutKey are those of a config entry.
  put_entry_ok :
      (now : ℕ) (ns path value : Bytes) (m : ConfigMeta) (kind : EventType) (r : ℕ) (s : Db K)
      {s' : Db K} {p q : Option KvPair × ℕ}
      → m.revision ≡ r
      → (do
        put_content (config_key ns path) value
        put_meta (config_key ns path) m
        write_history ns path r value
        write_changelog now r kind path ns m.version
        pure q)
          s
        ≡ (ok p, s')
      → (q ≡ p) × (s' ≡ with_entry now (config_key ns path) ns path value m kind s)
  put_entry_ok now ns path value m kind r s e h =
      let key = config_key ns path in
      let (u1, t1, e1, h1) = bind_ok (put_content key value) _ s h in
      let (u2, t2, e2, h2) = bind_ok (put_meta key m) _ t1 h1 in
      let (u3, t3, e3, h3) = bind_ok (write_history ns path r value) _ t2 h2 in
      let (u4, t4, e4, h4) = bind_ok (write_changelog now r kind path ns m.version) _ t3 h3 in
      let (same, end') = pure_ok _ t4 h4 in
      (
        same,
        cc (
          e,
          end',
          put_content_ok key value s e1,
          put_meta_ok key m t1 e2,
          write_history_ok ns path r value t2 e3,
          write_changelog_ok now r kind path ns m.version t3 e4,
        ),
      )

  write_put_ok :
      (now : ℕ) (ns path value : Bytes) (existing : Option ExistingKey) (s : Db K) {s' : Db K}
      {p : Option KvPair × ℕ}
      → write_put now ns path value existing s ≡ (ok p, s')
      → (p ≡ (build_prev_kv existing ns path, increment (sys_value s sys_revision_key)))
        × Wrote s s' now ns path value
            (build_put_meta K now path value p.1 existing).0
            (build_put_meta K now path value p.1 existing).1
  unfolding write_put
  write_put_ok now ns path value existing s {s'} {p} h =
      let (r, t, e1, h1) = bind_ok next_revision _ s h in
      let (is_next, stepped) = next_revision_ok s e1 in
      let row : ConfigMeta × EventType = build_put_meta K now path value r existing in
      let at : row.0.revision ≡ r = put_meta_revision K now path value r existing in
      let (same, reached) = put_entry_ok now ns path value row.0 row.1 r t at h1 in
      let wrote : Wrote s s' now ns path value row.0 row.1 =
        written-Wrote s now ns path value row.0 row.1 (at ∙ is_next) (cc (stepped, at, reached)) in
      let returned : r ≡ p.1 = cc same in
      (
        cc (same, is_next),
        subst
            (λ x.
              Wrote s s' now ns path value (build_put_meta K now path value x existing).0
                (build_put_meta K now path value x existing).1)
            returned wrote,
      )

  -- A successful PutKey returns the next revision and the pair that was there, and the state has exactly
  -- the value and the row built for it added.
  pub put_key_tx_ok :
      (now : ℕ) (ns path value : Bytes) (s : Db K) {s' : Db K} {p : Option KvPair × ℕ}
      → put_key_tx now ns path value s ≡ (ok p, s')
      → (existing : Option ExistingKey) × (resolve_existing_key (config_key ns path) s
          ≡ (ok existing, s))
        × (check_put_allowed existing ≡ ok tt)
        × (p ≡ (build_prev_kv existing ns path, increment (sys_value s sys_revision_key)))
        × Wrote s s' now ns path value
            (build_put_meta K now path value p.1 existing).0
            (build_put_meta K now path value p.1 existing).1
  put_key_tx_ok now ns path value s h =
      let (existing, found, allowed, rest) = put_after_checks now ns path value s h in
      let (returned, wrote) = write_put_ok now ns path value existing s rest in
      (existing, found, allowed, returned, wrote)
