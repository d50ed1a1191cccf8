-- ===== src/ConfigStore/Consistent/Range.antt =====
-- DeleteRangeKeys: what it leaves in the buckets, and that it keeps the invariant.
use elara.Prelude.{
  ℕ, ◌+◌, ◌^◌, ◌<◌, Bytes, bytes_eq, bytes_eq_refl, some, ◌≡◌, refl, ap, arith, Bool, ◌∙◌, sym, inl,
  inr, subst, Bool-cases, List, [], ◌∷◌,
}
use elara.Prelude.Outcome.{ok}
use elara.Storage.Backend.{Backend}
use elara.ConfigStore.Keys.{revision_bytes}
use elara.ConfigStore.Keys.Revision.{parse-revision_bytes}
use elara.ConfigStore.Db.{Db, sys_revision_key}
use elara.Domain.Config.{KvPair}
use elara.ConfigStore.Consistent.{current, IsConsistent}
use elara.Domain.Config.{event_deleted}
use elara.ConfigStore.EtcdWrite.{
  DeleteTarget, delete_targets, delete_all_targets, delete_range_keys_tx, collect_delete_targets,
}
use elara.ConfigStore.Etcd.{RangeParams}
use elara.ConfigStore.Db.{
  delete_content, delete_meta, write_changelog, validate_namespace_unlocked, next_revision,
}
use elara.ConfigStore.Rows.{
  change_row, with_change, write_changelog_ok, next_revision_ok, validate_namespace_unlocked_ok,
}
use elara.ConfigStore.Writes.Delete.{without_entry}
use elara.Storage.Tx.{bind_ok, pure_ok}
use elara.Prelude.{map}

module _ {K : Backend} where
  -- Rows may be gone; those that are left, and their contents, are as they were. No history entry, lock
  -- or namespace is touched.
  pub record Shrunk (before after : Db K) : Type 0 where
    pub left :
        (j b : Bytes)
        → K.get after.meta j ≡ some b
        → (K.get before.meta j ≡ some b) × (K.get after.content j ≡ K.get before.content j)
    pub history : after.history ≡ before.history
    pub sys : after.sys ≡ before.sys
    pub namespaces : after.namespaces ≡ before.namespaces

  drop_one :
      (key : Bytes) (r : ℕ) (now : ℕ) (path ns : Bytes) (s s' : Db K)
      → Shrunk (with_change r (change_row now event_deleted path ns 0) (without_entry key s)) s'
      → Shrunk s s'
  drop_one key r now path ns s s' w = record {
    left = λ j b at.
        let (there, same) = w.left j b at in
        elim (Bool-cases (bytes_eq key j)) [
          | inl e ↦ cc (there, e, K.get-delete s.meta key j)
          | inr e ↦
              (cc (there, e, K.get-delete s.meta key j), cc (same, e, K.get-delete s.content key j))
        ];
    history = w.history;
    sys = w.sys;
    namespaces = w.namespaces;
  }

  pub delete_targets-Shrunk :
      (now r : ℕ) (targets : List DeleteTarget) (s : Db K) {s' : Db K} {u : Unit {0}}
      → delete_targets now r targets s ≡ (ok u, s')
      → Shrunk s s'
  unfolding delete_targets delete_content delete_meta
  delete_targets-Shrunk now r [] s h =
      rw (← ap (λ x. x.1) h)
        (record { left = λ j b at. (at, refl); history = refl; sys = refl; namespaces = refl })
  delete_targets-Shrunk now r (t ∷ targets) s {s'} h =
      let (u, mid, e, rest) =
        bind_ok (write_changelog now r event_deleted t.kv.path t.kv.namespace 0)
          (λ _. delete_targets now r targets) (without_entry t.key s) h in
      drop_one t.key r now t.kv.path t.kv.namespace s s' (
        subst (λ x. Shrunk x s')
          (write_changelog_ok now r event_deleted t.kv.path t.kv.namespace 0 (without_entry t.key s)
            e)
          (delete_targets-Shrunk now r targets mid rest))

  -- What the deletions leave, once the next revision has been taken.
  Shrunk-IsConsistent :
      {s t s' : Db K} {r : ℕ}
      → IsConsistent s
      → current s + 1 < 2 ^ 64
      → next_revision s ≡ (ok r, t)
      → Shrunk t s'
      → IsConsistent s'
  Shrunk-IsConsistent {s} {t} {s'} {r} i bound n w =
      let (is_next, stepped) = next_revision_ok s n in
      let at : r ≡ current s + 1 = omega (arith, is_next) in
      let now_at : current s' ≡ current s + 1 =
        rw
          (
            w.sys,
            stepped,
            K.get-put s.sys sys_revision_key (revision_bytes r),
            bytes_eq_refl sys_revision_key,
          )
          (parse-revision_bytes r (omega arith) ∙ at) in
      record {
        row = λ key b m there decodes.
            let (before, same) = w.left key b there in
            let old = i.row key b m (cc (before, stepped)) decodes in
            record {
              given_out = omega (arith, old.given_out);
              created_before = old.created_before;
              content = old.content;
              stored = cc (same, old.stored, stepped);
              recorded = cc (w.history, old.recorded, stepped);
            };
      }

  delete_all-IsConsistent :
      (now : ℕ) (targets : List DeleteTarget) {s s' : Db K} {p : List KvPair × ℕ}
      → IsConsistent s
      → current s + 1 < 2 ^ 64
      → delete_all_targets now targets s ≡ (ok p, s')
      → IsConsistent s'
  unfolding delete_all_targets
  delete_all-IsConsistent now [] {s} i bound h = subst IsConsistent (ap (λ x. x.1) h) i
  delete_all-IsConsistent now (t ∷ targets) {s} i bound h =
      let (r, mid, n, h1) = bind_ok next_revision _ s h in
      let (u, last, e, h2) = bind_ok (delete_targets now r (t ∷ targets)) _ mid h1 in
      let (_, same) = pure_ok (map (λ t. t.kv) (t ∷ targets), r) last h2 in
      subst IsConsistent same
        (Shrunk-IsConsistent i bound n (delete_targets-Shrunk now r (t ∷ targets) mid e))

  pub delete_range_keys_tx-IsConsistent :
      (now : ℕ) (rp : RangeParams) (start_ns : Bytes) (return_prev : Bool) {s s' : Db K}
      {p : List KvPair × ℕ}
      → IsConsistent s
      → current s + 1 < 2 ^ 64
      → delete_range_keys_tx now rp start_ns return_prev s ≡ (ok p, s')
      → IsConsistent s'
  unfolding delete_range_keys_tx
  delete_range_keys_tx-IsConsistent now rp start_ns return_prev {s} i bound h =
      let (u, t, e, h1) = bind_ok (validate_namespace_unlocked start_ns) _ s h in
      let same : s ≡ t = sym (validate_namespace_unlocked_ok start_ns s e) in
      let (targets, mid, e2, h2) =
        bind_ok
          (λ (s : Db K). (collect_delete_targets s rp return_prev (K.seek s.meta rp.start_key), s))
          _ t h1 in
      let same2 : t ≡ mid = ap (λ x. x.1) e2 in
      delete_all-IsConsistent now targets (subst IsConsistent (same ∙ same2) i)
        (subst (λ x. current x + 1 < 2 ^ 64) (same ∙ same2) bound) h2
