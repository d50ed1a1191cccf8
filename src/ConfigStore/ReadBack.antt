-- ===== src/ConfigStore/ReadBack.antt =====
-- internal/storage/bbolt/config/etcd.go: what a read sees after a put, and the other way round.
use elara.Prelude.{
  ℕ, Bytes, bytes_eq, bytes_eq_refl, ◌≡◌, refl, Bool, true, false, Option, none, some, List, [],
  ◌∷◌, arith, subst, if_true, ap, sym, ◌∙◌, inl, inr,
}
use elara.Prelude.Outcome.{Outcome, ok, found_cases}
use elara.Domain.Failure.{Failure}
use elara.Domain.Config.{KvPair, EventType}
use elara.Domain.Row.{ConfigMeta}
use elara.Storage.Backend.{Backend, stored_meta}
use elara.ConfigStore.Keys.{config_key}
use elara.ConfigStore.Keys.Order.{no_sep}
use elara.ConfigStore.Db.{Db, increment, bytes_of, find_meta, sys_value, sys_revision_key}
use elara.ConfigStore.Etcd.{
  ExistingKey, build_range_params, range_query_tx, resolve_existing_key, build_put_meta,
  build_prev_kv, kv_pair,
}
use elara.ConfigStore.EtcdWrite.{put_key_tx}
use elara.ConfigStore.Writes.{Wrote}
use elara.ConfigStore.Writes.Put.{put_key_tx_ok}
use elara.ConfigStore.Consistent.Writes.{find_meta_inv}
use elara.ConfigStore.PointRead.{point_absent, point_found}

-- The pair that a put leaves, of the pair that it replaces.
abbrev pub put_pair : Bytes → Bytes → Bytes → ℕ → Option KvPair → KvPair
put_pair ns path value rev none = record {
  namespace = ns;
  path = path;
  value = value;
  create_revision = rev;
  mod_revision = rev;
  version = 1;
}
put_pair ns path value rev (some prev) = record {
  namespace = ns;
  path = path;
  value = value;
  create_revision = prev.create_revision;
  mod_revision = rev;
  version = increment prev.version;
}

abbrev pub one_or_none : {A : Type 0} → Option A → List A
one_or_none none = []
one_or_none (some a) = a ∷ []

stored_pair :
    (K : Backend) (now : ℕ) (ns path value : Bytes) (rev : ℕ) (existing : Option ExistingKey)
    → kv_pair ns path
        (stored_meta K.utf8 K.utf8_map (build_put_meta K now path value rev existing).0)
        (value, (build_put_meta K now path value rev existing).0.revision)
      ≡ put_pair ns path value rev (build_prev_kv existing ns path)
unfolding build_put_meta
stored_pair K now ns path value rev none = refl
stored_pair K now ns path value rev (some existing) = refl

module _ {K : Backend} where
  -- A read that has found these pairs.
  abbrev pub read_of : List KvPair → Db K → Outcome Failure (List KvPair × Bool) × Db K
  read_of kvs s = (ok (kvs, false), s)

  -- RangeQuery of one key, as it is now, without a limit.
  unfoldable pub read_key : Bytes → Bytes → Db K → Outcome Failure (List KvPair × Bool) × Db K
  unfolding build_range_params range_query_tx bytes_eq
  read_key ns path s = range_query_tx (build_range_params ns path [] []) 0 0 false s

  pub read_found :
      (s : Db K) (ns path b : Bytes) (m : ConfigMeta)
      → no_sep ns ≡ true
      → K.get s.meta (config_key ns path) ≡ some b
      → K.decode_meta b ≡ some m
      → read_key ns path s ≡ (
        ok (
          kv_pair ns path m (bytes_of (K.get s.content (config_key ns path)), m.revision) ∷ [],
          false,
        ),
        s,
      )
  unfolding read_key build_range_params bytes_eq
  read_found s ns path b m clean at decodes = point_found s ns path b m clean at decodes

  pub read_absent :
      (s : Db K) (ns path : Bytes)
      → K.get s.meta (config_key ns path) ≡ none
      → read_key ns path s ≡ read_of [] s
  unfolding read_key build_range_params bytes_eq
  read_absent s ns path gone = point_absent s (config_key ns path) gone

  no_row : (s : Db K) (key : Bytes) → find_meta s key ≡ ok none → K.get s.meta key ≡ none
  unfolding find_meta
  no_row s key h = ground arith

  -- What PutKey has found is what a read finds.
  read_existing :
      (s : Db K) (ns path : Bytes) (existing : Option ExistingKey)
      → no_sep ns ≡ true
      → resolve_existing_key (config_key ns path) s ≡ (ok existing, s)
      → read_key ns path s ≡ read_of (one_or_none (build_prev_kv existing ns path)) s
  unfolding resolve_existing_key
  read_existing s ns path none clean h = elim (found_cases (find_meta s (config_key ns path))) [
    | inl (m, e) ↦ absurd (ground arith)
    | inr (inl e) ↦ read_absent s ns path (no_row s (config_key ns path) e)
    | inr (inr (x, e)) ↦ absurd (ground arith)
  ]
  read_existing s ns path (some existing) clean h =
      elim (found_cases (find_meta s (config_key ns path))) [
        | inl (m, e) ↦
            let (b, at, decodes) = find_meta_inv s (config_key ns path) m e in
            let same : record {
              meta = m;
              prev_value = bytes_of (K.get s.content (config_key ns path));
            }
                ≡ existing =
              ground arith in
            subst
              (λ x. read_key ns path s ≡ read_of (one_or_none (build_prev_kv (some x) ns path)) s)
              same (read_found s ns path b m clean at decodes)
        | inr other ↦ absurd (ground arith)
      ]

  -- The read of a key that a write has just written.
  read_written :
      {s s' : Db K} {now : ℕ} {ns path value : Bytes} {m : ConfigMeta} {kind : EventType}
      → no_sep ns ≡ true
      → Wrote s s' now ns path value m kind
      → read_key ns path s'
        ≡ read_of (kv_pair ns path (stored_meta K.utf8 K.utf8_map m) (value, m.revision) ∷ []) s'
  read_written {s} {s'} {ns} {path} {value} {m} clean w =
      let at : K.get s'.meta (config_key ns path) ≡ some (K.encode_meta m) =
        w.meta_at (config_key ns path)
        ∙ if_true (bytes_eq (config_key ns path) (config_key ns path)) _ _ (bytes_eq_refl _) in
      let content : K.get s'.content (config_key ns path) ≡ some value =
        w.content_at (config_key ns path)
        ∙ if_true (bytes_eq (config_key ns path) (config_key ns path)) _ _ (bytes_eq_refl _) in
      read_found s' ns path (K.encode_meta m) (stored_meta K.utf8 K.utf8_map m) clean at
        (K.decode-encode_meta m)
      ∙ ap
          (λ c.
            read_of
              (kv_pair ns path (stored_meta K.utf8 K.utf8_map m) (bytes_of c, m.revision) ∷ []) s')
          content

  -- For a namespace without the separator, a successful put returns the next revision, and as the previous pair what a read of the key found
  -- just before; a read right after it finds the value under that revision, with the creation revision
  -- of the previous pair and the next version, or with a first version where there was none.
  pub put_then_read :
      (now : ℕ) (ns path value : Bytes) (s s' : Db K) (prev : Option KvPair) (rev : ℕ)
      → no_sep ns ≡ true
      → put_key_tx now ns path value s ≡ (ok (prev, rev), s')
      → (rev ≡ increment (sys_value s sys_revision_key))
        × (read_key ns path s ≡ read_of (one_or_none prev) s)
        × (read_key ns path s' ≡ read_of (put_pair ns path value rev prev ∷ []) s')
  put_then_read now ns path value s s' prev rev clean h =
      let (existing, found, allowed, same, wrote) = put_key_tx_ok now ns path value s h in
      let prev_is : prev ≡ build_prev_kv existing ns path = ap (λ p. p.0) same in
      (
        ap (λ p. p.1) same,
        read_existing s ns path existing clean found
            ∙ ap (λ p. read_of (one_or_none p) s) (sym prev_is),
        read_written clean wrote
            ∙ ap (λ p. read_of (p ∷ []) s')
                (stored_pair K now ns path value rev existing
                  ∙ ap (put_pair ns path value rev) (sym prev_is)),
      )
