-- ===== src/ConfigStore/PointRead.antt =====
-- internal/storage/bbolt/config/etcd.go: RangeQuery of a single key.
use elara.Prelude.{ℕ, Bytes, bytes_eq_refl, ◌≡◌, refl, true, false, none, some, [], ◌∷◌, arith}
use elara.Domain.Failure.{decode_failed}
use elara.Prelude.Outcome.{ok, err}
use elara.Domain.Row.{ConfigMeta}
use elara.Storage.Bolt.Pairs.{Pairs}
use elara.Storage.Bolt.Seek.{elsewhere, seek_found, seek_absent}
use elara.Storage.Backend.{Backend}
use elara.ConfigStore.Keys.{config_key}
use elara.ConfigStore.Keys.Order.{no_sep, parse-config_key}
use elara.ConfigStore.Db.{Db, bytes_of}
use elara.ConfigStore.Etcd.{
  RangeParams, should_break_range, read_kv_value, range_loop, range_query_tx, kv_pair,
}

-- The bounds that buildRangeParams makes of one key.
abbrev pub single : Bytes → RangeParams
single key = record { start_key = key; end_key = []; single_key = true; scan_all = false }

module _ {K : Backend} where
  -- Nothing more is read once another key is met.
  stops :
      (s : Db K) (key : Bytes) (count : ℕ) (l : Pairs)
      → elsewhere key l ≡ true
      → range_loop s (single key) 0 0 false count l ≡ ok ([], false)
  unfolding elsewhere range_loop should_break_range
  stops s key count [] h = refl
  stops s key count ((k, v) ∷ l) h = ground arith

  pub point_absent :
      (s : Db K) (key : Bytes)
      → K.get s.meta key ≡ none
      → range_query_tx (single key) 0 0 false s ≡ (ok ([], false), s)
  unfolding range_query_tx
  point_absent s key gone =
      rw (stops s key 0 (K.seek s.meta key) (seek_absent K.bolt s.meta key gone)) refl

  found_pair :
      (s : Db K) (ns path b : Bytes) (m : ConfigMeta) (rest : Pairs)
      → no_sep ns ≡ true
      → K.decode_meta b ≡ some m
      → elsewhere (config_key ns path) rest ≡ true
      → range_loop s (single (config_key ns path)) 0 0 false 0 ((config_key ns path, b) ∷ rest)
        ≡ ok (
          kv_pair ns path m (bytes_of (K.get s.content (config_key ns path)), m.revision) ∷ [],
          false,
        )
  unfolding range_loop should_break_range read_kv_value
  found_pair s ns path b m rest clean decodes onward =
      let same = bytes_eq_refl (config_key ns path) in
      let parsed = parse-config_key ns path clean in
      let rest_stops = stops s (config_key ns path) 1 rest onward in ground arith

  pub point_found :
      (s : Db K) (ns path b : Bytes) (m : ConfigMeta)
      → no_sep ns ≡ true
      → K.get s.meta (config_key ns path) ≡ some b
      → K.decode_meta b ≡ some m
      → range_query_tx (single (config_key ns path)) 0 0 false s ≡ (
        ok (
          kv_pair ns path m (bytes_of (K.get s.content (config_key ns path)), m.revision) ∷ [],
          false,
        ),
        s,
      )
  unfolding range_query_tx
  point_found s ns path b m clean at decodes =
      let (rest, there, onward) = seek_found K.bolt s.meta (config_key ns path) b at in
      rw (there, found_pair s ns path b m rest clean decodes onward) refl

  broken_pair :
      (s : Db K) (key b : Bytes) (rest : Pairs)
      → K.decode_meta b ≡ none
      → range_loop s (single key) 0 0 false 0 ((key, b) ∷ rest) ≡ err decode_failed
  unfolding range_loop should_break_range
  broken_pair s key b rest broken = let same = bytes_eq_refl key in ground arith

  pub point_broken :
      (s : Db K) (key b : Bytes)
      → K.get s.meta key ≡ some b
      → K.decode_meta b ≡ none
      → range_query_tx (single key) 0 0 false s ≡ (err decode_failed, s)
  unfolding range_query_tx
  point_broken s key b at broken =
      let (rest, there, onward) = seek_found K.bolt s.meta key b at in
      rw (there, broken_pair s key b rest broken) refl
