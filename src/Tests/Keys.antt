-- ===== src/Tests/Keys.antt =====
-- Runs of the key encodings.
use elara.Prelude.{
  ◌≡◌, refl, true, false, some, [], ◌∷◌, ◌++◌, codes, bytes_lt, has_prefix, ltb, ◌⊎◌, arith,
}
use elara.ConfigStore.Keys.{
  config_key, history_key, parse_config_key, parse_revision, revision_bytes,
}
use elara.ConfigStore.Keys.Revision.{parse-revision_bytes}
use elara.ConfigStore.Keys.Order.{parse-config_key, history_key_lt}
use elara.ConfigStore.Etcd.{build_range_params, should_break_range}
use elara.EtcdKey.{slash, split_key, join_key, split_at_slash}
use elara.EtcdKey.RoundTrip.{split-join_key, join-split_key}
use elara.EtcdKey.Order.{config_key_lt-join_key, prefix_range_leaks}
use elara.Tests.Data.{prod, app}

parse-revision_bytes_example : parse_revision (revision_bytes 70000) ≡ 70000
parse-revision_bytes_example = parse-revision_bytes 70000 (omega arith)

parse-config_key_example : parse_config_key (config_key prod app) ≡ (prod, app)
parse-config_key_example = parse-config_key prod app refl

history_key_lt_example :
    bytes_lt (history_key prod app 255) (history_key prod app 256) ≡ ltb 255 256
history_key_lt_example = history_key_lt prod app 255 256 (omega arith) (omega arith)

split-join_key_example : split_key (join_key prod app) ≡ some (prod, app)
unfolding has_prefix
split-join_key_example = split-join_key prod app (λ h. cc h) refl refl

join-split_key_example :
    (join_key prod app ≡ codes "/prod/app")
    ⊎ ((codes "/prod/app" ≡ slash ∷ prod) × (app ≡ slash ∷ []))
unfolding split_key split_at_slash
join-split_key_example = join-split_key (codes "/prod/app") prod app refl

config_key_lt-join_key_example :
    bytes_lt (config_key prod (slash ∷ codes "b")) (config_key (codes "proe") (slash ∷ codes "a"))
    ≡ bytes_lt (join_key prod (slash ∷ codes "b")) (join_key (codes "proe") (slash ∷ codes "a"))
config_key_lt-join_key_example =
    config_key_lt-join_key prod (codes "proe") (codes "b") (codes "a") refl refl

-- A prefix range of "/prod/" takes in "/prod-eu/app".
prefix_range_leaks_example :
    (should_break_range
        (config_key (prod ++ 45 ∷ codes "eu") app)
        (build_range_params prod (slash ∷ []) (prod ++ 48 ∷ []) (slash ∷ []))
      ≡ false)
    × (bytes_lt (config_key prod (slash ∷ [])) (config_key (prod ++ 45 ∷ codes "eu") app) ≡ true)
    × (bytes_lt (join_key (prod ++ 45 ∷ codes "eu") app) (join_key prod (slash ∷ [])) ≡ true)
prefix_range_leaks_example = prefix_range_leaks prod (codes "eu") app 45 (omega arith) (omega arith)
