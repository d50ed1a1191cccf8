-- ===== src/Groups/Store.antt =====
-- internal/storage/bbolt/group/repository.go: the rows of groups.
use elara.Prelude.{ℕ, Bytes, Option, none, some, ◌==◌, if◌then◌else◌}
use elara.Prelude.Outcome.{Outcome, ok, err}
use elara.Domain.Failure.{Failure, resource_not_found, already_exists, decode_failed, put_failed}
use elara.Storage.Tx.{Run, ◌>>=◌, ◌>>◌, pure}
use elara.Authz.Engine.{Engine, Group}
use elara.Authz.Enforcer.{World}

abbrev decoded_group : Option Group → Outcome Failure Group
decoded_group none = err decode_failed
decoded_group (some g) = ok g

module _ {E : Engine} where
  -- Repository.Get
  unfoldable pub get_group : Bytes → Run (World E) Group
  get_group name w = elim (E.get w.groups name) [
    | none ↦ (err resource_not_found, w)
    | some b ↦ (decoded_group (E.decode_group b), w)
  ]

  abbrev put_group : Bytes → Group → Run (World E) Unit
  put_group key g w =
      if E.rejects key (E.encode_group g)
      then (err put_failed, w)
      else (ok tt, record w { groups = E.put w.groups key (E.encode_group g) })

  -- Repository.Update, with what it sets in the group that it is given
  unfoldable pub store_group : ℕ → Group → Run (World E) Group
  unfolding get_group
  store_group now g = do
    existing ← get_group g.name
    let row : Group = record existing {
      display_name = g.display_name;
      description = g.description;
      metadata_version = g.metadata_version;
      members_version = g.members_version;
      permissions_version = g.permissions_version;
      updated_at = now;
    }
    put_group g.name row
    pure (record g { created_at = existing.created_at; updated_at = now; system = existing.system })

  -- Repository.Create, with what it sets in the group that it is given
  unfoldable pub add_group : ℕ → Group → Run (World E) Group
  add_group now g w = elim (E.get w.groups g.name) [
    | some b ↦ (err already_exists, w)
    | none ↦
        let row : Group = record g {
          created_at = now;
          updated_at = now;
          metadata_version = if g.metadata_version == 0 then 1 else g.metadata_version;
        } in
        (put_group g.name row >> pure row) w
  ]

  -- Repository.Delete
  unfoldable pub drop_group : Bytes → Run (World E) Unit
  drop_group name w = elim (E.get w.groups name) [
    | none ↦ (err resource_not_found, w)
    | some b ↦ (ok tt, record w { groups = E.delete w.groups name })
  ]
