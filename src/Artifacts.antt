-- ===== src/Artifacts.antt =====
-- internal/artifact/retention.go: `PurgeExpired`.
pub mod Purge
mod Tests
use enterprise_security_reco.Prelude.{
  ℕ, zero, suc, String, Bool, true, false, Option, none, some, List, [], ◌∷◌, if◌then◌else◌, ℤ, pos,
  negsuc, ltb_ℤ,
}
use enterprise_security_reco.Errors.{Error, raised, wrapped}
use enterprise_security_reco.Domain.{Artifact}
use enterprise_security_reco.Capability.{Either, ok, err}

-- `RetentionStore`.
pub record RetentionStore (W : Type 0) : Type 0 where
  pub expired_artifacts : ℤ → W → Either (List Artifact) × W
  pub delete_artifact : String → W → Option Error × W

-- `Deleter`: its `Delete`.
abbrev pub Deleter : Type 0 → Type 0
Deleter W = Artifact → W → Option Error × W

module _ {W : Type 0} where
  abbrev pub metadata_deleted : Option Error × W → Option Error × W
  metadata_deleted (some e, w) = (some (wrapped "delete artifact metadata" e), w)
  metadata_deleted (none, w) = (none, w)

  abbrev pub delete_metadata : RetentionStore W → Artifact → Option Error × W → Option Error × W
  delete_metadata store a (some e, w) = (some (wrapped "delete artifact content" e), w)
  delete_metadata store a (none, w) = metadata_deleted (store.delete_artifact a.id w)

  -- The content of an artifact goes before its metadata.
  unfoldable pub purge_one : RetentionStore W → Deleter W → Artifact → W → Option Error × W
  purge_one store delete a w = delete_metadata store a (delete a w)

  -- How many artifacts were removed, and the error that stopped the loop.
  unfoldable pub purge_items :
      RetentionStore W → Deleter W → List Artifact → ℕ → W → (ℕ × Option Error) × W
  purge_items store delete [] removed w = ((removed, none), w)
  purge_items store delete (a ∷ items) removed w =
      let (failure, w') = purge_one store delete a w in
      let rest = purge_items store delete items (suc removed) w' in
      elim failure [ none ↦ rest | some e ↦ ((removed, some e), w') ]

  abbrev pub purge_found :
      RetentionStore W → Deleter W → Either (List Artifact) × W → (ℕ × Option Error) × W
  purge_found store delete (err e, w) = ((0, some e), w)
  purge_found store delete (ok items, w) = purge_items store delete items 0 w

  unfoldable pub purge_expired :
      Option (RetentionStore W) → Option (Deleter W) → ℤ → W → (ℕ × Option Error) × W
  purge_expired none delete limit w =
      ((0, some (raised "retention store and artifact deleter are required")), w)
  purge_expired (some store) none limit w =
      ((0, some (raised "retention store and artifact deleter are required")), w)
  purge_expired (some store) (some delete) limit w =
      if ltb_ℤ limit (pos 1)
      then ((0, some (raised "retention purge limit must be positive")), w)
      else purge_found store delete (store.expired_artifacts limit w)
