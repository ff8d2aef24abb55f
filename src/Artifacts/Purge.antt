-- ===== src/Artifacts/Purge.antt =====
-- What a purge of expired artifacts has removed.
use enterprise_security_reco.Prelude.{
  ℕ, suc, ◌+◌, ◌≡◌, refl, ap, Option, none, some, List, [], ◌∷◌, ◌++◌, length, arith,
}
use enterprise_security_reco.Errors.{Error}
use enterprise_security_reco.Domain.{Artifact}
use enterprise_security_reco.Artifacts.{
  RetentionStore, Deleter, metadata_deleted, delete_metadata, purge_one, purge_items,
}

module _ {W : Type 0} (store : RetentionStore W) (delete : Deleter W) where
  -- The artifacts were removed in turn, each one's content before its metadata.
  pub data Purged : W → List Artifact → W → Type 0 where
    nothing : (w : W) → Purged w [] w
    then_one :
        (w w₁ w₂ w' : W) (a : Artifact) (items : List Artifact)
        → delete a w ≡ (none, w₁)
        → store.delete_artifact a.id w₁ ≡ (none, w₂)
        → Purged w₂ items w'
        → Purged w (a ∷ items) w'

  one-Purged :
      (a : Artifact) (w w₂ : W) (deleted : Option Error × W)
      → delete a w ≡ deleted
      → delete_metadata store a deleted ≡ (none, w₂)
      → (w₁ : W) × (delete a w ≡ (none, w₁)) × (store.delete_artifact a.id w₁ ≡ (none, w₂))
  one-Purged a w w₂ (some e, v) same h = cc
  one-Purged a w w₂ (none, v) same h = (v, same, metadata-ok (store.delete_artifact a.id v) h)
    where
      metadata-ok : (out : Option Error × W) → metadata_deleted out ≡ (none, w₂) → out ≡ (none, w₂)
      metadata-ok (some e, u) k = cc
      metadata-ok (none, u) k = k

  -- The artifacts that a purge removed: a first part of the list, of which `removed` counts one each;
  -- all of the list if there was no error.
  pub record PurgedPart (w : W) (items : List Artifact) (counted : ℕ) (out : (ℕ × Option Error) × W)
      : Type 0 where
    pub part : List Artifact
    pub left : List Artifact
    pub listed : items ≡ part ++ left
    pub until : W
    pub purged : Purged w part until
    pub count : out.0.0 ≡ counted + length part
    pub all : out.0.1 ≡ none → (left ≡ []) × (out.1 ≡ until)

  next-PurgedPart :
      (a : Artifact) (items : List Artifact) (counted : ℕ) (w : W) (one : Option Error × W)
      → purge_one store delete a w ≡ one
      → PurgedPart one.1 items (suc counted) (purge_items store delete items (suc counted) one.1)
      → PurgedPart w (a ∷ items) counted (elim one.0 as (λ x. (ℕ × Option Error) × W) [
        | none ↦ purge_items store delete items (suc counted) one.1
        | some e ↦ ((counted, some e), one.1)
      ])
  unfolding purge_one
  next-PurgedPart a items counted w (some e, v) same rest = record {
    part = [];
    left = a ∷ items;
    listed = refl;
    until = w;
    purged = nothing w;
    count = omega arith;
    all = λ h. cc;
  }
  next-PurgedPart a items counted w (none, v) same rest =
      let (w₁, content, metadata) = one-Purged a w v (delete a w) refl same in
      record {
        part = a ∷ rest.part;
        left = rest.left;
        listed = ap (λ xs. a ∷ xs) rest.listed;
        until = rest.until;
        purged = then_one w w₁ v rest.until a rest.part content metadata rest.purged;
        count = omega (arith, rest.count);
        all = rest.all;
      }

  -- A purge, whatever its outcome, has removed a first part of the expired artifacts in turn, the
  -- content of each before its metadata, and counts those that it removed; without an error it has
  -- removed them all.
  pub purge_items-PurgedPart :
      (items : List Artifact) (counted : ℕ) (w : W)
      → PurgedPart w items counted (purge_items store delete items counted w)
  unfolding purge_items
  purge_items-PurgedPart [] counted w = record {
    part = [];
    left = [];
    listed = refl;
    until = w;
    purged = nothing w;
    count = omega arith;
    all = λ h. (refl, refl);
  }
  purge_items-PurgedPart (a ∷ items) counted w =
      next-PurgedPart a items counted w _ refl
        (purge_items-PurgedPart items (suc counted) (purge_one store delete a w).1)
