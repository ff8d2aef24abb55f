-- ===== src/Assets.antt =====
-- internal/assets/changes.go: the changes between two snapshots of assets. The maps' entries are
-- visited in the order of their lists; the result is sorted.
pub mod FullRuns
pub mod Removal
mod Tests
use Prim.Native.String.{◌++◌ as append}
use enterprise_security_reco.Prelude.{
  String, Bool, true, false, ◌&&◌, not, Option, none, some, List, [], ◌∷◌, ◌++◌, ◌==◌, lookup,
  insert, if◌then◌else◌,
}
use enterprise_security_reco.Sorting.{sort, string_le}

pub record State : Type 0 where
  pub type : String
  pub value : String
  pub source_capability : String
  pub metadata : String

pub record Coverage : Type 0 where
  pub capability : String
  pub successful : Bool
  pub complete : Bool

pub record Change : Type 0 where
  pub kind : String
  pub asset_type : String
  pub value : String
  pub before : Option State
  pub after : Option State
  pub reason : String

-- The key of a state: its type and its value, with a zero byte between them.
abbrev pub key_of : State → String
key_of s = append s.type (append "\0" s.value)

-- `index`: a later state of the same key takes the place of an earlier one.
unfoldable pub index_from : List (String × State) → List State → List (String × State)
index_from m [] = m
index_from m (s ∷ states) = index_from (insert (key_of s) s m) states

unfoldable pub index : List State → List (String × State)
index states = index_from [] states

-- The map `covered`, from the map so far.
unfoldable pub cover_from : List (String × Bool) → List Coverage → List (String × Bool)
cover_from m [] = m
cover_from m (c ∷ coverage) =
    cover_from (insert c.capability (c.successful && c.complete) m) coverage

unfoldable pub is_covered : List Coverage → String → Bool
is_covered coverage capability = elim (lookup capability (cover_from [] coverage)) [
  | none ↦ false
  | some b ↦ b
]

-- `out[i]` before `out[j]`: by kind, then by value.
unfoldable pub before : Change → Change → Bool
before a b = if a.kind == b.kind then string_le a.value b.value else string_le a.kind b.kind

abbrev pub removal : State → Change
removal old = record {
  kind = "removed";
  asset_type = old.type;
  value = old.value;
  before = some old;
  after = none;
  reason = "source step completed successfully with complete coverage";
}

-- `same_metadata`, which decodes JSON and compares deeply, is a parameter.
module _ (same_metadata : String → String → Bool) where
  unfoldable pub present : Option State → State → List Change
  present none now =
      record {
        kind = "new";
        asset_type = now.type;
        value = now.value;
        before = none;
        after = some now;
        reason = "";
      }
      ∷ []
  present (some old) now =
      if same_metadata old.metadata now.metadata
      then []
      else record {
        kind = "changed";
        asset_type = now.type;
        value = now.value;
        before = some old;
        after = some now;
        reason = "";
      }
        ∷ []

  -- The loop over the current states.
  unfoldable pub appeared : List (String × State) → List (String × State) → List Change
  appeared prev [] = []
  appeared prev ((k, now) ∷ cur) = present (lookup k prev) now ++ appeared prev cur

  -- The loop over the previous states.
  unfoldable pub vanished :
      List (String × State) → List Coverage → List (String × State) → List Change
  vanished cur coverage [] = []
  vanished cur coverage ((k, old) ∷ prev) =
      let rest = vanished cur coverage prev in
      elim (lookup k cur) [
        | some now ↦ rest
        | none ↦ if is_covered coverage old.source_capability then removal old ∷ rest else rest
      ]

  unfoldable pub compare : List State → List State → List Coverage → List Change
  compare previous current coverage = sort before (
      appeared (index previous) (index current)
      ++ vanished (index current) coverage (index previous))
