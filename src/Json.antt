-- ===== src/Json.antt =====
-- JSON values, as `json.Unmarshal` makes them into `any`. The members of an object stand in the
-- order in which Go's map happens to be visited.
use enterprise_security_reco.Prelude.{String, Bool}

mutual
  pub data Json : Type 0 where
    null : Json
    bool : Bool → Json
    number : String → Json
    text : String → Json
    array : Items → Json
    object : Members → Json

  pub data Items : Type 0 where
    no_items : Items
    item : Json → Items → Items

  pub data Members : Type 0 where
    no_members : Members
    member : String → Json → Members → Members
