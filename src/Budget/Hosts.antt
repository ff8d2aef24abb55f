-- ===== src/Budget/Hosts.antt =====
-- internal/budget/limiter.go: the hosts that the input of a step names.
use enterprise_security_reco.Prelude.{
  String, Bool, List, [], ◌∷◌, ◌++◌, contains, if◌then◌else◌, Option, none, some,
}
use enterprise_security_reco.Strings.{is_empty, to_lower}
use enterprise_security_reco.Json.{Json, null, bool, number, text, array, object, Items, Members}
use enterprise_security_reco.Budget.{normalized}

unfoldable pub target_key : String → Bool
target_key key =
    contains
      ("target" ∷ "targets" ∷ "url" ∷ "urls" ∷ "domain" ∷ "domains" ∷ "host" ∷ "hosts"
        ∷ "exact_urls" ∷ "discovered_urls" ∷ "port_targets" ∷ [])
      key

-- The texts among the items; other items are passed over.
unfoldable pub item_texts : Items → List String
item_texts Items.no_items = []
item_texts (Items.item (text s) items) = s ∷ item_texts items
item_texts (Items.item other items) = item_texts items

-- What `collectCandidates` appends for a value under a key.
unfoldable mutual
  pub collect_candidates : Json → String → List String
  collect_candidates (object members) key = collect_members members
  collect_candidates (array items) key = if target_key key then item_texts items else []
  collect_candidates (text s) key = if target_key key then s ∷ [] else []
  collect_candidates (number n) key = []
  collect_candidates (bool b) key = []
  collect_candidates null key = []

  pub collect_members : Members → List String
  collect_members Members.no_members = []
  collect_members (Members.member key value members) =
      collect_candidates value (to_lower key) ++ collect_members members

-- `hostFromCandidate`, which is the work of `net` and `net/url`, is a parameter here, and so is
-- `json.Unmarshal`: `none` is an error of it.
module _ (unmarshal : String → Option Json) (host_from_candidate : String → String) where
  unfoldable pub candidate_hosts : List String → List String
  candidate_hosts [] = []
  candidate_hosts (candidate ∷ candidates) =
      let host = host_from_candidate candidate in
      let rest = candidate_hosts candidates in if is_empty host then rest else host ∷ rest

  unfoldable pub hosts_from_input : String → List String
  hosts_from_input raw = elim (unmarshal raw) [
    | none ↦ []
    | some value ↦ normalized (candidate_hosts (collect_candidates value ""))
  ]
