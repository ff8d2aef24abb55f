-- ===== src/Budget/Tests.antt =====
-- Runs of the limiter.
use enterprise_security_reco.Prelude.{
  String, ◌≡◌, refl, some, List, [], ◌∷◌, pos, lookup, insert, contains,
}
use enterprise_security_reco.Strings.{
  trim_space, trim_left, trim_right, is_space, to_lower, is_empty,
}
use enterprise_security_reco.Sorting.{sort_strings, sort, sorted_insert}
use enterprise_security_reco.Json.{Json, Items, Members, text, array, object}
use enterprise_security_reco.Budget.{
  Request, Call, try_acquire, call_release, count, delete, increment, decrement, increment_all,
  decrement_all, dedupe, normalized, normalize_request, hosts_free, available, take_lease, acquire,
  give_back, release, release_at, acquired, step, run, new_local, positive, start,
}
use enterprise_security_reco.Budget.Hosts.{
  target_key, item_texts, collect_candidates, candidate_hosts, hosts_from_input,
}
use enterprise_security_reco.Budget.Leases.{Pool, live}
use enterprise_security_reco.Budget.Held.{Held, run-Held, idle_acquires}

abbrev scan : Request
scan = record {
  program_id = "p";
  provider = " Httpx";
  hosts = "b.test" ∷ "A.test " ∷ "a.TEST" ∷ [];
}

abbrev calls : List Call
calls =
    try_acquire scan
    ∷ try_acquire scan
    ∷ call_release 0
    ∷ call_release 0
    ∷ try_acquire scan
    ∷ call_release 1
    ∷ []

-- The second try has to wait, and the second call of a release function does nothing.
calls-run : count (run (start (pos 2) (pos 0) (pos 1)) calls).limiter.hosts "a.test" ≡ 0
unfolding count run step acquired acquire available hosts_free normalize_request normalized dedupe
    sort_strings sort sorted_insert take_lease increment increment_all give_back decrement
    decrement_all delete release release_at start new_local positive lookup insert contains
    trim_space trim_left trim_right is_space to_lower is_empty
calls-run = refl

run-Held_example :
    Held (start (pos 2) (pos 0) (pos 1)).limiter.limits (run (start (pos 2) (pos 0) (pos 1)) calls)
run-Held_example = run-Held (pos 2) (pos 0) (pos 1) calls

calls-live :
    (pool : Pool) (key : String)
    → live pool (run (start (pos 2) (pos 0) (pos 1)) calls).leases key ≡ 0
unfolding live count run step acquired acquire available hosts_free normalize_request normalized
    dedupe sort_strings sort sorted_insert take_lease increment increment_all give_back decrement
    decrement_all delete release release_at start new_local positive lookup insert contains
    trim_space trim_left trim_right is_space to_lower is_empty
calls-live pool key = refl

idle_acquires_example :
    acquire (run (start (pos 2) (pos 0) (pos 1)) calls).limiter scan
    ≡ some (
      take_lease (run (start (pos 2) (pos 0) (pos 1)) calls).limiter (normalize_request scan),
      normalize_request scan,
    )
idle_acquires_example = idle_acquires (pos 2) (pos 0) (pos 1) calls scan calls-live

abbrev input : Json
input = object (
    Members.member "Hosts"
      (array (Items.item (text "B.test") (Items.item (text "a.test") Items.no_items)))
      (Members.member "note" (text "c.test") Members.no_members))

input_hosts : hosts_from_input (λ raw. some input) (λ c. c) "{}" ≡ "a.test" ∷ "b.test" ∷ []
unfolding hosts_from_input candidate_hosts collect_candidates item_texts target_key contains
    normalized dedupe sort_strings sort sorted_insert to_lower trim_space trim_left trim_right
    is_space is_empty
input_hosts = refl
