-- ===== src/Assets/Tests.antt =====
-- Two snapshots, of which the later lacks an asset.
use enterprise_security_reco.Prelude.{
  String, ◌≡◌, ◌≢◌, refl, Bool, true, List, [], ◌∷◌, ◌==◌, Memᴰ, lookup, insert,
}
use enterprise_security_reco.Sorting.{sort, sorted_insert}
use enterprise_security_reco.Assets.{
  State, Coverage, removal, key_of, index, index_from, cover_from, is_covered, before, present,
  appeared, vanished, compare,
}
use enterprise_security_reco.Assets.Removal.{removed_covered}
use enterprise_security_reco.Assets.FullRuns.{FullRun}

abbrev host : String → State
host name = record { type = "host"; value = name; source_capability = "dns"; metadata = "{}" }

abbrev same : String → String → Bool
same a b = a == b

abbrev dns_ran : List Coverage
dns_ran = record { capability = "dns"; successful = true; complete = true } ∷ []

abbrev earlier : List State
earlier = host "a.test" ∷ host "b.test" ∷ []

abbrev later : List State
later = host "b.test" ∷ []

compared : compare same earlier later dns_ran ≡ removal (host "a.test") ∷ []
unfolding compare index index_from appeared vanished present is_covered cover_from lookup insert
    sort sorted_insert before
compared = refl

not_covered : compare same earlier later [] ≡ []
unfolding compare index index_from appeared vanished present is_covered cover_from lookup insert
    sort sorted_insert before
not_covered = refl

removal_listed : Memᴰ (removal (host "a.test")) (compare same earlier later dns_ran)
unfolding compare index index_from appeared vanished present is_covered cover_from lookup insert
    sort sorted_insert before
removal_listed = Memᴰ.head refl

removed_covered_example :
    (old : State) × (removal (host "a.test") ≡ removal old)
    × Memᴰ old earlier
    × ((now : State) → Memᴰ now later → key_of now ≢ key_of old)
    × FullRun dns_ran old.source_capability
removed_covered_example =
    removed_covered same earlier later dns_ran (removal (host "a.test")) removal_listed refl
