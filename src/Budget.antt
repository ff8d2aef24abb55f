-- ===== src/Budget.antt =====
-- internal/budget/limiter.go: `Local`, the limiter of parallel work. A call of `Acquire` or of a
-- release function holds the mutex, so that each is one step here; `Acquire` that has to wait
-- tries again after a release, or gives up when its context ends.
pub mod Hosts
pub mod Counts
pub mod Leases
pub mod Held
mod Tests
use enterprise_security_reco.Prelude.{
  ℕ, zero, suc, ◌+◌, ◌-◌, String, Bool, true, false, ◌&&◌, ◌||◌, not, Option, none, some, List, [],
  ◌∷◌, ℤ, pos, negsuc, leb, lookup, insert, if◌then◌else◌, contains, ◌==◌, ◌++◌,
}
use enterprise_security_reco.Strings.{is_empty, trim_space, to_lower}
use enterprise_security_reco.Sorting.{sort_strings}

pub record Limits : Type 0 where
  pub program : ℕ
  pub provider : ℕ
  pub host : ℕ

pub record Request : Type 0 where
  pub program_id : String
  pub provider : String
  pub hosts : List String

pub record Local : Type 0 where
  pub limits : Limits
  pub programs : List (String × ℕ)
  pub providers : List (String × ℕ)
  pub hosts : List (String × ℕ)

-- `positive`; the limits that `NewLocal` is given may be zero or below.
unfoldable pub positive : ℤ → ℕ
positive (pos zero) = 1
positive (pos (suc n)) = suc n
positive (negsuc n) = 1

unfoldable pub new_local : ℤ → ℤ → ℤ → Local
new_local program provider host = record {
  limits = record {
    program = positive program;
    provider = positive provider;
    host = positive host;
  };
  programs = [];
  providers = [];
  hosts = [];
}

-- A key that the map does not have counts as zero.
unfoldable pub count : List (String × ℕ) → String → ℕ
count values key = elim (lookup key values) [ none ↦ 0 | some n ↦ n ]

unfoldable pub delete : List (String × ℕ) → String → List (String × ℕ)
delete [] key = []
delete ((k, n) ∷ values) key =
    let rest = delete values key in if k == key then rest else (k, n) ∷ rest

unfoldable pub increment : List (String × ℕ) → String → List (String × ℕ)
increment values key = insert key (suc (count values key)) values

unfoldable pub decrement : List (String × ℕ) → String → List (String × ℕ)
decrement values key =
    if leb (count values key) 1 then delete values key else insert key (count values key - 1) values

-- The loops over the hosts of a request.
unfoldable pub increment_all : List (String × ℕ) → List String → List (String × ℕ)
increment_all values [] = values
increment_all values (host ∷ hosts) = increment_all (increment values host) hosts

unfoldable pub decrement_all : List (String × ℕ) → List String → List (String × ℕ)
decrement_all values [] = values
decrement_all values (host ∷ hosts) = decrement_all (decrement values host) hosts

-- A value that is empty once trimmed, or seen before, is left out.
unfoldable pub dedupe : List String → List String → List String
dedupe seen [] = []
dedupe seen (value ∷ values) =
    let v = to_lower (trim_space value) in
    let kept = dedupe (v ∷ seen) values in
    let left_out = dedupe seen values in
    if is_empty v || contains seen v then left_out else v ∷ kept

unfoldable pub normalized : List String → List String
normalized values = sort_strings (dedupe [] values)

unfoldable pub normalize_request : Request → Request
normalize_request request = record request {
  provider = to_lower (trim_space request.provider);
  hosts = normalized request.hosts;
}

unfoldable pub hosts_free : Local → List String → Bool
hosts_free l [] = true
hosts_free l (host ∷ hosts) =
    let rest = hosts_free l hosts in if leb l.limits.host (count l.hosts host) then false else rest

unfoldable pub available : Local → Request → Bool
available l request =
    if leb l.limits.program (count l.programs request.program_id)
    then false
    else if not (is_empty request.provider)
        && leb l.limits.provider (count l.providers request.provider)
    then false
    else hosts_free l request.hosts

-- What `Acquire` does where there is room, for a request that is normalized.
unfoldable pub take_lease : Local → Request → Local
take_lease l request = record l {
  programs = increment l.programs request.program_id;
  providers =
      if is_empty request.provider then l.providers else increment l.providers request.provider;
  hosts = increment_all l.hosts request.hosts;
}

-- One round of the loop of `Acquire`: `none` where it has to wait. The release function that it
-- returns is known by its request and by its variable `released`.
unfoldable pub acquire : Local → Request → Option (Local × Request)
acquire l request =
    let r = normalize_request request in if available l r then some (take_lease l r, r) else none

-- The body of the release function, once `released` is set.
unfoldable pub give_back : Local → Request → Local
give_back l request = record l {
  programs = decrement l.programs request.program_id;
  providers =
      if is_empty request.provider then l.providers else decrement l.providers request.provider;
  hosts = decrement_all l.hosts request.hosts;
}

-- A lease that is taken, and its variable `released`.
pub record Lease : Type 0 where
  pub request : Request
  pub released : Bool

unfoldable pub release : Local → Lease → Local × Lease
release l lease =
    if lease.released
    then (l, lease)
    else (give_back l lease.request, record lease { released = true })

-- A limiter with all leases that were ever taken, in the order of their taking.
pub record System : Type 0 where
  pub limiter : Local
  pub leases : List Lease

-- What a caller may do: try to acquire, or call the release function of a lease, by its place.
pub data Call : Type 0 where
  try_acquire : Request → Call
  call_release : ℕ → Call

-- The release of the lease at a place; a place that no lease has is no call.
unfoldable pub release_at : Local → List Lease → ℕ → Local × List Lease
release_at l [] place = (l, [])
release_at l (lease ∷ leases) zero = let (l', lease') = release l lease in (l', lease' ∷ leases)
release_at l (lease ∷ leases) (suc place) =
    let (l', leases') = release_at l leases place in (l', lease ∷ leases')

-- What a try makes of the system; where the caller has to wait, nothing has changed.
unfoldable pub acquired : System → Option (Local × Request) → System
acquired s none = s
acquired s (some (l, r)) = record {
  limiter = l;
  leases = s.leases ++ record { request = r; released = false } ∷ [];
}

unfoldable pub step : System → Call → System
step s (try_acquire request) = acquired s (acquire s.limiter request)
step s (call_release place) =
    let (l, leases) = release_at s.limiter s.leases place in record { limiter = l; leases = leases }

unfoldable pub run : System → List Call → System
run s [] = s
run s (call ∷ calls) = run (step s call) calls

unfoldable pub start : ℤ → ℤ → ℤ → System
start program provider host = record { limiter = new_local program provider host; leases = [] }
