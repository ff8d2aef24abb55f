-- ===== src/Budget/Leases.antt =====
-- The three counters of the limiter as one family, and what one step does to each.
use mathlib.Core.Path.{subst}
use enterprise_security_reco.Prelude.{
  ap, ◌⊎◌, ℕ, zero, suc, ◌+◌, ◌-◌, ◌≤◌, ◌<◌, String, ◌≡◌, refl, true, false, Bool-cases, inl, inr,
  List, [], ◌∷◌, ◌++◌, arith, if◌then◌else◌, ◌==◌, eq_iff, Distinct,
}
use enterprise_security_reco.Strings.{is_empty}
use enterprise_security_reco.Budget.{
  Limits, Request, Local, Lease, count, hosts_free, available, take_lease, give_back, release,
  release_at,
}
use enterprise_security_reco.Budget.Counts.{
  occurs, count-increment, count-decrement, count-increment_all, count-decrement_all,
  occurs-Distinct,
}

pub data Pool : Type 0 where
  by_program by_provider by_host : Pool

abbrev pub counter : Pool → Local → String → ℕ
counter by_program l key = count l.programs key
counter by_provider l key = count l.providers key
counter by_host l key = count l.hosts key

abbrev pub limit : Pool → Limits → ℕ
limit by_program limits = limits.program
limit by_provider limits = limits.provider
limit by_host limits = limits.host

-- What a request takes of a pool; a request without a provider takes nothing of the providers.
abbrev pub used : Pool → Request → String → ℕ
used by_program r key = occurs (r.program_id ∷ []) key
used by_provider r key = if is_empty r.provider then 0 else occurs (r.provider ∷ []) key
used by_host r key = occurs r.hosts key

-- What the leases that are not released have taken.
unfoldable pub live : Pool → List Lease → String → ℕ
live pool [] key = 0
live pool (lease ∷ leases) key =
    let rest = live pool leases key in
    if lease.released then rest else used pool lease.request key + rest

pub counter-take_lease :
    (pool : Pool) (l : Local) (r : Request) (key : String)
    → counter pool (take_lease l r) key ≡ counter pool l key + used pool r key
unfolding take_lease
counter-take_lease by_program l r key = count-increment l.programs r.program_id key
counter-take_lease by_provider l r key = ground (arith, count-increment l.providers r.provider key)
counter-take_lease by_host l r key = count-increment_all l.hosts r.hosts key

pub counter-give_back :
    (pool : Pool) (l : Local) (r : Request) (key : String)
    → counter pool (give_back l r) key ≡ counter pool l key - used pool r key
unfolding give_back
counter-give_back by_program l r key = count-decrement l.programs r.program_id key
counter-give_back by_provider l r key = ground (arith, count-decrement l.providers r.provider key)
counter-give_back by_host l r key = count-decrement_all l.hosts r.hosts key

hosts_free-room :
    (l : Local) (hosts : List String) (key : String)
    → hosts_free l hosts ≡ true
    → occurs hosts key ≡ 0 ⊎ (count l.hosts key < l.limits.host)
unfolding hosts_free occurs
hosts_free-room l [] key h = inl refl
hosts_free-room l (host ∷ hosts) key h = elim (Bool-cases (host == key)) [
  | inl same ↦
      let e = (eq_iff host key).0 same in
      let free : count l.hosts host < l.limits.host = ground arith in
      inr (subst (λ w. count l.hosts w < l.limits.host) e free)
  | inr differ ↦ rw differ (hosts_free-room l hosts key (ground arith))
]

-- Where a request has room, taking it stays within the limits.
pub available-fits :
    (pool : Pool) (l : Local) (r : Request) (key : String)
    → available l r ≡ true
    → Distinct r.hosts
    → counter pool l key ≤ limit pool l.limits
    → counter pool l key + used pool r key ≤ limit pool l.limits
unfolding available occurs
available-fits by_program l r key h d fits = elim (Bool-cases (r.program_id == key)) [
  | inl same ↦
      let e = ap (count l.programs) ((eq_iff r.program_id key).0 same) in ground (arith, e, same)
  | inr differ ↦ ground (arith, differ)
]
available-fits by_provider l r key h d fits = elim (Bool-cases (r.provider == key)) [
  | inl same ↦
      let e = ap (count l.providers) ((eq_iff r.provider key).0 same) in ground (arith, e, same)
  | inr differ ↦ ground (arith, differ)
]
available-fits by_host l r key h d fits =
    let free : hosts_free l r.hosts ≡ true = ground arith in
    let once = occurs-Distinct r.hosts key d in
    elim (hosts_free-room l r.hosts key free) [
      | inl unused ↦ omega (arith, unused, fits)
      | inr room ↦ omega (arith, room, once)
    ]

pub live-append :
    (pool : Pool) (leases : List Lease) (r : Request) (key : String)
    → live pool (leases ++ record { request = r; released = false } ∷ []) key
      ≡ live pool leases key + used pool r key
unfolding live
live-append pool [] r key = omega arith
live-append pool (lease ∷ leases) r key = ground (arith, live-append pool leases r key)

-- The release of a lease takes from a counter what the leases then hold less.
pub release_at-live :
    (pool : Pool) (l : Local) (leases : List Lease) (place : ℕ) (key : String) (more : ℕ)
    → counter pool l key ≡ more + live pool leases key
    → counter pool (release_at l leases place).0 key
      ≡ more + live pool (release_at l leases place).1 key
unfolding release_at live release
release_at-live pool l [] place key more h = h
release_at-live pool l (lease ∷ leases) zero key more h = elim (Bool-cases lease.released) [
  | inl again ↦ rw again (rw again at h)
  | inr first ↦ ground (arith, first, counter-give_back pool l lease.request key)
]
release_at-live pool l (lease ∷ leases) (suc place) key more h = elim (Bool-cases lease.released) [
  | inl gone ↦ ground (arith, gone, release_at-live pool l leases place key more (rw gone at h))
  | inr held ↦ ground (
    arith,
    held,
    release_at-live pool l leases place key (used pool lease.request key + more)
        (ground (arith, held)),
  )
]
