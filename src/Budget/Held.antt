-- ===== src/Budget/Held.antt =====
-- The limiter over any sequence of calls: its counters, its limits, and who gets through.
use mathlib.Core.Path.{subst}
use enterprise_security_reco.Prelude.{
  ℕ, zero, suc, ◌+◌, ◌≤◌, String, ◌≡◌, refl, sym, ◌∙◌, true, false, Bool-cases, inl, inr, none,
  some, lookup, List, [], ◌∷◌, ◌++◌, arith, Distinct, ℤ, pos, negsuc,
}
use enterprise_security_reco.Budget.{
  Limits, Request, Local, Lease, System, Call, try_acquire, call_release, count, positive,
  new_local, normalize_request, hosts_free, available, take_lease, acquire, release, release_at,
  step, acquired, give_back, run, start,
}
use enterprise_security_reco.Budget.Counts.{normalized-Distinct}
use enterprise_security_reco.Budget.Leases.{
  Pool, by_program, by_provider, by_host, counter, limit, used, live, counter-take_lease,
  available-fits, live-append, release_at-live,
}

-- Every counter is what the leases hold, and within the limit.
pub record Held (limits : Limits) (s : System) : Type 0 where
  pub kept : s.limiter.limits ≡ limits
  pub counts : (pool : Pool) (key : String) → counter pool s.limiter key ≡ live pool s.leases key
  pub within : (pool : Pool) (key : String) → live pool s.leases key ≤ limit pool limits

start-counts :
    (pool : Pool) (program provider host : ℤ) (key : String)
    → counter pool (start program provider host).limiter key ≡ 0
unfolding start new_local count lookup
start-counts by_program program provider host key = refl
start-counts by_provider program provider host key = refl
start-counts by_host program provider host key = refl

start-Held :
    (program provider host : ℤ)
    → Held (start program provider host).limiter.limits (start program provider host)
unfolding start live
start-Held program provider host = record {
  kept = refl;
  counts = λ pool key. start-counts pool program provider host key;
  within = λ pool key. omega arith;
}

normalize_request-Distinct : (r : Request) → Distinct (normalize_request r).hosts
unfolding normalize_request
normalize_request-Distinct r = normalized-Distinct r.hosts

take_lease-limits : (l : Local) (r : Request) → (take_lease l r).limits ≡ l.limits
unfolding take_lease
take_lease-limits l r = refl

release_at-limits :
    (l : Local) (leases : List Lease) (place : ℕ) → (release_at l leases place).0.limits ≡ l.limits
unfolding release_at release give_back
release_at-limits l [] place = refl
release_at-limits l (lease ∷ leases) zero = ground arith
release_at-limits l (lease ∷ leases) (suc place) = release_at-limits l leases place

-- A release takes nothing more.
release_at-live_le :
    (pool : Pool) (l : Local) (leases : List Lease) (place : ℕ) (key : String)
    → live pool (release_at l leases place).1 key ≤ live pool leases key
unfolding release_at live release
release_at-live_le pool l [] place key = omega arith
release_at-live_le pool l (lease ∷ leases) zero key = elim (Bool-cases lease.released) [
  | inl again ↦ ground (arith, again)
  | inr first ↦ ground (arith, first)
]
release_at-live_le pool l (lease ∷ leases) (suc place) key = elim (Bool-cases lease.released) [
  | inl gone ↦ ground (arith, gone, release_at-live_le pool l leases place key)
  | inr held ↦ ground (arith, held, release_at-live_le pool l leases place key)
]

abbrev taken : System → Request → System
taken s r = record {
  limiter = take_lease s.limiter r;
  leases = s.leases ++ record { request = r; released = false } ∷ [];
}

taken-Held :
    (limits : Limits) (s : System) (r : Request)
    → Held limits s
    → available s.limiter r ≡ true
    → Distinct r.hosts
    → Held limits (taken s r)
taken-Held limits s r h free d = record {
  kept = take_lease-limits s.limiter r ∙ h.kept;
  counts = λ pool key. omega (
    arith,
    counter-take_lease pool s.limiter r key,
    live-append pool s.leases r key,
    h.counts pool key,
  );
  within = λ pool key.
      let fit : counter pool s.limiter key + used pool r key ≤ limit pool limits =
        subst (λ w. counter pool s.limiter key + used pool r key ≤ limit pool w) h.kept
          (available-fits pool s.limiter r key free d (
            subst (λ w. counter pool s.limiter key ≤ limit pool w) (sym h.kept)
              (omega (arith, h.counts pool key, h.within pool key)))) in
      omega (arith, fit, h.counts pool key, live-append pool s.leases r key);
}

acquire-free :
    (l : Local) (request : Request)
    → available l (normalize_request request) ≡ true
    → acquire l request ≡ some (take_lease l (normalize_request request), normalize_request request)
unfolding acquire
acquire-free l request free = rw free

acquire-full :
    (l : Local) (request : Request)
    → available l (normalize_request request) ≡ false
    → acquire l request ≡ none
unfolding acquire
acquire-full l request full = rw full

step-Held : (limits : Limits) (s : System) (call : Call) → Held limits s → Held limits (step s call)
unfolding step acquired
step-Held limits s (try_acquire request) h =
    elim (Bool-cases (available s.limiter (normalize_request request))) [
      | inl free ↦
          subst (λ o. Held limits (acquired s o)) (sym (acquire-free s.limiter request free))
            (taken-Held limits s (normalize_request request) h free
              (normalize_request-Distinct request))
      | inr full ↦
          subst (λ o. Held limits (acquired s o)) (sym (acquire-full s.limiter request full)) h
    ]
step-Held limits s (call_release place) h = record {
  kept = release_at-limits s.limiter s.leases place ∙ h.kept;
  counts = λ pool key. omega (
    arith,
    release_at-live pool s.limiter s.leases place key 0 (omega (arith, h.counts pool key)),
  );
  within = λ pool key.
      omega (arith, release_at-live_le pool s.limiter s.leases place key, h.within pool key);
}

run-Held_from :
    (limits : Limits) (s : System) (calls : List Call) → Held limits s → Held limits (run s calls)
unfolding run
run-Held_from limits s [] h = h
run-Held_from limits s (call ∷ calls) h =
    run-Held_from limits (step s call) calls (step-Held limits s call h)

-- Whatever the order of calls, of which a release may be called again and again: each counter of
-- the limiter is the number of times that the leases not yet released hold its key, and this is
-- at most the limit that the limiter was made with.
pub run-Held :
    (program provider host : ℤ) (calls : List Call)
    → Held (start program provider host).limiter.limits (run (start program provider host) calls)
run-Held program provider host calls =
    run-Held_from _ (start program provider host) calls (start-Held program provider host)

positive_pos : (n : ℤ) → 1 ≤ positive n
unfolding positive
positive_pos (pos zero) = omega arith
positive_pos (pos (suc n)) = omega arith
positive_pos (negsuc n) = omega arith

hosts_free_empty :
    (l : Local) (hosts : List String)
    → 1 ≤ l.limits.host
    → ((key : String) → count l.hosts key ≡ 0)
    → hosts_free l hosts ≡ true
unfolding hosts_free
hosts_free_empty l [] room idle = refl
hosts_free_empty l (host ∷ hosts) room idle =
    ground (arith, idle host, hosts_free_empty l hosts room idle)

-- Every limit is at least one.
start-limit : (pool : Pool) (p v h : ℤ) → 1 ≤ limit pool (start p v h).limiter.limits
unfolding start new_local
start-limit by_program p v h = positive_pos p
start-limit by_provider p v h = positive_pos v
start-limit by_host p v h = positive_pos h

available_idle :
    (l : Local) (r : Request)
    → ((pool : Pool) → 1 ≤ limit pool l.limits)
    → ((pool : Pool) (key : String) → counter pool l key ≡ 0)
    → available l r ≡ true
unfolding available
available_idle l r room idle = ground (
  arith,
  room by_program,
  room by_provider,
  idle by_program r.program_id,
  idle by_provider r.provider,
  hosts_free_empty l r.hosts (room by_host) (idle by_host),
)

-- No call of the release functions is lost: after any sequence of calls that leaves no lease
-- unreleased, every request is granted at its first try.
pub idle_acquires :
    (program provider host : ℤ) (calls : List Call) (request : Request)
    → ((pool : Pool) (key : String)
        → live pool (run (start program provider host) calls).leases key ≡ 0)
    → acquire (run (start program provider host) calls).limiter request
      ≡ some (
        take_lease (run (start program provider host) calls).limiter (normalize_request request),
        normalize_request request,
      )
idle_acquires program provider host calls request idle =
    let held = run-Held program provider host calls in
    let s = run (start program provider host) calls in
    acquire-free s.limiter request (
      available_idle s.limiter (normalize_request request)
        (λ pool.
          subst (λ w. 1 ≤ limit pool w) (sym held.kept) (start-limit pool program provider host))
        (λ pool key. held.counts pool key ∙ idle pool key))
