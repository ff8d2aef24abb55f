-- ===== src/Recon/Closure.antt =====
-- Which pipelines are accepted.
use mathlib.Core.Path.{subst}
use enterprise_security_reco.Prelude.{
  ℕ, String, ◌≡◌, ◌≢◌, refl, sym, true, Bool-cases, inl, inr, ◌↔◌, Option, none, some, List, [],
  ◌∷◌, Memᴰ, arith, nat_eq, Distinct,
}
use enterprise_security_reco.Recon.{
  Stage, stages, PipelineError, runes, enabled, ◌<|>◌, check_duplicates, check_requires,
  check_stages, known, check_known, validate_runes, validate,
}

pub enabled-mem : (pipeline : List ℕ) (r : ℕ) → enabled pipeline r ≡ true → Memᴰ r pipeline
unfolding enabled
enabled-mem [] r h = cc
enabled-mem (x ∷ xs) r h = elim (Bool-cases (nat_eq x r)) [
  | inl same ↦ Memᴰ.head (ground (arith))
  | inr differ ↦ Memᴰ.tail (enabled-mem xs r (ground arith))
]

pub mem-enabled : (pipeline : List ℕ) (r : ℕ) → Memᴰ r pipeline → enabled pipeline r ≡ true
unfolding enabled
mem-enabled [] r m = elim m [ ]
mem-enabled (x ∷ xs) r (Memᴰ.head e) = ground (arith, e)
mem-enabled (x ∷ xs) r (Memᴰ.tail m) = ground (arith, mem-enabled xs r m)

or-none : (a b : Option PipelineError) → (a <|> b) ≡ none → (a ≡ none) × (b ≡ none)
or-none none b h = (refl, h)
or-none (some e) b h = cc

duplicates-Distinct :
    (seen pipeline : List ℕ)
    → check_duplicates seen pipeline ≡ none
    → Distinct pipeline × ((r : ℕ) → Memᴰ r seen → ¬ Memᴰ r pipeline)
unfolding check_duplicates
duplicates-Distinct seen [] h = (tt, λ r p q. elim q [ ])
duplicates-Distinct seen (r ∷ rs) h = elim (Bool-cases (enabled seen r)) [
  | inl twice ↦ cc (rw twice at h)
  | inr once ↦
      let (d, apart) = duplicates-Distinct (r ∷ seen) rs (rw once at h) in
      (
        (apart r (Memᴰ.head refl), d),
        λ x p q. elim q [
          | Memᴰ.head e ↦ let yes' = mem-enabled seen r (rw e at p) in cc
          | Memᴰ.tail q' ↦ apart x (Memᴰ.tail p) q'
        ],
      )
]

requires-mem :
    (pipeline : List ℕ) (s : Stage) (deps : List ℕ)
    → check_requires pipeline s deps ≡ none
    → (dep : ℕ) → Memᴰ dep deps
    → Memᴰ dep pipeline
unfolding check_requires
requires-mem pipeline s [] h dep m = elim m [ ]
requires-mem pipeline s (d ∷ deps) h dep m = elim (Bool-cases (enabled pipeline d)) [
  | inl on ↦ elim m [
    | Memᴰ.head e ↦ enabled-mem pipeline dep (rw e on)
    | Memᴰ.tail q ↦ requires-mem pipeline s deps (rw on at h) dep q
  ]
  | inr off ↦ cc (rw off at h)
]

check_stages-mem :
    (pipeline : List ℕ) (ss : List Stage)
    → check_stages pipeline ss ≡ none
    → (s : Stage) → Memᴰ s ss
    → Memᴰ s.key pipeline
    → (dep : ℕ) → Memᴰ dep s.requires
    → Memᴰ dep pipeline
unfolding check_stages
check_stages-mem pipeline [] h s m = elim m [ ]
check_stages-mem pipeline (t ∷ ss) h s m = elim (Bool-cases (enabled pipeline t.key)) [
  | inl on ↦
      let (one, rest) = or-none (check_requires pipeline t t.requires) _ (rw on at h) in
      elim m [
        | Memᴰ.head e ↦ λ k dep r.
            requires-mem pipeline t t.requires one dep (subst (λ w. Memᴰ dep w.requires) e r)
        | Memᴰ.tail q ↦ check_stages-mem pipeline ss rest s q
      ]
  | inr off ↦ elim m [
    | Memᴰ.head e ↦ λ k dep r.
        let yes' = mem-enabled pipeline t.key (subst (λ w. Memᴰ w.key pipeline) e k) in cc
    | Memᴰ.tail q ↦ check_stages-mem pipeline ss (rw off at h) s q
  ]
]

check_known-mem :
    (pipeline : List ℕ)
    → check_known pipeline ≡ none
    → (r : ℕ) → Memᴰ r pipeline
    → known stages r ≡ true
unfolding check_known
check_known-mem [] h r m = elim m [ ]
check_known-mem (x ∷ xs) h r m = elim (Bool-cases (known stages x)) [
  | inl on ↦ elim m [
    | Memᴰ.head e ↦ subst (λ w. known stages w ≡ true) (sym e) on
    | Memᴰ.tail q ↦ check_known-mem xs (rw on at h) r q
  ]
  | inr off ↦ cc (rw off at h)
]

-- The pipelines that make sense: no stage is written twice, each is known, and each stage that is
-- enabled has the stages that it requires.
pub record WellFormed (pipeline : List ℕ) : Type 0 where
  pub some_stage : pipeline ≢ []
  pub once : Distinct pipeline
  pub all_known : (r : ℕ) → Memᴰ r pipeline → known stages r ≡ true
  pub closed :
      (s : Stage)
      → Memᴰ s stages
      → Memᴰ s.key pipeline
      → (dep : ℕ) → Memᴰ dep s.requires
      → Memᴰ dep pipeline

validate-WellFormed : (pipeline : List ℕ) → validate_runes pipeline ≡ none → WellFormed pipeline
unfolding validate_runes
validate-WellFormed [] h = cc
validate-WellFormed (r ∷ rs) h =
    let (duplicates, h₁) = or-none _ _ h in
    let (closed, all_known) = or-none _ _ h₁ in
    record {
      some_stage = λ e. cc;
      once = (duplicates-Distinct [] (r ∷ rs) duplicates).0;
      all_known = check_known-mem (r ∷ rs) all_known;
      closed = check_stages-mem (r ∷ rs) stages closed;
    }

duplicates_none :
    (seen pipeline : List ℕ)
    → Distinct pipeline
    → ((r : ℕ) → Memᴰ r pipeline → ¬ Memᴰ r seen)
    → check_duplicates seen pipeline ≡ none
unfolding check_duplicates
duplicates_none seen [] d apart = refl
duplicates_none seen (r ∷ rs) d apart = elim (Bool-cases (enabled seen r)) [
  | inl twice ↦ elim (apart r (Memᴰ.head refl) (enabled-mem seen r twice)) [ ]
  | inr once ↦ rw once (
      duplicates_none (r ∷ seen) rs d.1 (λ x p q. elim q [
        | Memᴰ.head e ↦ d.0 (subst (λ w. Memᴰ w rs) e p)
        | Memᴰ.tail q' ↦ apart x (Memᴰ.tail p) q'
      ]))
]

requires_none :
    (pipeline : List ℕ) (s : Stage) (deps : List ℕ)
    → ((dep : ℕ) → Memᴰ dep deps → Memᴰ dep pipeline)
    → check_requires pipeline s deps ≡ none
unfolding check_requires
requires_none pipeline s [] inside = refl
requires_none pipeline s (d ∷ deps) inside =
    rw (mem-enabled pipeline d (inside d (Memᴰ.head refl)))
      (requires_none pipeline s deps (λ dep p. inside dep (Memᴰ.tail p)))

stages_none :
    (pipeline : List ℕ) (ss : List Stage)
    → ((s : Stage)
        → Memᴰ s ss
        → Memᴰ s.key pipeline
        → (dep : ℕ) → Memᴰ dep s.requires
        → Memᴰ dep pipeline)
    → check_stages pipeline ss ≡ none
unfolding check_stages
stages_none pipeline [] closed = refl
stages_none pipeline (s ∷ ss) closed =
    let rest = stages_none pipeline ss (λ t p. closed t (Memᴰ.tail p)) in
    elim (Bool-cases (enabled pipeline s.key)) [
      | inl on ↦
          let one =
            requires_none pipeline s s.requires
              (closed s (Memᴰ.head refl) (enabled-mem pipeline s.key on)) in
          rw (on, one) rest
      | inr off ↦ rw off rest
    ]

known-none :
    (pipeline : List ℕ)
    → ((r : ℕ) → Memᴰ r pipeline → known stages r ≡ true)
    → check_known pipeline ≡ none
unfolding check_known
known-none [] all_known = refl
known-none (r ∷ rs) all_known =
    rw (all_known r (Memᴰ.head refl)) (known-none rs (λ x p. all_known x (Memᴰ.tail p)))

WellFormed-validate : (pipeline : List ℕ) → WellFormed pipeline → validate_runes pipeline ≡ none
unfolding validate_runes
WellFormed-validate [] w = elim (w.some_stage refl) [ ]
WellFormed-validate (r ∷ rs) w =
    rw
      (
        duplicates_none [] (r ∷ rs) w.once (λ x p q. elim q [ ]),
        stages_none (r ∷ rs) stages w.closed,
      )
      (known-none (r ∷ rs) w.all_known)

-- A pipeline is accepted exactly when it has a stage, has none twice, has only known ones, and has
-- every stage that one of its stages requires.
pub validate_iff : (pipeline : String) → (validate pipeline ≡ none) ↔ WellFormed (runes pipeline)
unfolding validate
validate_iff pipeline = (validate-WellFormed (runes pipeline), WellFormed-validate (runes pipeline))
