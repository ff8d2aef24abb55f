-- ===== src/Workflow/Run/Waves.antt =====
-- What a wave leaves of a round: where the run goes on, every step that was started is finished.
use mathlib.Core.Path.{subst}
use enterprise_security_reco.Prelude.{
  ℕ, String, ◌≡◌, refl, sym, ap, Bool, true, false, ◌||◌, not, Bool-cases, inl, inr, ◌⊎◌, Option,
  none, some, List, [], ◌∷◌, Memᴰ, Permᴰ, arith, if◌then◌else◌, length, leb,
}
use enterprise_security_reco.Errors.{Error}
use enterprise_security_reco.Domain.{Task}
use enterprise_security_reco.Sorting.Laws.{sort-perm, mem_perm, Distinct-perm, perm_symm}
use enterprise_security_reco.Workflow.{Step}
use enterprise_security_reco.Workflow.Attempts.{StepPlan, StepOutcome}
use enterprise_security_reco.Workflow.Records.{Engine, Surroundings, save}
use enterprise_security_reco.Workflow.Plans.{Round, Progress, going, ended}
use enterprise_security_reco.Workflow.Wave.{
  share_among, by_rank, rank_in, Recorded, execute_wave, record_outcomes, is_nil_error,
}
use enterprise_security_reco.Workflow.Run.{
  Standing, after_primary, after_wave, execute_plans, planned_save, after_plans,
}
use enterprise_security_reco.Workflow.Run.Sets.{Grown}
use enterprise_security_reco.Workflow.Run.Effects.{Goes}
use enterprise_security_reco.Workflow.Run.Planning.{Finished, plan_ids}
use enterprise_security_reco.Workflow.Run.Planned.{Goes-map, Planned}
use enterprise_security_reco.Workflow.Run.Readied.{Met}
use enterprise_security_reco.Workflow.Run.Stays.{Orderly, outcome_ids, wave-Outcomes}
use enterprise_security_reco.Workflow.Run.Recording.{
  outcome_ids-perm, plan_ids-perm, outcome_of_id, Recording, Pending, record_outcomes-Recording,
}
use enterprise_security_reco.Workflow.Run.Settled.{is_nil_outcome, Settled, record_outcomes-Settled}

share_among-ids : (n : ℕ) (plans : List StepPlan) → plan_ids (share_among n plans) ≡ plan_ids plans
share_among-ids n [] = refl
share_among-ids n (p ∷ plans) = ap (λ ids. p.definition.id ∷ ids) (share_among-ids n plans)

if-Goes :
    {A W : Type 0} (P : A → W → Type 0) (b : Bool) (p q : Progress A W)
    → Goes P p
    → Goes P q
    → Goes P (if b then p else q)
if-Goes P true p q h k = h
if-Goes P false p q h k = k

-- The step of the id is finished or blocked.
abbrev pub Closed : String → Standing → Type 0
Closed id at = Memᴰ id at.finished ⊎ Memᴰ id at.blocked

module _ {W : Type 0} (e : Engine W) (around : Surroundings W) (orderly : Orderly e around)
    (task : Task) (ordered : List Step) (ids : List String) where
  -- The standing after a wave, from the round before it.
  pub record After (r : Round) (id : String) (at : Standing) : Type 0 where
    pub finished : Finished ids at.state at.finished
    pub grown : Grown r.finished r.blocked at.finished at.blocked
    pub closed : Closed id at

  primary-After :
      (r : Round) (id : String) (rec : Recorded) (w : W) (primary : Option StepOutcome)
      → Recording e around orderly ids r.finished rec
      → Memᴰ id r.blocked ⊎ (Memᴰ id rec.finished ⊎ (is_nil_outcome primary ≡ false))
      → Goes (λ at w. After r id at) (after_primary e around r.blocked rec w primary)
  primary-After r id rec w (some o) h s = tt
  primary-After r id rec w none h s = record {
    finished = h.finished;
    grown = record { more_finished = h.grown; more_blocked = λ x p. p };
    closed = elim s [ inl b ↦ inr b | inr f ↦ elim f [ inl q ↦ inl q | inr no' ↦ cc ] ];
  }

  wave-After :
      (r : Round) (id : String) (p : Progress Recorded W)
      → Goes (λ rec w. Recording e around orderly ids r.finished rec) p
      → Goes (λ rec w. Memᴰ id r.blocked ⊎ Settled e around orderly ids r.finished id rec w) p
      → Goes (λ at w. After r id at) (after_wave e around r.blocked p)
  unfolding after_wave
  wave-After r id (ended ending w) h s = tt
  wave-After r id (going rec w) h s =
      elim (Bool-cases ((around.controls w).1 || not (is_nil_error (around.context_err w)))) [
        | inl over ↦ rw over tt
        | inr on ↦ rw on (
            primary-After r id rec w rec.primary h (elim s [
              | inl b ↦ inl b
              | inr q ↦ elim q [
                | inl f ↦ inr (inl f)
                | inr g ↦ elim g [
                  | inl failed' ↦ inr (inr failed')
                  | inr c ↦ elim (orderly.seen w c) [
                    | inl cancelled ↦ ground (arith, cancelled, on)
                    | inr expired ↦ ground (arith, expired, on)
                  ]
                ]
              ]
            ]))
      ]

  -- The step was met by the planning of the round.
  round-Closed :
      (r : Round) (id : String)
      → r.plans ≡ []
      → Met id r
      → Closed id (record { state = r.state; finished = r.finished; blocked = r.blocked })
  round-Closed r id none' (inl f) = inl f
  round-Closed r id none' (inr (inl b)) = inr b
  round-Closed r id none' (inr (inr p)) = elim (subst (λ w. Memᴰ id (plan_ids w)) none' p) [ ]

  -- The ids of the recorded outcomes are the ids of the plans, in another order.
  wave_ids :
      (r : Round) (w : W)
      → (let plans = share_among (length r.plans) r.plans in
          Permᴰ
            (outcome_ids (by_rank ordered (execute_wave e around task r.state.run.id plans w).0))
            (plan_ids r.plans))
  unfolding by_rank
  wave_ids r w =
      let plans = share_among (length r.plans) r.plans in
      let out = execute_wave e around task r.state.run.id plans w in
      Permᴰ.trans
        (outcome_ids-perm (
          sort-perm (λ a b. leb (rank_in ordered a.definition.id) (rank_in ordered b.definition.id))
            out.0))
        (subst (λ x. Permᴰ x (plan_ids r.plans))
          (sym (wave-Outcomes e around orderly task r.state.run.id plans w).ids)
          (subst (λ x. Permᴰ (plan_ids (around.arrival plans w)) x)
            (share_among-ids (length r.plans) r.plans) (plan_ids-perm (orderly.arrival plans w))))

  -- A wave of the round's plans, before its outcomes are recorded.
  wave-Pending :
      (r : Round) (fin blk : List String) (w : W)
      → Planned e around ids fin blk r
      → (let out =
            execute_wave e around task r.state.run.id (share_among (length r.plans) r.plans) w in
          Pending e around orderly ids r.finished
            (by_rank ordered out.0)
            (record { state = r.state; finished = r.finished; primary = none })
            out.1)
  unfolding by_rank
  wave-Pending r fin blk w p =
      let same = wave_ids r w in
      record {
        recording = record { finished = p.finished; grown = λ x q. q };
        distinct = Distinct-perm (perm_symm same) p.once;
        new = λ x m. p.apart x (mem_perm same m);
        known = λ x m. p.known x (mem_perm same m);
        excused = λ o m.
            (wave-Outcomes e around orderly task r.state.run.id
                (share_among (length r.plans) r.plans) w).excused
              o (mem_perm (sort-perm _ _) m);
      }

  abbrev wave_of : Round → W → List StepOutcome × W
  wave_of r w = execute_wave e around task r.state.run.id (share_among (length r.plans) r.plans) w

  abbrev recorded_of : Round → List StepOutcome × W → Progress Recorded W
  recorded_of r out =
      record_outcomes e around (by_rank ordered out.0)
        (going (record { state = r.state; finished = r.finished; primary = none }) out.1)

  wave-Recording :
      (r : Round) (fin blk : List String) (w : W)
      → Planned e around ids fin blk r
      → Goes (λ rec w'. Recording e around orderly ids r.finished rec) (recorded_of r (wave_of r w))
  wave-Recording r fin blk w p =
      record_outcomes-Recording e around orderly ids r.finished _ _ (wave-Pending r fin blk w p)

  -- The step that was met is blocked, or its outcome is settled.
  wave-Settled :
      (r : Round) (fin blk : List String) (id : String) (w : W)
      → Planned e around ids fin blk r
      → Met id r
      → Goes
          (λ rec w'. Memᴰ id r.blocked ⊎ Settled e around orderly ids r.finished id rec w')
          (recorded_of r (wave_of r w))
  wave-Settled r fin blk id w p (inl f) =
      Goes-map (recorded_of r (wave_of r w)) (λ rec w' h. inr (inl (h.grown id f)))
        (wave-Recording r fin blk w p)
  wave-Settled r fin blk id w p (inr (inl b)) =
      Goes-map (recorded_of r (wave_of r w)) (λ rec w' h. inl b) (wave-Recording r fin blk w p)
  wave-Settled r fin blk id w p (inr (inr m)) =
      let (o, listed, same) = outcome_of_id id _ (mem_perm (perm_symm (wave_ids r w)) m) in
      Goes-map (recorded_of r (wave_of r w))
        (λ rec w' h. inr (subst (λ x. Settled e around orderly ids r.finished x rec w') same h))
        (record_outcomes-Settled e around orderly ids r.finished o _ _ listed
          (wave-Pending r fin blk w p).excused)

  execute-After :
      (r : Round) (fin blk : List String) (id : String) (w : W) (plans : List StepPlan)
      → r.plans ≡ plans
      → Planned e around ids fin blk r
      → Met id r
      → Goes (λ at w. After r id at) (execute_plans e around task ordered r plans w)
  unfolding execute_plans
  execute-After r fin blk id w [] none' p m = record {
    finished = p.finished;
    grown = record { more_finished = λ x q. q; more_blocked = λ x q. q };
    closed = round-Closed r id none' m;
  }
  execute-After r fin blk id w (first ∷ plans) some' p m =
      subst
        (λ ps.
          Goes (λ at w'. After r id at)
            (after_wave e around r.blocked (
              recorded_of r
                (execute_wave e around task r.state.run.id (share_among (length ps) ps) w))))
        some'
        (wave-After r id (recorded_of r (wave_of r w)) (wave-Recording r fin blk w p)
          (wave-Settled r fin blk id w p m))

  saved-After :
      (r : Round) (fin blk : List String) (id : String) (out : Option Error × W)
      → Planned e around ids fin blk r
      → Met id r
      → Goes (λ at w. After r id at) (planned_save e around task ordered r out)
  saved-After r fin blk id (none, w) p m = execute-After r fin blk id w r.plans refl p m
  saved-After r fin blk id (some failure, w) p m = tt

  -- Once the ready steps are planned, the round leaves the step that it met finished or blocked.
  pub plans-After :
      (fin blk : List String) (id : String) (p : Progress Round W)
      → Goes (λ r w. Planned e around ids fin blk r) p
      → Goes (λ r w. Met id r) p
      → Goes
          (λ at w. (r : Round) × Planned e around ids fin blk r × After r id at)
          (after_plans e around task ordered p)
  unfolding after_plans
  plans-After fin blk id (ended ending w) p m = tt
  plans-After fin blk id (going r w) p m =
      if-Goes (λ at w. (r : Round) × Planned e around ids fin blk r × After r id at) r.changed
        (planned_save e around task ordered r (save e around r.state w))
        (execute_plans e around task ordered r r.plans w)
        (Goes-map (planned_save e around task ordered r (save e around r.state w))
          (λ at w' a. (r, p, a)) (saved-After r fin blk id (save e around r.state w) p m))
        (Goes-map (execute_plans e around task ordered r r.plans w) (λ at w' a. (r, p, a))
          (execute-After r fin blk id w r.plans refl p m))
