-- ===== src/Assets/FullRuns.antt =====
-- internal/assets/changes.go: when `Compare` takes a capability for covered.
use enterprise_security_reco.Prelude.{
  String, ◌≡◌, ◌≢◌, refl, sym, ◌∙◌, ap, Bool, true, false, Bool-cases, inl, inr, ◌⊎◌, Option, none,
  some, List, [], ◌∷◌, ◌++◌, Memᴰ, ◌==◌, eq_iff, lookup, insert, lookup-insert, ◌&&◌, arith,
}
use enterprise_security_reco.Assets.{Coverage, cover_from, is_covered}

-- The last run of the capability was successful and complete.
pub record FullRun (coverage : List Coverage) (capability : String) : Type 0 where
  pub run : Coverage
  pub earlier : List Coverage
  pub later : List Coverage
  pub listed : coverage ≡ earlier ++ run ∷ later
  pub same : run.capability ≡ capability
  pub successful : run.successful ≡ true
  pub complete : run.complete ≡ true
  pub last : (c : Coverage) → Memᴰ c later → c.capability ≢ capability

later-FullRun :
    (c : Coverage) (coverage : List Coverage) (capability : String)
    → FullRun coverage capability
    → FullRun (c ∷ coverage) capability
later-FullRun c coverage capability h = record {
  run = h.run;
  earlier = c ∷ h.earlier;
  later = h.later;
  listed = ap (λ cs. c ∷ cs) h.listed;
  same = h.same;
  successful = h.successful;
  complete = h.complete;
  last = h.last;
}

cover_from-FullRun :
    (coverage : List Coverage) (m : List (String × Bool)) (capability : String)
    → lookup capability (cover_from m coverage) ≡ some true
    → FullRun coverage capability
      ⊎ ((lookup capability m ≡ some true)
          × ((c : Coverage) → Memᴰ c coverage → c.capability ≢ capability))
unfolding cover_from
cover_from-FullRun [] m capability h = inr (h, λ c p. elim p [ ])
cover_from-FullRun (c ∷ coverage) m capability h =
    elim (cover_from-FullRun coverage (insert c.capability (c.successful && c.complete) m)
      capability h) [
        | inl found ↦ inl (later-FullRun c coverage capability found)
        | inr (now, free) ↦
            let computed =
              sym (lookup-insert capability c.capability (c.successful && c.complete) m) ∙ now in
            elim (Bool-cases (c.capability == capability)) [
              | inl same ↦
                  let ran : some (c.successful && c.complete) ≡ some true = rw same at computed in
                  inl (record {
                    run = c;
                    earlier = [];
                    later = coverage;
                    listed = refl;
                    same = (eq_iff c.capability capability).0 same;
                    successful = ground arith;
                    complete = ground arith;
                    last = free;
                  })
              | inr differ ↦ inr (
                rw differ at computed,
                λ d p. elim p [
                  | Memᴰ.head e ↦ λ q.
                      let same =
                        (eq_iff c.capability capability).1
                          (ap (λ (x : Coverage). x.capability) (sym e) ∙ q) in
                      cc
                  | Memᴰ.tail r ↦ free d r
                ],
              )
            ]
      ]

covered_value : (o : Option Bool) → elim o [ none ↦ false | some b ↦ b ] ≡ true → o ≡ some true
covered_value none h = cc
covered_value (some b) h = ap some h

not_nothing : {b : Bool} → none ≡ some b → ⊥
not_nothing h = cc

pub is_covered-FullRun :
    (coverage : List Coverage) (capability : String)
    → is_covered coverage capability ≡ true
    → FullRun coverage capability
unfolding is_covered lookup
is_covered-FullRun coverage capability h =
    elim (cover_from-FullRun coverage [] capability (covered_value _ h)) [
      | inl found ↦ found
      | inr (now, free) ↦ absurd (not_nothing now)
    ]
