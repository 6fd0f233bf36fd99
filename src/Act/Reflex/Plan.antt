-- ===== src/Act/Reflex/Plan.antt =====
-- The decisions of a hold tick (src/steadystate/act/reflex.py).
use steadystate_ai.Prelude.{
  ℕ, ◌≤◌, ◌<◌, ◌≡◌, ◌↔◌, refl, inl, inr, Bool, true, false, ◌&&◌, Option, none, some, List, [], ◌∷◌,
  String, str_eq, eq_iff, arith, keep, map, length, ltb, ap, ◌∙◌, Bool-cases,
}
use steadystate_ai.Model.{Symptom}
use steadystate_ai.Act.Bounds.{BoundPolicy, within_bounds}
use steadystate_ai.Act.Catalog.{Unicode}
use steadystate_ai.Act.Reflex.{
  Reflex, ReflexDecision, act, auto, is_act, by_category, action_size, matched, judge, decide,
  symptoms_of, is_actionable, plan_hold,
}

module _ (u : Unicode) (sha256 : String → String) (policy : BoundPolicy) (recurrence : String → ℕ)
    (actionable : List Symptom) (active : List Reflex) where
  -- All that acting on a malfunction without a human asks for.
  pub record Autonomous (s : Symptom) : Type 0 where
    pub reflex : Reflex
    pub answers : by_category active s.category ≡ some reflex
    pub promoted : reflex.autonomy ≡ auto
    pub small : action_size u.digit s.evidence ≤ reflex.max_per_action
    pub few : matched u sha256 actionable s.category ≤ reflex.max_per_tick
    pub trusted : recurrence reflex.name < reflex.distrust_after
    pub in_bound : within_bounds reflex.envelope policy ≡ true

  judge-act :
      (s : Symptom) (o : Option Reflex)
      → by_category active s.category ≡ o
      → (judge u sha256 policy recurrence actionable s o).0 ≡ act
      → Autonomous s
  judge-act s none f h = absurd (cc)
  judge-act s (some r) f h = record {
    reflex = r;
    answers = f;
    promoted = ground (arith, h);
    small = ground (arith, h);
    few = ground (arith, h);
    trusted = ground (arith, h);
    in_bound = ground (arith, h);
  }

  act-judge :
      (s : Symptom)
      → Autonomous s
      → (judge u sha256 policy recurrence actionable s (by_category active s.category)).0 ≡ act
  act-judge s a = ground (arith, a.answers, a.promoted, a.small, a.few, a.trusted, a.in_bound)

  -- A malfunction is acted on exactly when its category has a reflex that is promoted to `auto`,
  -- the finding and the tick are within its blast radius, its fixes hold, and its envelope is within
  -- the bound.
  pub decide-act_iff :
      (s : Symptom)
      → ((decide u sha256 policy recurrence actionable active s).decision ≡ act) ↔ Autonomous s
  unfolding decide
  decide-act_iff s = (judge-act s (by_category active s.category) refl, act-judge s)

  storm_at : (category : String) → ReflexDecision → Bool
  storm_at category d = is_act d.decision && str_eq d.category category

  quiet :
      (category : String) (r : Reflex) (s : Symptom)
      → by_category active category ≡ some r
      → ltb r.max_per_tick (matched u sha256 actionable category) ≡ true
      → storm_at category (decide u sha256 policy recurrence actionable active s) ≡ false
  unfolding decide storm_at
  quiet category r s f h = elim (Bool-cases (str_eq s.category category)) [
    | inl e ↦
        let q : s.category ≡ category = (eq_iff s.category category).0 e in
        ground (arith, h, e, ap (by_category active) q ∙ f, ap (matched u sha256 actionable) q)
    | inr e ↦ ground (arith, e)
  ]

  none_act :
      (category : String) (r : Reflex) (xs : List Symptom)
      → by_category active category ≡ some r
      → ltb r.max_per_tick (matched u sha256 actionable category) ≡ true
      → length
          (keep (storm_at category) (map (decide u sha256 policy recurrence actionable active) xs))
        ≡ 0
  none_act category r [] f h = refl
  none_act category r (s ∷ xs) f h = rw (quiet category r s f h) (none_act category r xs f h)

  acts_le :
      (category : String) (xs : List Symptom)
      → length
          (keep (storm_at category) (map (decide u sha256 policy recurrence actionable active) xs))
        ≤ matched u sha256 xs category
  unfolding storm_at decide
  acts_le category [] = omega arith
  acts_le category (s ∷ xs) =
      elim (Bool-cases
        (storm_at category (decide u sha256 policy recurrence actionable active s))) [
          | inl e ↦ ground (arith, e, acts_le category xs)
          | inr e ↦ ground (arith, e, acts_le category xs)
        ]

-- The storm guard: a tick acts on at most as many malfunctions of a category as its reflex allows.
pub plan_hold-storm :
    (u : Unicode) (sha256 : String → String) (alerts : List (List Symptom)) (active : List Reflex)
    (recurrence : String → ℕ) (policy : BoundPolicy) (category : String) (r : Reflex)
    → by_category active category ≡ some r
    → length (
        keep
          (λ d. is_act d.decision && str_eq d.category category)
          (plan_hold u sha256 alerts active recurrence policy))
      ≤ r.max_per_tick
unfolding plan_hold storm_at
plan_hold-storm u sha256 alerts active recurrence policy category r f =
    let xs = keep (is_actionable u sha256) (symptoms_of alerts) in
    elim (Bool-cases (ltb r.max_per_tick (matched u sha256 xs category))) [
      | inl e ↦ ground (arith, none_act u sha256 policy recurrence xs active category r xs f e)
      | inr e ↦ ground (arith, e, acts_le u sha256 policy recurrence xs active category xs)
    ]
