-- ===== src/Risk/Engine/Laws.antt =====
-- risk-engine.ts: the decision as a function of the facts.
use aegis_shield_phase.Prelude.{
  ℕ, suc, ◌≤◌, ◌≡◌, ◌↔◌, ◌≢◌, zero, ap, refl, Bool, true, false, ◌&&◌, ◌||◌, Option, none, some,
  List, [], ◌∷◌, arith, ltb, leb, if◌then◌else◌, length, min,
}
use aegis_shield_phase.Prelude.Int.{ℤ, ◌≤ℤ◌, leb_ℤ}
use aegis_shield_phase.Risk.Engine.{
  Band, low, critical, RiskDecision, allow, allow_with_monitoring, require_step_up, hold_for_review,
  block, quarantine, temporary_block, ControlType, rule, known_blocked_scope, active_block,
  RiskThresholds, RiskFacts, RiskInput, TriggeredRule, rules, matched, triggered_risk_rules,
  risk_band, total_weight, decide_band, decide_risk, evaluate_risk,
}

abbrev get_elem? {ℓ} : {A : Type ℓ} → List A → ℕ → Option A
get_elem? [] i = none
get_elem? (x ∷ xs) zero = some x
get_elem? (x ∷ xs) (suc i) = get_elem? xs i

abbrev Implies : Bool → Bool → Type 0
Implies a b = a ≡ true → b ≡ true

-- The same rules in the same order, each firing in the second list if it does in the first.
abbrev Below : List (Bool × TriggeredRule) → List (Bool × TriggeredRule) → Type 0
Below [] [] = Unit
Below ((b, r) ∷ rs) ((c, s) ∷ ss) = Implies b c × (r ≡ s) × Below rs ss
Below _ _ = ⊥

total_weight-Below :
    (rs ss : List (Bool × TriggeredRule))
    → Below rs ss
    → (total_weight (matched rs) ≤ total_weight (matched ss))
      × (length (matched rs) ≤ length (matched ss))
total_weight-Below [] [] h = (omega arith, omega arith)
total_weight-Below [] (s ∷ ss) h = absurd h
total_weight-Below (r ∷ rs) [] h = absurd h
total_weight-Below ((b, r) ∷ rs) ((c, s) ∷ ss) (i, e, h) =
    ground (arith, total_weight-Below rs ss h, i)

-- The second operation looks at least as risky as the first.
pub record IsRiskier (input input' : RiskInput) (facts facts' : RiskFacts) : Type 0 where
  pub amount : input.amount_minor ≤ℤ input'.amount_minor
  pub auth_failures : facts.auth_failures ≤ facts'.auth_failures
  pub request_velocity : facts.request_velocity ≤ facts'.request_velocity
  pub transfer_velocity : facts.transfer_velocity ≤ facts'.transfer_velocity
  pub cumulative : facts.cumulative_outgoing_minor ≤ℤ facts'.cumulative_outgoing_minor
  pub new_recipient : facts.new_recipient ≡ true → facts'.new_recipient ≡ true
  pub insufficient_funds : facts.insufficient_funds ≤ facts'.insufficient_funds
  pub conflicts : facts.idempotency_conflicts ≤ facts'.idempotency_conflicts
  pub linked : facts.linked_subjects_for_device ≤ facts'.linked_subjects_for_device
  pub region : facts.rapid_region_change ≡ true → facts'.rapid_region_change ≡ true
  pub integrity : facts.integrity_anomaly ≡ true → facts'.integrity_anomaly ≡ true
  pub internal_failures : facts.internal_auth_failures ≤ facts'.internal_auth_failures
  pub malformed : facts.csrf_malformed_failures ≤ facts'.csrf_malformed_failures
  pub blocked : facts.blocked_scope ≡ true → facts'.blocked_scope ≡ true
  pub incident : facts.active_incident ≡ true → facts'.active_incident ≡ true
  pub control : facts.active_control ≡ true → facts'.active_control ≡ true
  -- A verified step-up lowers the risk.
  pub verified : input'.step_up_verified ≡ true → input.step_up_verified ≡ true

leb_mono : (t a b : ℕ) → a ≤ b → Implies (leb t a) (leb t b)
leb_mono t a b h e = ground arith

ltb_mono : (t a b : ℕ) → a ≤ b → Implies (ltb t a) (ltb t b)
ltb_mono t a b h e = ground arith

leb_ℤ_mono : (t a b : ℤ) → a ≤ℤ b → Implies (leb_ℤ t a) (leb_ℤ t b)
leb_ℤ_mono t a b h e = ground arith

and_mono : (a b c d : Bool) → Implies a c → Implies b d → Implies (a && b) (c && d)
and_mono a b c d h k e = ground (arith, h, k)

or_mono : (a b c d : Bool) → Implies a c → Implies b d → Implies (a || b) (c || d)
or_mono a b c d h k e = ground (arith, h, k)

rules-Below :
    (input input' : RiskInput) (facts facts' : RiskFacts) (t : RiskThresholds)
    → IsRiskier input input' facts facts'
    → Below (rules input facts t) (rules input' facts' t)
unfolding rules
rules-Below input input' facts facts' t h =
    let amount = leb_ℤ_mono t.high_value_minor input.amount_minor input'.amount_minor h.amount in
    (
      leb_mono _ _ _ h.auth_failures,
      refl,
      (
        leb_mono _ _ _ h.request_velocity,
        refl,
        (
          leb_mono _ _ _ h.transfer_velocity,
          refl,
          (
            leb_ℤ_mono t.cumulative_outgoing_minor facts.cumulative_outgoing_minor
                facts'.cumulative_outgoing_minor h.cumulative,
            refl,
            (
              amount,
              refl,
              (
                and_mono _ _ _ _ amount h.new_recipient,
                refl,
                (
                  leb_mono _ _ _ h.insufficient_funds,
                  refl,
                  (
                    leb_mono _ _ _ h.conflicts,
                    refl,
                    (
                      leb_mono _ _ _ h.linked,
                      refl,
                      (
                        h.region,
                        refl,
                        (
                          h.integrity,
                          refl,
                          (
                            ltb_mono _ _ _ h.internal_failures,
                            refl,
                            (
                              leb_mono _ _ _ h.malformed,
                              refl,
                              (h.blocked, refl, (or_mono _ _ _ _ h.incident h.control, refl, tt)),
                            ),
                          ),
                        ),
                      ),
                    ),
                  ),
                ),
              ),
            ),
          ),
        ),
      ),
    )

-- How much a decision holds an operation back.
abbrev pub severity : RiskDecision → ℕ
severity allow = 0
severity allow_with_monitoring = 1
severity require_step_up = 2
severity hold_for_review = 3
severity quarantine = 4
severity block = 5

-- A higher score, or more rules, never lowers the severity below a blocked scope.
severity-decide_band :
    (x y : ℕ) (rs ss : List TriggeredRule) (v w : Bool)
    → x ≤ y
    → length rs ≤ length ss
    → Implies w v
    → severity (decide_band (risk_band x) v rs).0 ≤ severity (decide_band (risk_band y) w ss).0
unfolding risk_band
severity-decide_band x y rs ss v w h l i = ground (arith, i)

severity-decide_risk :
    (b c : Bool) (d e : RiskDecision × Option ControlType)
    → Implies b c
    → severity d.0 ≤ severity e.0
    → severity d.0 ≤ 4
    → severity (if b then (block, some temporary_block) else d).0
      ≤ severity (if c then (block, some temporary_block) else e).0
severity-decide_risk true true d e i h k = omega arith
severity-decide_risk true false d e i h k = absurd (cc (i refl))
severity-decide_risk false true d e i h k = omega arith
severity-decide_risk false false d e i h k = h

severity_le_4 :
    (b : Band) (rs : List TriggeredRule) (v : Bool) → severity (decide_band b v rs).0 ≤ 4
severity_le_4 low rs v = ground arith
severity_le_4 _ rs v = ground arith

-- An operation that looks at least as risky scores at least as high and is decided at least as
-- severely, for all thresholds.
pub evaluate_risk_mono :
    (input input' : RiskInput) (facts facts' : RiskFacts) (t : RiskThresholds)
    → IsRiskier input input' facts facts'
    → ((evaluate_risk input facts t).score ≤ (evaluate_risk input' facts' t).score)
      × (severity (evaluate_risk input facts t).decision
          ≤ severity (evaluate_risk input' facts' t).decision)
unfolding evaluate_risk
evaluate_risk_mono input input' facts facts' t h =
    let (w, l) =
      total_weight-Below (rules input facts t) (rules input' facts' t)
        (rules-Below input input' facts facts' t h) in
    let score : min 100 (total_weight (matched (rules input facts t)))
        ≤ min 100 (total_weight (matched (rules input' facts' t))) =
      omega arith in
    let band =
      severity-decide_band (min 100 (total_weight (matched (rules input facts t))))
        (min 100 (total_weight (matched (rules input' facts' t)))) (matched (rules input facts t))
        (matched (rules input' facts' t)) input.step_up_verified input'.step_up_verified score l
        h.verified in
    (
      score,
      severity-decide_risk facts.blocked_scope facts'.blocked_scope _ _ h.blocked band
          (severity_le_4 _ (matched (rules input facts t)) input.step_up_verified),
    )

-- A rule that fires is in the list, and its weight in the score.
fires :
    (k : ℕ) (rs : List (Bool × TriggeredRule)) (r : TriggeredRule)
    → get_elem? rs k ≡ some (true, r)
    → (r.weight ≤ total_weight (matched rs)) × (matched rs ≢ [])
fires k [] r h = absurd (ground arith)
fires zero ((b, s) ∷ rs) r h = ground arith
fires (suc k) ((b, s) ∷ rs) r h = ground (arith, fires k rs r h)

blocked_fires :
    (input : RiskInput) (facts : RiskFacts) (t : RiskThresholds)
    → facts.blocked_scope ≡ true
    → (100 ≤ total_weight (matched (rules input facts t))) × (matched (rules input facts t) ≢ [])
unfolding rules
blocked_fires input facts t h =
    fires 13 (rules input facts t) (rule known_blocked_scope active_block 100)
      (ap (λ b. some (b, rule known_blocked_scope active_block 100)) h)

-- A blocked scope is blocked with the temporary block, the full score and the critical band,
-- whatever else is known of the operation.
pub evaluate_risk_blocked :
    (input : RiskInput) (facts : RiskFacts) (t : RiskThresholds)
    → facts.blocked_scope ≡ true
    → ((evaluate_risk input facts t).decision ≡ block)
      × ((evaluate_risk input facts t).control_recommendation ≡ some temporary_block)
      × ((evaluate_risk input facts t).score ≡ 100)
      × ((evaluate_risk input facts t).band ≡ critical)
unfolding evaluate_risk
evaluate_risk_blocked input facts t h =
    let (w, _) = blocked_fires input facts t h in
    let full : min 100 (total_weight (matched (rules input facts t))) ≡ 100 = omega arith in
    (rw h refl, rw h refl, full, rw full refl)

allow_iff :
    (b : Bool) (rs : List TriggeredRule) (v : Bool)
    → (b ≡ true → rs ≢ [])
    → ((decide_risk b (risk_band (min 100 (total_weight rs))) v rs).0 ≡ allow) ↔ (rs ≡ [])
unfolding decide_risk risk_band
allow_iff true [] v h = absurd (h refl refl)
allow_iff true (r ∷ rs) v h = (λ e. absurd (cc), λ e. absurd (cc))
allow_iff false [] v h = (λ e. refl, λ e. refl)
allow_iff false (r ∷ rs) v h = (λ e. absurd (ground arith), λ e. absurd (cc))

-- An operation is allowed without monitoring exactly when no rule fires.
pub evaluate_risk_allows :
    (input : RiskInput) (facts : RiskFacts) (t : RiskThresholds)
    → ((evaluate_risk input facts t).decision ≡ allow) ↔ (triggered_risk_rules input facts t ≡ [])
unfolding evaluate_risk triggered_risk_rules
evaluate_risk_allows input facts t =
    allow_iff facts.blocked_scope (matched (rules input facts t)) input.step_up_verified
      (λ h. (blocked_fires input facts t h).1)
