-- ===== src/Risk/Engine.antt =====
-- services/risk/src/assessments/risk-engine.ts: the rules, the score, the decision.
-- Codes and reason codes are one enumeration each; the four explanations are an enumeration too.
pub mod Laws
use aegis_shield_phase.Prelude.{
  ℕ, ◌+◌, Bool, true, false, not, ◌&&◌, ◌||◌, Option, none, some, List, [], ◌∷◌, map, ltb, leb,
  ◌==◌, if◌then◌else◌, length, min,
}
use aegis_shield_phase.Prelude.Int.{ℤ, pos, leb_ℤ}

pub data RuleCode : Type 0 where
  auth_failure_burst request_velocity_rule transfer_velocity_rule cumulative_outgoing : RuleCode
  high_value new_recipient_high_value insufficient_funds_burst replay_pattern : RuleCode
  shared_device_cluster rapid_region_change_rule integrity_anomaly_rule : RuleCode
  internal_auth_failure sensitive_request_failures known_blocked_scope : RuleCode
  existing_risk_state : RuleCode

pub data ReasonCode : Type 0 where
  repeated_auth_failures suspicious_request_velocity high_transfer_velocity : ReasonCode
  high_cumulative_value high_value_transfer new_recipient_high_value_reason : ReasonCode
  repeated_insufficient_funds replay_like_behaviour suspicious_device_cluster : ReasonCode
  rapid_region_change_reason integrity_anomaly_reason : ReasonCode
  internal_authentication_failure repeated_invalid_requests active_block : ReasonCode
  active_incident_or_control : ReasonCode

pub data Band : Type 0 where
  low medium high critical : Band

pub data RiskDecision : Type 0 where
  allow allow_with_monitoring require_step_up hold_for_review block quarantine : RiskDecision

pub data ControlType : Type 0 where
  require_step_up_control transfer_hold temporary_block quarantine_control : ControlType

pub data Explanation : Type 0 where
  no_verification monitored identity_required under_review : Explanation

pub record RiskThresholds : Type 0 where
  pub auth_failures : ℕ
  pub request_velocity : ℕ
  pub transfer_velocity : ℕ
  pub cumulative_outgoing_minor : ℤ
  pub high_value_minor : ℤ
  pub insufficient_funds : ℕ
  pub idempotency_conflicts : ℕ
  pub linked_subjects_per_device : ℕ
  pub csrf_malformed : ℕ

abbrev pub default_thresholds : RiskThresholds
default_thresholds = record {
  auth_failures = 5;
  request_velocity = 60;
  transfer_velocity = 5;
  cumulative_outgoing_minor = pos 25000000;
  high_value_minor = pos 10000000;
  insufficient_funds = 3;
  idempotency_conflicts = 2;
  linked_subjects_per_device = 3;
  csrf_malformed = 5;
}

pub record RiskFacts : Type 0 where
  pub auth_failures : ℕ
  pub request_velocity : ℕ
  pub transfer_velocity : ℕ
  pub cumulative_outgoing_minor : ℤ
  pub new_recipient : Bool
  pub insufficient_funds : ℕ
  pub idempotency_conflicts : ℕ
  pub linked_subjects_for_device : ℕ
  pub rapid_region_change : Bool
  pub integrity_anomaly : Bool
  pub internal_auth_failures : ℕ
  pub csrf_malformed_failures : ℕ
  pub blocked_scope : Bool
  pub active_incident : Bool
  pub active_control : Bool

-- What the engine reads of the request: `BigInt(input.amountMinor || '0')` and the step-up.
pub record RiskInput : Type 0 where
  pub amount_minor : ℤ
  pub step_up_verified : Bool

pub record TriggeredRule : Type 0 where
  pub code : RuleCode
  pub reason_code : ReasonCode
  pub weight : ℕ

pub record EngineResult : Type 0 where
  pub score : ℕ
  pub band : Band
  pub decision : RiskDecision
  pub triggered_rules : List RuleCode
  pub reason_codes : List ReasonCode
  pub control_recommendation : Option ControlType
  pub public_explanation : Explanation

abbrev pub rule : RuleCode → ReasonCode → ℕ → TriggeredRule
rule code reason_code weight = record { code = code; reason_code = reason_code; weight = weight }

-- The table of conditions and rules.
unfoldable pub rules : RiskInput → RiskFacts → RiskThresholds → List (Bool × TriggeredRule)
rules input facts thresholds =
    (
      leb thresholds.auth_failures facts.auth_failures,
      rule auth_failure_burst repeated_auth_failures 25,
    )
    ∷ (
      leb thresholds.request_velocity facts.request_velocity,
      rule request_velocity_rule suspicious_request_velocity 20,
    )
    ∷ (
      leb thresholds.transfer_velocity facts.transfer_velocity,
      rule transfer_velocity_rule high_transfer_velocity 25,
    )
    ∷ (
      leb_ℤ thresholds.cumulative_outgoing_minor facts.cumulative_outgoing_minor,
      rule cumulative_outgoing high_cumulative_value 25,
    )
    ∷ (leb_ℤ thresholds.high_value_minor input.amount_minor, rule high_value high_value_transfer 20)
    ∷ (
      leb_ℤ thresholds.high_value_minor input.amount_minor && facts.new_recipient,
      rule new_recipient_high_value new_recipient_high_value_reason 30,
    )
    ∷ (
      leb thresholds.insufficient_funds facts.insufficient_funds,
      rule insufficient_funds_burst repeated_insufficient_funds 15,
    )
    ∷ (
      leb thresholds.idempotency_conflicts facts.idempotency_conflicts,
      rule replay_pattern replay_like_behaviour 35,
    )
    ∷ (
      leb thresholds.linked_subjects_per_device facts.linked_subjects_for_device,
      rule shared_device_cluster suspicious_device_cluster 25,
    )
    ∷ (facts.rapid_region_change, rule rapid_region_change_rule rapid_region_change_reason 15)
    ∷ (facts.integrity_anomaly, rule integrity_anomaly_rule integrity_anomaly_reason 60)
    ∷ (
      ltb 0 facts.internal_auth_failures,
      rule internal_auth_failure internal_authentication_failure 50,
    )
    ∷ (
      leb thresholds.csrf_malformed facts.csrf_malformed_failures,
      rule sensitive_request_failures repeated_invalid_requests 20,
    )
    ∷ (facts.blocked_scope, rule known_blocked_scope active_block 100)
    ∷ (
      facts.active_incident || facts.active_control,
      rule existing_risk_state active_incident_or_control 50,
    )
    ∷ []

-- `rules.filter(([matched]) => matched).map(([, rule]) => rule)`
abbrev pub matched : List (Bool × TriggeredRule) → List TriggeredRule
matched [] = []
matched ((b, r) ∷ rs) = let rest = matched rs in if b then r ∷ rest else rest

unfoldable pub triggered_risk_rules : RiskInput → RiskFacts → RiskThresholds → List TriggeredRule
unfolding rules
triggered_risk_rules input facts thresholds = matched (rules input facts thresholds)

unfoldable pub risk_band : ℕ → Band
risk_band score =
    if leb 75 score
    then critical
    else if leb 50 score
    then high
    else if leb 25 score
    then medium
    else low

abbrev pub total_weight : List TriggeredRule → ℕ
total_weight [] = 0
total_weight (r ∷ rs) = r.weight + total_weight rs

-- The branches of the decision below the blocked scope.
abbrev pub decide_band : Band → Bool → List TriggeredRule → RiskDecision × Option ControlType
decide_band critical verified triggered = (quarantine, some quarantine_control)
decide_band high verified triggered = (hold_for_review, some transfer_hold)
decide_band medium verified triggered =
    if not verified
    then (require_step_up, some require_step_up_control)
    else (allow_with_monitoring, none)
decide_band low verified triggered =
    if ltb 0 (length triggered) then (allow_with_monitoring, none) else (allow, none)

-- The decision and the recommended control.
unfoldable pub decide_risk :
    Bool → Band → Bool → List TriggeredRule → RiskDecision × Option ControlType
decide_risk blocked band verified triggered =
    let below = decide_band band verified triggered in
    if blocked then (block, some temporary_block) else below

abbrev pub explain : RiskDecision → Explanation
explain allow = no_verification
explain allow_with_monitoring = monitored
explain require_step_up = identity_required
explain _ = under_review

unfoldable pub evaluate_risk : RiskInput → RiskFacts → RiskThresholds → EngineResult
unfolding triggered_risk_rules risk_band decide_risk
evaluate_risk input facts thresholds =
    let triggered = triggered_risk_rules input facts thresholds in
    let score = min 100 (total_weight triggered) in
    let band = risk_band score in
    let chosen = decide_risk facts.blocked_scope band input.step_up_verified triggered in
    record {
      score = score;
      band = band;
      decision = chosen.0;
      triggered_rules = map (λ (r : TriggeredRule). r.code) triggered;
      reason_codes = map (λ (r : TriggeredRule). r.reason_code) triggered;
      control_recommendation = chosen.1;
      public_explanation = explain chosen.0;
    }
