-- ===== src/Risk/Tests.antt =====
-- The theorems on the scoring at concrete facts.
use aegis_shield_phase.Prelude.{◌≡◌, ◌≤◌, ◌↔◌, refl, true, false, some, [], arith}
use aegis_shield_phase.Prelude.Int.{pos}
use aegis_shield_phase.Risk.Engine.{
  RiskFacts, RiskInput, default_thresholds, evaluate_risk, triggered_risk_rules, allow, block,
  critical, temporary_block,
}
use aegis_shield_phase.Risk.Engine.Laws.{
  IsRiskier, severity, evaluate_risk_mono, evaluate_risk_blocked, evaluate_risk_allows,
}

abbrev quiet : RiskFacts
quiet = record {
  auth_failures = 0;
  request_velocity = 3;
  transfer_velocity = 1;
  cumulative_outgoing_minor = pos 2000;
  new_recipient = false;
  insufficient_funds = 0;
  idempotency_conflicts = 0;
  linked_subjects_for_device = 1;
  rapid_region_change = false;
  integrity_anomaly = false;
  internal_auth_failures = 0;
  csrf_malformed_failures = 0;
  blocked_scope = false;
  active_incident = false;
  active_control = false;
}

abbrev noisy : RiskFacts
noisy = record quiet { auth_failures = 6; transfer_velocity = 7; new_recipient = true }

abbrev small : RiskInput
small = record { amount_minor = pos 500; step_up_verified = false }

abbrev large : RiskInput
large = record small { amount_minor = pos 20000000 }

large-IsRiskier : IsRiskier small large quiet noisy
large-IsRiskier = record {
  amount = omega arith;
  auth_failures = omega arith;
  request_velocity = omega arith;
  transfer_velocity = omega arith;
  cumulative = omega arith;
  new_recipient = λ e. refl;
  insufficient_funds = omega arith;
  conflicts = omega arith;
  linked = omega arith;
  region = λ e. e;
  integrity = λ e. e;
  internal_failures = omega arith;
  malformed = omega arith;
  blocked = λ e. e;
  incident = λ e. e;
  control = λ e. e;
  verified = λ e. e;
}

evaluate_risk_mono_example :
    ((evaluate_risk small quiet default_thresholds).score
      ≤ (evaluate_risk large noisy default_thresholds).score)
    × (severity (evaluate_risk small quiet default_thresholds).decision
        ≤ severity (evaluate_risk large noisy default_thresholds).decision)
evaluate_risk_mono_example =
    evaluate_risk_mono small large quiet noisy default_thresholds large-IsRiskier

evaluate_risk_blocked_example :
    ((evaluate_risk small (record quiet { blocked_scope = true }) default_thresholds).decision
      ≡ block)
    × ((evaluate_risk small
          (record quiet { blocked_scope = true })
          default_thresholds).control_recommendation
        ≡ some temporary_block)
    × ((evaluate_risk small (record quiet { blocked_scope = true }) default_thresholds).score ≡ 100)
    × ((evaluate_risk small (record quiet { blocked_scope = true }) default_thresholds).band
        ≡ critical)
evaluate_risk_blocked_example =
    evaluate_risk_blocked small (record quiet { blocked_scope = true }) default_thresholds refl

evaluate_risk_allows_example :
    ((evaluate_risk large noisy default_thresholds).decision ≡ allow)
    ↔ (triggered_risk_rules large noisy default_thresholds ≡ [])
evaluate_risk_allows_example = evaluate_risk_allows large noisy default_thresholds
