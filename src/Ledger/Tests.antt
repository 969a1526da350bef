-- ===== src/Ledger/Tests.antt =====
-- Runs of the Ledger service on the small books, and the theorems at these inputs.
use aegis_shield_phase.Prelude.{◌≡◌, ◌⊎◌, ◌≤◌, refl, true, [], ◌∷◌, arith, ok, length}
use aegis_shield_phase.Prelude.Int.{pos, negsuc, ◌+ℤ◌, ◌≤ℤ◌}
use aegis_shield_phase.Ledger.Schema.{debit, credit, idempotency_conflict_error}
use aegis_shield_phase.Ledger.Money.{parse_minor_units, serialize_minor_units, apply_direction}
use aegis_shield_phase.Ledger.Money.RoundTrip.{parse_minor_units-serialize_minor_units}
use aegis_shield_phase.Ledger.Journal.{assert_balanced, deterministic_account_order}
use aegis_shield_phase.Ledger.Journal.Order.{IsAscending, order-IsAscending, order_same_accounts}
use aegis_shield_phase.Ledger.Journal.Checks.{AllPositive, assert_balanced_sound}
use aegis_shield_phase.Ledger.Journal.Effect.{total}
use aegis_shield_phase.Ledger.Idempotency.{execute, replay_if_settled, replay_found}
use aegis_shield_phase.Ledger.Idempotency.Once.{execute_failed, execute_race, execute_again}
use aegis_shield_phase.Ledger.Books.{books, call, lines, seven, earlier, with_record, race_env}

parse_minor_units-serialize_minor_units_example :
    parse_minor_units (serialize_minor_units (negsuc 249)) ≡ ok (negsuc 249)
parse_minor_units-serialize_minor_units_example =
    parse_minor_units-serialize_minor_units (negsuc 249) (omega arith) (omega arith)

order-IsAscending_example : IsAscending (deterministic_account_order (13 ∷ 11 ∷ 13 ∷ []))
order-IsAscending_example = order-IsAscending (13 ∷ 11 ∷ 13 ∷ [])

order_same_accounts_example :
    deterministic_account_order (13 ∷ 11 ∷ 13 ∷ []) ≡ deterministic_account_order (11 ∷ 13 ∷ [])
order_same_accounts_example =
    order_same_accounts (13 ∷ 11 ∷ 13 ∷ []) (11 ∷ 13 ∷ []) (λ a. ground arith)

assert_balanced_sound_example :
    (2 ≤ length lines)
    × AllPositive lines
    × (pos 1 ≤ℤ pos 250)
    × (total debit lines ≡ pos 250)
    × (total credit lines ≡ pos 250)
unfolding assert_balanced ◌+ℤ◌ apply_direction
assert_balanced_sound_example = assert_balanced_sound lines refl

execute_failed_example : (with_record 45 ≡ with_record 45) ⊎ (with_record 45 ≡ with_record 44)
unfolding execute replay_if_settled replay_found
execute_failed_example =
    execute_failed seven race_env (with_record 45) {e = idempotency_conflict_error} refl

execute_race_example :
    execute seven race_env books ≡ (ok (record { result = 7; replayed = true }), with_record 44)
execute_race_example =
    execute_race seven race_env books (earlier 44) _ refl refl refl refl refl refl

execute_again_example :
    execute seven race_env (execute seven call.execute_env books).1
    ≡ (ok (record { result = 7; replayed = true }), (execute seven call.execute_env books).1)
unfolding execute
execute_again_example =
    execute_again seven seven.run call.execute_env race_env books (λ b a v e. ground arith)
      (λ v. refl) refl
