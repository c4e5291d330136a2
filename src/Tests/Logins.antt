-- ===== src/Tests/Logins.antt =====
-- Five failures of one address with one e-mail, and a wait of ten minutes.
use backend.Prelude.{◌≡◌, ◌≤◌, refl, none, some, arith}
use backend.Auth.LoginAttempts.{
  Keys, get, increment, block, record_failure, assert_allowed, Reach, starts, waits, fails,
}
use backend.Auth.LoginAttempts.Limits.{assert_allowed-limits, assert_allowed-retry_after}

abbrev no_keys : Keys
no_keys = record { pair_attempts = none; pair_block = none; ip_attempts = none; ip_block = none }

abbrev four_failures : Keys
four_failures =
    record_failure 1000 (record_failure 1000 (record_failure 1000 (record_failure 1000 no_keys)))

four_failures-Reach : Reach 1000 four_failures
four_failures-Reach = fails (fails (fails (fails (starts 1000))))

four_allowed : assert_allowed 1000 four_failures ≡ none
unfolding assert_allowed record_failure increment block
four_allowed = refl

assert_allowed-limits_example :
    (get 1000 four_failures.pair_attempts ≤ 4) × (get 1000 four_failures.ip_attempts ≤ 24)
assert_allowed-limits_example =
    assert_allowed-limits 1000 four_failures four_failures-Reach four_allowed

abbrev five_failures : Keys
five_failures = record_failure 1000 four_failures

five_failures-Reach : Reach 601000 five_failures
five_failures-Reach = waits 601000 (omega arith) (fails four_failures-Reach)

five_refused : assert_allowed 601000 five_failures ≡ some 300
unfolding assert_allowed record_failure increment block
five_refused = refl

assert_allowed-retry_after_example : (1 ≤ 300) × (300 ≤ 900)
assert_allowed-retry_after_example =
    assert_allowed-retry_after 601000 300 five_failures five_failures-Reach five_refused
