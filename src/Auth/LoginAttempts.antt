-- ===== src/Auth/LoginAttempts.antt =====
-- apps/auth/src/app/auth/password/login-attempt.service.ts: the keys of Redis that a request reads
-- and writes, those of its address with its e-mail and those of its address alone.
pub mod Limits
use backend.Prelude.{
  ℕ, ◌+◌, ◌-◌, ◌/◌, ◌≤◌, Bool, true, false, Option, none, some, ◌==◌, ltb, leb, max, if◌then◌else◌,
}

-- A key's number and the time at which the key goes.
pub record Entry : Type 0 where
  pub count : ℕ
  pub expires_at : ℕ

pub record Keys : Type 0 where
  pub pair_attempts : Option Entry
  pub pair_block : Option Entry
  pub ip_attempts : Option Entry
  pub ip_block : Option Entry

abbrev pub max_pair_failures : ℕ
max_pair_failures = 5

abbrev pub max_ip_failures : ℕ
max_ip_failures = 25

abbrev pub captcha_pair_failures : ℕ
captcha_pair_failures = 3

-- `ATTEMPT_WINDOW_MS` and `BLOCK_DURATION_MS`: 15 minutes.
abbrev pub window_ms : ℕ
window_ms = 900000

-- The number of a key, 0 where there is no key any more.
abbrev pub get : ℕ → Option Entry → ℕ
get now none = 0
get now (some e) = if ltb now e.expires_at then e.count else 0

-- What is left of a key's time, 0 where Redis answers a negative number.
abbrev pub p_ttl : ℕ → Option Entry → ℕ
p_ttl now none = 0
p_ttl now (some e) = e.expires_at - now

-- `INCR`, and `PEXPIRE` for a key that is new.
unfoldable pub increment : ℕ → Option Entry → Entry
increment now key = elim key [
  | none ↦ record { count = 1; expires_at = now + window_ms }
  | some e ↦
      if ltb now e.expires_at
      then record { count = e.count + 1; expires_at = e.expires_at }
      else record { count = 1; expires_at = now + window_ms }
]

-- The block of a key that has come to the limit, or the block that was there.
unfoldable pub block : ℕ → ℕ → Entry → Option Entry → Option Entry
block limit now e old =
    if leb limit e.count then some (record { count = 1; expires_at = now + window_ms }) else old

-- `RECORD_FAILURE_SCRIPT`
unfoldable pub record_failure : ℕ → Keys → Keys
unfolding increment block
record_failure now k =
    let pair = increment now k.pair_attempts in
    let ip = increment now k.ip_attempts in
    record {
      pair_attempts = some pair;
      pair_block = block max_pair_failures now pair k.pair_block;
      ip_attempts = some ip;
      ip_block = block max_ip_failures now ip k.ip_block;
    }

-- The same script for another e-mail from the address, as far as these keys go.
unfoldable pub record_other_failure : ℕ → Keys → Keys
unfolding increment block
record_other_failure now k =
    let ip = increment now k.ip_attempts in
    record k { ip_attempts = some ip; ip_block = block max_ip_failures now ip k.ip_block }

-- The seconds of the error that `assertAllowed` throws, if it throws.
unfoldable pub assert_allowed : ℕ → Keys → Option ℕ
assert_allowed now k =
    let retry_after_ms = max (p_ttl now k.pair_block) (p_ttl now k.ip_block) in
    if ltb 0 retry_after_ms then some ((retry_after_ms + 999) / 1000) else none

unfoldable pub is_captcha_required : ℕ → Keys → Bool
is_captcha_required now k = leb captcha_pair_failures (get now k.pair_attempts)

-- `clear`
unfoldable pub clear : Keys → Keys
clear k = record k { pair_attempts = none; pair_block = none }

-- The keys at a time, after the calls of requests of the address at times that do not go back.
pub data Reach : ℕ → Keys → Type 0 where
  starts :
      (now : ℕ)
      → Reach now
          (record { pair_attempts = none; pair_block = none; ip_attempts = none; ip_block = none })
  waits : {then' : ℕ} {k : Keys} (now : ℕ) → then' ≤ now → Reach then' k → Reach now k
  fails : {now : ℕ} {k : Keys} → Reach now k → Reach now (record_failure now k)
  fails_other : {now : ℕ} {k : Keys} → Reach now k → Reach now (record_other_failure now k)
  clears : {now : ℕ} {k : Keys} → Reach now k → Reach now (clear k)
