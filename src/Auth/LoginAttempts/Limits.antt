-- ===== src/Auth/LoginAttempts/Limits.antt =====
-- How many failures the limits let through.
use backend.Prelude.{ℕ, ◌+◌, ◌-◌, ◌≤◌, ◌<◌, ◌≡◌, refl, Option, none, some, arith}
use backend.Auth.LoginAttempts.{
  Entry, Keys, max_pair_failures, max_ip_failures, window_ms, get, p_ttl, increment, block,
  record_failure, record_other_failure, assert_allowed, clear, Reach, starts, waits, fails,
  fails_other, clears,
}

-- Attempts that have come to the limit are blocked at least as long as they are counted.
record IsGuarded (limit now : ℕ) (attempts blocked : Option Entry) : Type 0 where
  short_lived : (e : Entry) → attempts ≡ some e → e.expires_at ≤ now + window_ms
  guarded :
      (e : Entry) → attempts ≡ some e → limit ≤ e.count → e.expires_at - now ≤ p_ttl now blocked
  block_short : p_ttl now blocked ≤ window_ms

increment-IsGuarded :
    (limit now : ℕ) (attempts blocked : Option Entry)
    → 2 ≤ limit
    → IsGuarded limit now attempts blocked
    → let e = increment now attempts in IsGuarded limit now (some e) (block limit now e blocked)
unfolding increment block
increment-IsGuarded limit now none blocked two i = record {
  short_lived = λ e h. ground (arith, h);
  guarded = λ e h k. ground (arith, h, k, two);
  block_short = ground (arith, i.block_short, two);
}
increment-IsGuarded limit now (some a) blocked two i =
    let s = i.short_lived a refl in
    let g = i.guarded a refl in
    record {
      short_lived = λ e h. ground (arith, h, s);
      guarded = λ e h k. ground (arith, h, k, two, s, g);
      block_short = ground (arith, i.block_short);
    }

waits-IsGuarded :
    (limit before now : ℕ) (attempts blocked : Option Entry)
    → before ≤ now
    → IsGuarded limit before attempts blocked
    → IsGuarded limit now attempts blocked
waits-IsGuarded limit before now attempts blocked later i = record {
  short_lived = λ e h. let s = i.short_lived e h in omega (arith, s, later);
  guarded = λ e h k. let g = i.guarded e h k in ground (arith, g, later);
  block_short = ground (arith, i.block_short, later);
}

none-IsGuarded : (limit now : ℕ) → IsGuarded limit now none none
none-IsGuarded limit now = record {
  short_lived = λ e h. absurd (cc);
  guarded = λ e h. absurd (cc);
  block_short = omega arith;
}

Reach-IsGuarded :
    (now : ℕ) (k : Keys)
    → Reach now k
    → IsGuarded max_pair_failures now k.pair_attempts k.pair_block
      × IsGuarded max_ip_failures now k.ip_attempts k.ip_block
unfolding record_failure record_other_failure clear
Reach-IsGuarded now k (starts _) = (none-IsGuarded 5 now, none-IsGuarded 25 now)
Reach-IsGuarded now k (waits {then' = before} _ later r) =
    let (pair, ip) = Reach-IsGuarded before k r in
    (
      waits-IsGuarded 5 before now k.pair_attempts k.pair_block later pair,
      waits-IsGuarded 25 before now k.ip_attempts k.ip_block later ip,
    )
Reach-IsGuarded now k (fails {k = j} r) =
    let (pair, ip) = Reach-IsGuarded now j r in
    (
      increment-IsGuarded 5 now j.pair_attempts j.pair_block (omega arith) pair,
      increment-IsGuarded 25 now j.ip_attempts j.ip_block (omega arith) ip,
    )
Reach-IsGuarded now k (fails_other {k = j} r) =
    let (pair, ip) = Reach-IsGuarded now j r in
    (pair, increment-IsGuarded 25 now j.ip_attempts j.ip_block (omega arith) ip)
Reach-IsGuarded now k (clears {k = j} r) =
    let (pair, ip) = Reach-IsGuarded now j r in (none-IsGuarded 5 now, ip)

unblocked :
    (limit now : ℕ) (attempts blocked : Option Entry)
    → 1 ≤ limit
    → p_ttl now blocked ≡ 0
    → IsGuarded limit now attempts blocked
    → get now attempts < limit
unblocked limit now none blocked one free i = omega (arith, one)
unblocked limit now (some e) blocked one free i =
    let g = i.guarded e refl in ground (arith, one, free, g)

-- Whatever failures, logins and waits there were, a login that `assertAllowed` lets try finds at most
-- four counted failures of its address with its e-mail, and at most 24 of its address.
pub assert_allowed-limits :
    (now : ℕ) (k : Keys)
    → Reach now k
    → assert_allowed now k ≡ none
    → (get now k.pair_attempts ≤ 4) × (get now k.ip_attempts ≤ 24)
unfolding assert_allowed
assert_allowed-limits now k r allowed =
    let (pair, ip) = Reach-IsGuarded now k r in
    let pair_open : p_ttl now k.pair_block ≡ 0 = ground (arith, allowed) in
    let ip_open : p_ttl now k.ip_block ≡ 0 = ground (arith, allowed) in
    let few = unblocked 5 now k.pair_attempts k.pair_block (omega arith) pair_open pair in
    let few_ip = unblocked 25 now k.ip_attempts k.ip_block (omega arith) ip_open ip in
    (omega (arith, few), omega (arith, few_ip))

-- A login that is refused waits for one second at least and for 15 minutes at most.
pub assert_allowed-retry_after :
    (now seconds : ℕ) (k : Keys)
    → Reach now k
    → assert_allowed now k ≡ some seconds
    → (1 ≤ seconds) × (seconds ≤ 900)
unfolding assert_allowed
assert_allowed-retry_after now seconds k r refused =
    let (pair, ip) = Reach-IsGuarded now k r in
    (ground (arith, refused), ground (arith, refused, pair.block_short, ip.block_short))
