-- ===== src/Server/RateLimit.antt =====
-- crates/geonosis-server/src/rate_limit.rs: a token bucket for each realm. A call of `try_consume`
-- runs alone here, so every `compare_exchange` finds what was loaded; the time is the number of
-- nanoseconds since the limiter's base. Integers are u64, with `add` computed in u128.
pub mod Admitted
use geonosis.Base.{
  ℕ, ◌+◌, ◌-◌, ◌*◌, ◌/◌, ◌%◌, Bool, true, false, Option, none, some, List, [], ◌∷◌, Map, lookup,
  insert, nat_eq, if◌then◌else◌, ltb, nat_beq,
}

abbrev pub default_burst : ℕ
default_burst = 200

abbrev pub default_refill_per_sec : ℕ
default_refill_per_sec = 100

-- 2 ^ 64
abbrev pub u64 : ℕ
u64 = 18446744073709551616

pub record Bucket : Type 0 where
  pub tokens : ℕ
  pub last_refill_nanos : ℕ
  pub capacity : ℕ
  pub refill_per_sec : ℕ

-- `Bucket::new`
abbrev pub new_bucket : ℕ → ℕ → Bucket
new_bucket capacity refill_per_sec = record {
  tokens = capacity;
  last_refill_nanos = 0;
  capacity = capacity;
  refill_per_sec = refill_per_sec;
}

abbrev pub least : ℕ → ℕ → ℕ
least a b = if ltb b a then b else a

-- Step 1 of `Bucket::try_consume`.
unfoldable pub refill : Bucket → ℕ → Bucket
refill b now_ns =
    let add = (now_ns - b.last_refill_nanos) * b.refill_per_sec / 1000000000 in
    if ltb b.last_refill_nanos now_ns
    then (if ltb 0 add
        then record b {
          last_refill_nanos = now_ns;
          tokens = least ((b.tokens + add % u64) % u64) b.capacity;
        }
        else b)
    else b

-- Step 2.
unfoldable pub consume : Bucket → Bucket × Bool
consume b = if nat_beq b.tokens 0 then (b, false) else (record b { tokens = b.tokens - 1 }, true)

-- `Bucket::try_consume`
unfoldable pub try_consume : Bucket → ℕ → Bucket × Bool
try_consume b now = consume (refill b (now % u64))

pub record PerRealmRateLimiter : Type 0 where
  pub buckets : Map ℕ Bucket
  pub default_capacity : ℕ
  pub refill_default : ℕ

-- `PerRealmRateLimiter::new`
abbrev pub new_limiter : ℕ → ℕ → PerRealmRateLimiter
new_limiter capacity refill_per_sec = record {
  buckets = [];
  default_capacity = capacity;
  refill_default = refill_per_sec;
}

-- The bucket of a realm, made on its first call.
unfoldable pub bucket_of : PerRealmRateLimiter → ℕ → Bucket
bucket_of limiter realm = elim (lookup realm limiter.buckets) [
  | none ↦ new_bucket limiter.default_capacity limiter.refill_default
  | some b ↦ b
]

-- `PerRealmRateLimiter::try_consume`
unfoldable pub try_realm : PerRealmRateLimiter → ℕ → ℕ → PerRealmRateLimiter × Bool
try_realm limiter realm now =
    let (b, admitted) = try_consume (bucket_of limiter realm) now in
    (record limiter { buckets = insert realm b limiter.buckets }, admitted)
