-- ===== src/Server/RateLimit/Admitted.antt =====
-- How many calls a realm gets through, crates/geonosis-server/src/rate_limit.rs.
use geonosis.Base.{
  ℕ, suc, ◌+◌, ◌-◌, ◌*◌, ◌/◌, ◌%◌, ◌≤◌, ◌<◌, List, [], ◌∷◌, lookup-insert, nat_eq, if◌then◌else◌,
  ltb, nat_beq, nat_beq_iff, ltb→lt, lt→ltb, ltb-false, ◌≡◌, ◌≢◌, refl, sym, ap, ◌∙◌, subst, arith,
  inl, inr, Bool-cases, All,
}
use native.Mathlib.Nat.{add-mul, mul-le-mul_right}
use geonosis.Server.RateLimit.{
  Bucket, new_bucket, refill, consume, try_consume, least, u64, PerRealmRateLimiter, bucket_of,
  try_realm,
}

-- A bucket within its limits: what was spent and what is left came from the capacity and the refills
-- up to the last one, which was no later than `now`.
record IsSolvent (capacity rate now spent : ℕ) (b : Bucket) : Type 0 where
  capacity_kept : b.capacity ≡ capacity
  rate_kept : b.refill_per_sec ≡ rate
  past : b.last_refill_nanos ≤ now
  full : b.tokens ≤ capacity
  paid : (spent + b.tokens) * 1000000000 ≤ capacity * 1000000000 + b.last_refill_nanos * rate

least-le : (a b : ℕ) → (least a b ≤ a) × (least a b ≤ b)
least-le a b = elim (Bool-cases (ltb b a)) [
  | inl more ↦ rw (more) (omega (arith, ltb→lt b a), omega arith)
  | inr less ↦ rw (less) (omega arith, omega (arith, lt→ltb b a, ltb-false b a less))
]

-- What a refill adds is paid for by the time since the last one.
paid_for :
    (last at rate spent tokens capacity r c : ℕ)
    → r ≡ rate
    → last < at
    → (spent + tokens) * 1000000000 ≤ capacity * 1000000000 + last * rate
    → (spent + least ((tokens + (at - last) * r / 1000000000 % u64) % u64) c) * 1000000000
      ≤ capacity * 1000000000 + at * rate
paid_for last at rate spent tokens capacity r c same lt paid =
    let x : ℕ = at - last in
    let whole : at ≡ last + x = omega arith in
    let split : at * rate ≡ last * rate + x * rate =
      ap (λ (n : ℕ). n * rate) whole ∙ add-mul last x rate in
    let rated : x * r ≡ x * rate = ap (λ (n : ℕ). x * n) same in
    let (below, under) = least-le ((tokens + x * r / 1000000000 % u64) % u64) c in omega arith

refilled :
    (capacity rate now spent at : ℕ) (b : Bucket)
    → at ≤ now
    → IsSolvent capacity rate now spent b
    → IsSolvent capacity rate now spent (refill b at)
unfolding refill
refilled capacity rate now spent at b le v = elim (Bool-cases (ltb b.last_refill_nanos at)) [
  | inr early ↦ rw (early, refill) v
  | inl later ↦
      elim (Bool-cases (ltb 0 ((at - b.last_refill_nanos) * b.refill_per_sec / 1000000000))) [
        | inr nothing ↦ rw (later, refill, nothing) v
        | inl some_ ↦
            rw (later, refill, some_)
              (record {
                capacity_kept = v.capacity_kept;
                rate_kept = v.rate_kept;
                past = le;
                full =
                    subst
                      (λ (c : ℕ).
                        least
                          ((b.tokens
                              + (at - b.last_refill_nanos) * b.refill_per_sec / 1000000000 % u64)
                            % u64)
                          b.capacity
                        ≤ c)
                      v.capacity_kept
                      (least-le
                        ((b.tokens
                            + (at - b.last_refill_nanos) * b.refill_per_sec / 1000000000 % u64)
                          % u64)
                        b.capacity).1;
                paid =
                    paid_for b.last_refill_nanos at rate spent b.tokens capacity b.refill_per_sec
                      b.capacity v.rate_kept (ltb→lt b.last_refill_nanos at later) v.paid;
              })
      ]
]

consumed :
    (capacity rate now spent : ℕ) (b : Bucket)
    → IsSolvent capacity rate now spent b
    → IsSolvent capacity rate now (if (consume b).1 then suc spent else spent) (consume b).0
unfolding consume
consumed capacity rate now spent b v = elim (Bool-cases (nat_beq b.tokens 0)) [
  | inl dry ↦ rw (dry, consume) v
  | inr wet ↦
      let some_left : 0 < b.tokens = ground arith in
      rw (wet, consume)
        (record {
          capacity_kept = v.capacity_kept;
          rate_kept = v.rate_kept;
          past = v.past;
          full = omega (arith, v.full);
          paid = omega (arith, v.paid);
        })
]

step-IsSolvent :
    (capacity rate horizon spent now : ℕ) (b : Bucket)
    → now ≤ horizon
    → IsSolvent capacity rate horizon spent b
    → IsSolvent capacity rate horizon
        (if (try_consume b now).1 then suc spent else spent)
        (try_consume b now).0
unfolding try_consume
step-IsSolvent capacity rate horizon spent now b le v =
    consumed capacity rate horizon spent (refill b (now % u64))
      (refilled capacity rate horizon spent (now % u64) b (omega arith) v)

-- The calls at the given times, one after the other: how many are admitted, on top of `spent`.
pub serve : Bucket → List ℕ → ℕ → ℕ
serve b [] spent = spent
serve b (now ∷ times) spent =
    serve (try_consume b now).0 times (if (try_consume b now).1 then suc spent else spent)

serve-bounded :
    (capacity rate horizon : ℕ) (times : List ℕ) (spent : ℕ) (b : Bucket)
    → All (λ (now : ℕ). now ≤ horizon) times
    → IsSolvent capacity rate horizon spent b
    → serve b times spent * 1000000000 ≤ capacity * 1000000000 + horizon * rate
unfolding serve
serve-bounded capacity rate horizon [] spent b le v =
    omega (arith, v.paid, mul-le-mul_right rate v.past)
serve-bounded capacity rate horizon (now ∷ times) spent b (le, rest) v =
    serve-bounded capacity rate horizon times (if (try_consume b now).1 then suc spent else spent)
      (try_consume b now).0 rest (step-IsSolvent capacity rate horizon spent now b le v)

-- However the calls fall, none later than `horizon`, a new bucket admits no more of them than its capacity and
-- what its rate refills in that time.
pub serve-le :
    (capacity rate horizon : ℕ) (times : List ℕ)
    → All (λ (now : ℕ). now ≤ horizon) times
    → serve (new_bucket capacity rate) times 0 * 1000000000 ≤ capacity * 1000000000 + horizon * rate
serve-le capacity rate horizon times le =
    serve-bounded capacity rate horizon times 0 (new_bucket capacity rate) le (record {
      capacity_kept = refl;
      rate_kept = refl;
      past = omega arith;
      full = omega arith;
      paid = omega arith;
    })

-- A call for one realm leaves the buckets of the others as they are.
pub try_realm-other :
    (limiter : PerRealmRateLimiter) (realm other now : ℕ)
    → other ≢ realm
    → bucket_of (try_realm limiter realm now).0 other ≡ bucket_of limiter other
unfolding try_realm bucket_of
try_realm-other limiter realm other now apart = ground (
  arith,
  lookup-insert realm other (try_consume (bucket_of limiter realm) now).0 limiter.buckets,
  nat_beq_iff realm other,
  λ (e : realm ≡ other). apart (sym e),
)
