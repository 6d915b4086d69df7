-- ===== src/Authenticators/BruteForce/Streak.antt =====
-- Failed attempts in a row, crates/geonosis-authenticators/src/brute_force.rs.
use geonosis.Base.{
  ℕ, zero, subst, suc, ◌+◌, ◌≤◌, ◌<◌, true, Option, none, some, lookup, lookup-insert_self, nat_eq,
  pair_eq, ltb, leb, is_none, ◌≡◌, refl, sym, arith, lt→ltb, le→ltb, inl, inr, Bool-cases,
}
use geonosis.Core.User.{User}
use geonosis.Authenticators.BruteForce.{
  BruteForcePolicy, Users, counted, attempt, failed, record_failure, duration, max_u32,
}
use geonosis.Authenticators.BruteForce.Lockout.{key, record_failure-eq}

module _ (from_std : ℕ → Option ℕ) (seconds : ℕ → ℕ) (policy : BruteForcePolicy) where
  -- The users after `n` failed attempts of one of them, the k-th at `times k`.
  pub failures : (ℕ → ℕ) → ℕ × ℕ → ℕ → Users → Users
  failures times at zero users = users
  failures times at (suc n) users =
      (record_failure from_std seconds at.0 at.1 policy (times n) (failures times at n users)).0

  last_of : (ℕ → ℕ) → ℕ → Option ℕ
  last_of times zero = none
  last_of times (suc n) = some (times n)

  -- A user after `n` failed attempts in a row.
  record IsStreak (times : ℕ → ℕ) (at : ℕ × ℕ) (n : ℕ) (users : Users) : Type 0 where
    user : User
    stored : lookup at users ≡ some user
    own : key user ≡ at
    count : user.failed_attempts ≡ n
    last : user.last_failed_at ≡ last_of times n
    free : is_none user.locked_until ≡ ltb n policy.max_login_failures

  counted-streak :
      (times : ℕ → ℕ) (n : ℕ) (user : User)
      → ((k : ℕ)
          → suc k ≤ n
          → times (suc k) ≤ times k + duration from_std seconds policy.failure_reset 0)
      → user.failed_attempts ≡ n
      → user.last_failed_at ≡ last_of times n
      → counted from_std seconds policy (times n) user ≡ n
  unfolding counted last_of
  counted-streak times zero user close count last = rw (last, counted) count
  counted-streak times (suc n) user close count last =
      rw
        (
          last,
          counted,
          le→ltb (times n + duration from_std seconds policy.failure_reset 0) (times (suc n))
              (close n (omega arith)),
        )
        count

  attempt-streak :
      (times : ℕ → ℕ) (n : ℕ) (user : User)
      → counted from_std seconds policy (times n) user ≡ n
      → n < max_u32
      → attempt from_std seconds policy (times n) user ≡ suc n
  unfolding attempt
  attempt-streak times n user c small = rw (c, attempt, lt→ltb n max_u32 small) refl

  IsStreak-failed :
      (times : ℕ → ℕ) (n : ℕ) (users : Users) (user : User)
      → lookup (key user) users ≡ some user
      → policy.enabled ≡ true
      → attempt from_std seconds policy (times n) user ≡ suc n
      → is_none user.locked_until ≡ ltb n policy.max_login_failures
      → IsStreak times
          (key user)
          (suc n)
          (record_failure from_std seconds user.realm_id user.id policy (times n) users).0
  unfolding failed last_of
  IsStreak-failed times n users user h on next free =
      let user' : User = failed from_std seconds policy (times n) user in
      rw (record_failure-eq from_std seconds policy (times n) users user h) (record {
        user = user';
        stored = lookup-insert_self (key user) user' users;
        own = refl;
        count = next;
        last = refl;
        free = elim (Bool-cases (leb policy.max_login_failures (suc n))) [
          | inl reached ↦ ground (arith, le→ltb (suc n) policy.max_login_failures)
          | inr below ↦
              ground (
                arith,
                lt→ltb (suc n) policy.max_login_failures,
                lt→ltb n policy.max_login_failures,
              )
        ];
      })

  failures-IsStreak :
      (times : ℕ → ℕ) (at : ℕ × ℕ) (n : ℕ) (users : Users)
      → policy.enabled ≡ true
      → ((k : ℕ)
          → suc k < n
          → times (suc k) ≤ times k + duration from_std seconds policy.failure_reset 0)
      → n ≤ max_u32
      → IsStreak times at 0 users
      → IsStreak times at n (failures times at n users)
  unfolding failures
  failures-IsStreak times at zero users on close small s = s
  failures-IsStreak times at (suc n) users on close small s =
      let r =
        failures-IsStreak times at n users on (λ k h. close k (omega (arith, h))) (omega arith) s in
      let c = counted-streak times n r.user (λ k h. close k (omega (arith, h))) r.count r.last in
      let before : Users = failures times at n users in
      subst
        (λ (k : ℕ × ℕ).
          IsStreak times k (suc n)
            (record_failure from_std seconds k.0 k.1 policy (times n) before).0)
        r.own
        (IsStreak-failed times n before r.user
          (subst (λ (k : ℕ × ℕ). lookup k before ≡ some r.user) (sym r.own) r.stored) on
          (attempt-streak times n r.user c (omega arith)) r.free)

  -- With an enabled policy whose threshold is not 0, `n` failed attempts, no more than a u32 counts, of a
  -- stored user who has no lockout, a counter of 0 and no time of a last failure, each attempt within
  -- the reset window of the one before: the user's counter is `n`, and the user has a lockout exactly
  -- from the threshold on.
  pub failures-locked :
      (times : ℕ → ℕ) (n : ℕ) (users : Users) (user : User)
      → lookup (key user) users ≡ some user
      → user.failed_attempts ≡ 0
      → user.last_failed_at ≡ none
      → user.locked_until ≡ none
      → policy.enabled ≡ true
      → 0 < policy.max_login_failures
      → ((k : ℕ)
          → suc k < n
          → times (suc k) ≤ times k + duration from_std seconds policy.failure_reset 0)
      → n ≤ max_u32
      → (final : User) × (lookup (key user) (failures times (key user) n users) ≡ some final)
        × (final.failed_attempts ≡ n)
        × (is_none final.locked_until ≡ ltb n policy.max_login_failures)
  unfolding last_of
  failures-locked times n users user h count last free on some_threshold close small =
      let r = failures-IsStreak times (key user) n users on close small (record {
        user = user;
        stored = h;
        own = refl;
        count = count;
        last = last;
        free = rw (free) (sym (lt→ltb 0 policy.max_login_failures some_threshold));
      }) in
      (r.user, r.stored, r.count, r.free)
