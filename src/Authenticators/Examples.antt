-- ===== src/Authenticators/Examples.antt =====
-- A user with three attempts: each failure a tick after the one before.
use geonosis.Base.{
  ℕ, ◌+◌, Option, none, some, [], ◌∷◌, true, false, ok, err, lookup, nat_eq, pair_eq, ltb, is_none,
  if◌then◌else◌, ◌≡◌, refl, arith,
}
use geonosis.Core.User.{User}
use geonosis.Authenticators.BruteForce.{
  BruteForcePolicy, Users, locked, check_locked, record_success, record_failure, attempt, counted,
}
use geonosis.Authenticators.BruteForce.Lockout.{
  wait_of, record_success-check_locked, record_failure-check_locked,
}
use geonosis.Authenticators.BruteForce.Streak.{failures, failures-locked}

abbrev user_of : ℕ → User
user_of failed_attempts = record {
  id = 4;
  realm_id = 1;
  username = "ada";
  email = none;
  email_verified = false;
  enabled = true;
  failed_attempts = failed_attempts;
  locked_until = none;
  last_failed_at = none;
}

abbrev users_of : ℕ → Users
users_of failed_attempts = ((1, 4), user_of failed_attempts) ∷ []

abbrev policy : BruteForcePolicy
policy = record {
  enabled = true;
  max_login_failures = 3;
  wait_increment = 60;
  max_wait = 900;
  failure_reset = 100;
  permanent_lockout = false;
}

abbrev from_std : ℕ → Option ℕ
from_std d = some d

abbrev seconds : ℕ → ℕ
seconds n = n

stored : (n : ℕ) → lookup (1, 4) (users_of n) ≡ some (user_of n)
unfolding lookup
stored n = refl

record_success-check_locked_example :
    ((record_success 1 4 (users_of 2)).1 ≡ ok tt)
    × (check_locked 1 4 9 (record_success 1 4 (users_of 2)).0 ≡ ok tt)
record_success-check_locked_example =
    record_success-check_locked 9 (users_of 2) (user_of 2) (stored 2)

record_failure-check_locked_example :
    check_locked 1 4 30 (record_failure from_std seconds 1 4 policy 10 (users_of 2)).0 ≡ (
      if ltb 30
        (10 + wait_of from_std seconds policy (attempt from_std seconds policy 10 (user_of 2)))
      then err (
          locked
            (10 + wait_of from_std seconds policy (attempt from_std seconds policy 10 (user_of 2))))
      else ok tt)
unfolding attempt counted
record_failure-check_locked_example =
    record_failure-check_locked from_std seconds policy 10 30 (users_of 2) (user_of 2) (stored 2)
      refl refl (omega arith) (omega arith)

failures-locked_example :
    (final : User) × (lookup
        (1, 4)
        (failures from_std seconds policy (λ k. k) (1, 4) 5 (users_of 0))
      ≡ some final)
    × (final.failed_attempts ≡ 5)
    × (is_none final.locked_until ≡ ltb 5 3)
failures-locked_example =
    failures-locked from_std seconds policy (λ k. k) 5 (users_of 0) (user_of 0) (stored 0) refl refl
      refl refl (omega arith) (λ k h. omega arith) (omega arith)
