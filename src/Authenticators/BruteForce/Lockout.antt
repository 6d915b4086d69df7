-- ===== src/Authenticators/BruteForce/Lockout.antt =====
-- The lockout over several attempts, crates/geonosis-authenticators/src/brute_force.rs.
use geonosis.Base.{
  ℕ, ◌%◌, ◌+◌, ◌*◌, ◌-◌, ◌≤◌, ◌<◌, true, false, ◌&&◌, Option, none, some, lookup, insert,
  lookup-insert_self, contains_key, nat_eq, pair_eq, Result, ok, err, if◌then◌else◌, ltb, nat_beq,
  is_none, ◌≡◌, refl, ap, ◌∙◌, arith, lt→ltb, le→leb, inl, inr, Bool-cases,
}
use geonosis.Core.User.{User}
use geonosis.Authenticators.BruteForce.{
  BruteForcePolicy, Users, BruteForceError, locked, get_user, update_user, check_locked, cleared,
  record_success, as_i32, scaled, capped, after, attempt, lockout, failed, record_failure, duration,
}

abbrev pub key : User → ℕ × ℕ
key user = (user.realm_id, user.id)

check_locked-eq :
    (now : ℕ) (users : Users) (user : User)
    → lookup (key user) users ≡ some user
    → check_locked user.realm_id user.id now users
      ≡ elim user.locked_until as (λ x. Result BruteForceError (Unit {0})) [
        | none ↦ ok tt
        | some until ↦ if ltb now until then err (locked until) else ok tt
      ]
unfolding check_locked get_user
check_locked-eq now users user h = ground arith

update_user-eq :
    (user old : User) (users : Users)
    → lookup (key user) users ≡ some old
    → update_user user users ≡ (insert (key user) user users, ok tt)
unfolding update_user contains_key
update_user-eq user old users h = rw (h) refl

record_success-eq :
    (users : Users) (user : User)
    → lookup (key user) users ≡ some user
    → record_success user.realm_id user.id users ≡ (
        if nat_beq user.failed_attempts 0
          && is_none user.locked_until
          && is_none user.last_failed_at
        then (users, ok tt)
        else (insert (key user) (cleared user) users, ok tt))
unfolding record_success get_user
record_success-eq users user h =
    rw (h, record_success)
      (ap
        (λ (r : Users × Result BruteForceError (Unit {0})).
          if nat_beq user.failed_attempts 0
            && is_none user.locked_until
            && is_none user.last_failed_at
          then (users, ok tt)
          else r)
        (update_user-eq (cleared user) user users h))

is_none-eq : {A : Type 0} (o : Option A) → is_none o ≡ true → o ≡ none
is_none-eq none h = refl
is_none-eq (some a) h = cc

-- A recorded success of a stored user succeeds, and no later time finds the user locked.
pub record_success-check_locked :
    (later : ℕ) (users : Users) (user : User)
    → lookup (key user) users ≡ some user
    → ((record_success user.realm_id user.id users).1 ≡ ok tt)
      × (check_locked user.realm_id user.id later (record_success user.realm_id user.id users).0
          ≡ ok tt)
record_success-check_locked later users user h =
    let e = record_success-eq users user h in
    elim (Bool-cases (
      nat_beq user.failed_attempts 0 && is_none user.locked_until && is_none user.last_failed_at)) [
        | inl clear ↦
            let free : user.locked_until ≡ none = is_none-eq user.locked_until (ground arith) in
            rw (e, clear) (refl, check_locked-eq later users user h ∙ ground arith)
        | inr dirty ↦
            rw (e, dirty)
              (
                refl,
                check_locked-eq later (insert (key user) (cleared user) users) (cleared user)
                    (lookup-insert_self (key user) (cleared user) users),
              )
      ]

module _ (from_std : ℕ → Option ℕ) (seconds : ℕ → ℕ) (policy : BruteForcePolicy) where
  pub record_failure-eq :
      (now : ℕ) (users : Users) (user : User)
      → lookup (key user) users ≡ some user
      → record_failure from_std seconds user.realm_id user.id policy now users ≡ (
        insert (key user) (failed from_std seconds policy now user) users,
        ok (failed from_std seconds policy now user),
      )
  unfolding record_failure get_user failed
  record_failure-eq now users user h =
      rw (h, record_failure)
        (ap
          (λ (r : Users × Result BruteForceError (Unit {0})).
            elim r.1 as (λ x. Users × Result BruteForceError User) [
              | err e ↦ (r.0, err e)
              | ok u ↦ (r.0, ok (failed from_std seconds policy now user))
            ])
          (update_user-eq (failed from_std seconds policy now user) user users h))

  -- The wait of the policy after some attempts: the increment for each attempt from the threshold on,
  -- and `max_wait` at most.
  abbrev pub wait_of : ℕ → ℕ
  wait_of attempts =
      let raw =
        duration from_std seconds policy.wait_increment (seconds 60)
        * (attempts - policy.max_login_failures + 1) in
      let most = duration from_std seconds policy.max_wait (seconds 900) in
      if ltb most raw then most else raw

  lockout-wait_of :
      (now attempts : ℕ)
      → policy.permanent_lockout ≡ false
      → attempts - policy.max_login_failures < 2147483647
      → lockout from_std seconds policy now attempts ≡ now + wait_of attempts
  unfolding lockout scaled capped after as_i32
  lockout-wait_of now attempts soft small =
      let over : ℕ = attempts - policy.max_login_failures + 1 in
      let raw : ℕ = duration from_std seconds policy.wait_increment (seconds 60) * over in
      let fits : over % 4294967296 ≡ over = omega arith in
      let low : ltb over 2147483648 ≡ true = lt→ltb over 2147483648 (omega arith) in
      rw (soft, lockout, fits, low)
        (elim (Bool-cases (ltb (duration from_std seconds policy.max_wait (seconds 900)) raw)) [
          | inl more ↦ rw (more) refl
          | inr less ↦ rw (less) refl
        ])

  -- Under an enabled policy without permanent lockout, a failed attempt of a stored user that reaches
  -- the threshold, and passes it by less than 2147483647 attempts, locks the user exactly until the
  -- policy's wait is over.
  pub record_failure-check_locked :
      (now later : ℕ) (users : Users) (user : User)
      → lookup (key user) users ≡ some user
      → policy.enabled ≡ true
      → policy.permanent_lockout ≡ false
      → policy.max_login_failures ≤ attempt from_std seconds policy now user
      → attempt from_std seconds policy now user - policy.max_login_failures < 2147483647
      → let until = now + wait_of (attempt from_std seconds policy now user) in
        check_locked user.realm_id user.id later
          (record_failure from_std seconds user.realm_id user.id policy now users).0
        ≡ (if ltb later until then err (locked until) else ok tt)
  unfolding failed
  record_failure-check_locked now later users user h on soft reached small =
      let user' : User = failed from_std seconds policy now user in
      let attempts : ℕ = attempt from_std seconds policy now user in
      let set : user'.locked_until ≡ some (now + wait_of attempts) =
        ground (arith, le→leb policy.max_login_failures attempts, lockout-wait_of now attempts) in
      rw (record_failure-eq now users user h) (
        check_locked-eq later (insert (key user) user' users) user'
          (lookup-insert_self (key user) user' users)
        ∙ rw (set) refl)
