-- ===== src/Authenticators/BruteForce.antt =====
-- crates/geonosis-authenticators/src/brute_force.rs: the lockout of a user after failed attempts, on
-- the users of the in-memory storage, with the policy of crates/geonosis-core/src/realm.rs. Instants
-- and durations are counted in one unit. chrono's `from_std` is a parameter; a date before the start
-- of the time line is its start.
pub mod Lockout
pub mod Streak
use geonosis.Base.{
  ℕ, suc, ◌+◌, ◌*◌, ◌-◌, ◌%◌, String, Bool, ◌&&◌, Option, none, some, List, Map, lookup, insert,
  contains_key, nat_eq, pair_eq, Result, ok, err, ok_or, if◌then◌else◌, ltb, leb, nat_beq, is_none,
}
use geonosis.Core.User.{User}
use geonosis.Base.Int.{ℤ, pos, negsuc}
use geonosis.Storage.Tokens.{StorageError, not_found, to_string}

-- `u32::MAX`
abbrev pub max_u32 : ℕ
max_u32 = 4294967295

pub record BruteForcePolicy : Type 0 where
  pub enabled : Bool
  pub max_login_failures : ℕ
  pub wait_increment : ℕ
  pub max_wait : ℕ
  pub failure_reset : ℕ
  pub permanent_lockout : Bool

abbrev pub Users : Type 0
Users = Map (ℕ × ℕ) User

pub data BruteForceError : Type 0 where
  storage : String → BruteForceError
  locked : ℕ → BruteForceError

-- `get_user(..).map_err(..)`
unfoldable pub get_user : ℕ → ℕ → Users → Result BruteForceError User
get_user realm id users = ok_or (lookup (realm, id) users) (storage (to_string not_found))

unfoldable pub update_user : User → Users → Users × Result BruteForceError (Unit {0})
update_user user users =
    if contains_key (user.realm_id, user.id) users
    then (insert (user.realm_id, user.id) user users, ok tt)
    else (users, err (storage (to_string not_found)))

unfoldable pub check_locked : ℕ → ℕ → ℕ → Users → Result BruteForceError (Unit {0})
check_locked realm user_id now users = elim (get_user realm user_id users) [
  | err e ↦ err e
  | ok user ↦ elim user.locked_until [
    | none ↦ ok tt
    | some until ↦ if ltb now until then err (locked until) else ok tt
  ]
]

abbrev pub cleared : User → User
cleared user = record user { failed_attempts = 0; locked_until = none; last_failed_at = none }

unfoldable pub record_success : ℕ → ℕ → Users → Users × Result BruteForceError (Unit {0})
record_success realm user_id users = elim (get_user realm user_id users) [
  | err e ↦ (users, err e)
  | ok user ↦
      if nat_beq user.failed_attempts 0 && is_none user.locked_until && is_none user.last_failed_at
      then (users, ok tt)
      else update_user (cleared user) users
]

-- `n as i32`
unfoldable pub as_i32 : ℕ → ℤ
as_i32 n = if ltb n 2147483648 then pos n else negsuc (4294967296 - n - 1)

-- A duration times an i32.
unfoldable pub scaled : ℕ → ℤ → ℤ
scaled d (pos n) = pos (d * n)
scaled d (negsuc n) = if nat_beq d 0 then pos 0 else negsuc (d * suc n - 1)

-- `if raw > max_wait { max_wait } else { raw }`
unfoldable pub capped : ℤ → ℕ → ℤ
capped (pos n) max_wait = if ltb max_wait n then pos max_wait else pos n
capped (negsuc n) max_wait = negsuc n

-- `now + wait`
unfoldable pub after : ℕ → ℤ → ℕ
after now (pos n) = now + n
after now (negsuc n) = now - suc n

-- The seconds of the source in the unit of the time line.
module _ (from_std : ℕ → Option ℕ) (seconds : ℕ → ℕ) where
  abbrev pub duration : ℕ → ℕ → ℕ
  duration d default = elim (from_std d) [ none ↦ default | some x ↦ x ]

  -- The counter, set back once the failure window has elapsed.
  unfoldable pub counted : BruteForcePolicy → ℕ → User → ℕ
  counted policy now user = elim user.last_failed_at [
    | none ↦ user.failed_attempts
    | some last ↦
        if ltb (last + duration policy.failure_reset 0) now then 0 else user.failed_attempts
  ]

  -- `saturating_add(1)`
  unfoldable pub attempt : BruteForcePolicy → ℕ → User → ℕ
  attempt policy now user =
      if ltb (counted policy now user) max_u32 then suc (counted policy now user) else max_u32

  -- The end of the lockout after the given number of failed attempts.
  unfoldable pub lockout : BruteForcePolicy → ℕ → ℕ → ℕ
  lockout policy now attempts =
      let attempts_over = (attempts - policy.max_login_failures + 1) % 4294967296 in
      let raw = scaled (duration policy.wait_increment (seconds 60)) (as_i32 attempts_over) in
      let wait = capped raw (duration policy.max_wait (seconds 900)) in
      if policy.permanent_lockout then now + seconds 3153600000 else after now wait

  unfoldable pub failed : BruteForcePolicy → ℕ → User → User
  failed policy now user =
      let attempts = attempt policy now user in
      record user {
        failed_attempts = attempts;
        last_failed_at = some now;
        locked_until =
            if policy.enabled && leb policy.max_login_failures attempts
            then some (lockout policy now attempts)
            else user.locked_until;
      }

  unfoldable pub record_failure :
      ℕ → ℕ → BruteForcePolicy → ℕ → Users → Users × Result BruteForceError User
  record_failure realm user_id policy now users = elim (get_user realm user_id users) [
    | err e ↦ (users, err e)
    | ok user ↦
        let user' = failed policy now user in
        let (users', saved) = update_user user' users in
        elim saved [ err e ↦ (users', err e) | ok u ↦ (users', ok user') ]
  ]
