-- ===== src/Leader.antt =====
-- services/task_manager/common/app_common/leader_lock.py: the lock key of one service in Redis, with its
-- time to live, and the processes that compete for it. Time is in seconds.
pub mod Safety
pub mod Tests
use live_streaming_data_pipe.Base.{
  ℕ, zero, suc, ◌+◌, ◌-◌, Text, text_eq, Bool, true, false, Option, none, some, ◌&&◌, if◌then◌else◌,
}

-- `LOCK_TTL_S`, `RENEW_INTERVAL` and `RETRY_INTERVAL`
abbrev pub lock_ttl : ℕ
lock_ttl = 15

abbrev pub renew_interval : ℕ
renew_interval = 5

abbrev pub retry_interval : ℕ
retry_interval = 3

-- What Redis holds under the key: the holder's identity, and the seconds until it expires.
pub record Entry : Type 0 where
  pub holder : Text
  pub left : ℕ

abbrev pub Key : Type 0
Key = Option Entry

-- `LeaderLock`: the identity of the process, its flag, and whether its renew task runs.
pub record Lock : Type 0 where
  pub identity : Text
  pub is_leader : Bool
  pub renewing : Bool

-- `_try_acquire`: `SET key identity NX EX 15`
unfoldable pub try_acquire : Lock → Key → Bool × Key
try_acquire l none = (true, some (record { holder = l.identity; left = lock_ttl }))
try_acquire l (some e) = (false, some e)

-- One attempt of `acquire_with_retry`, and `__aenter__`.
unfoldable pub acquire : Lock → Key → Lock × Key
unfolding try_acquire
acquire l k =
    let (won, k') = try_acquire l k in
    ((if won then record l { is_leader = true; renewing = true } else l), k')

-- `current_str == self._identity`
unfoldable pub holds : Lock → Key → Bool
holds l none = false
holds l (some e) = text_eq e.holder l.identity

-- `EXPIRE key 15`, which does nothing to a key that is gone.
unfoldable pub expire : Key → Key
expire none = none
expire (some e) = some (record e { left = lock_ttl })

-- A pass of `_renew_loop` is two commands: the read, and what follows on what it found.
unfoldable pub after_read : Bool → Lock → Key → Lock × Key
unfolding expire
after_read true l k = (l, expire k)
after_read false l k = (record l { is_leader = false; renewing = false }, k)

-- A pass in which nobody comes between the two commands.
unfoldable pub renew : Lock → Key → Lock × Key
unfolding holds after_read
renew l k = if l.renewing then after_read (holds l k) l k else (l, k)

-- `release` is two commands too: after the read that a leader does, and what follows on what it found.
unfoldable pub release_read : Lock → Key → Bool
unfolding holds
release_read l k = l.is_leader && holds l k

unfoldable pub release_delete : Bool → Lock → Key → Lock × Key
release_delete found l k =
    (record l { is_leader = false; renewing = false }, if found then none else k)

-- A second passes: a key with no time left after it is gone.
abbrev pub left_after : Text → ℕ → Key
left_after holder zero = none
left_after holder (suc zero) = none
left_after holder (suc (suc n)) = some (record { holder = holder; left = suc n })

unfoldable pub tick : Key → Key
tick none = none
tick (some e) = left_after e.holder e.left
