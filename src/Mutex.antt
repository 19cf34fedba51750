-- ===== src/Mutex.antt =====
-- services/utils/mutex/simple-mutex.ts: a lock with a queue, made of promises.
--
-- A lock is the promise that its request made, here its number: the n-th request makes lock n. What a request
-- awaits is the lock that it found. A request is granted when that promise is resolved, at any later time;
-- its holder then calls the release function once. KeyMutex is the same code for each key.
pub mod Exclusion
mod Tests
use hardhat_ignition.Prelude.{
  ℕ, ◌≡◌, Option, none, some, List, [], ◌∷◌, ◌++◌, if◌then◌else◌, ◌==◌, length, get_elem?, In,
}

pub record Mutex : Type 0 where
  pub lock : Option ℕ
  pub awaited : List (Option ℕ)
  pub granted : List ℕ
  pub resolved : List ℕ

-- The field initialiser: unlocked, and nothing was requested.
abbrev pub new_mutex : Mutex
new_mutex = record { lock = none; awaited = []; granted = []; resolved = [] }

-- acquireQueued, with _acquire: the request awaits the present lock and puts its own in place.
unfoldable pub acquire_queued : Mutex → Mutex
acquire_queued m = record m { lock = some (length m.awaited); awaited = m.awaited ++ m.lock ∷ [] }

-- The promise that a request awaits lets it go on: `Promise.resolve(undefined)` at once, a lock when it is
-- resolved.
abbrev pub IsOpen : Mutex → Option ℕ → Type 0
IsOpen m none = Unit
IsOpen m (some n) = In n m.resolved

unfoldable pub grant : ℕ → Mutex → Mutex
grant n m = record m { granted = n ∷ m.granted }

-- The function that _acquire returns: `if (this._lock === lock) this._lock = undefined; release()`.
abbrev pub unlocked : ℕ → Option ℕ → Option ℕ
unlocked n none = none
unlocked n (some k) = if k == n then none else some k

unfoldable pub release : ℕ → Mutex → Mutex
release n m = record m { lock = unlocked n m.lock; resolved = n ∷ m.resolved }

-- The steps of the requests, in any order.
pub data Step : Mutex → Mutex → Type 0 where
  acquires : (m : Mutex) → Step m (acquire_queued m)
  goes_on :
      (m : Mutex) (n : ℕ) (w : Option ℕ)
      → get_elem? m.awaited n ≡ some w
      → IsOpen m w
      → ¬ In n m.granted
      → Step m (grant n m)
  releases : (m : Mutex) (n : ℕ) → In n m.granted → Step m (release n m)

pub data Reach (s : Mutex) : Mutex → Type 0 where
  start : Reach s s
  next : {m m' : Mutex} → Reach s m → Step m m' → Reach s m'
