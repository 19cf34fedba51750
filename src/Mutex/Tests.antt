-- ===== src/Mutex/Tests.antt =====
-- Mutex: two requests, of which the first has released.
use hardhat_ignition.Prelude.{ℕ, ◌<◌, ◌≡◌, refl, inl, inr, none, some, In, arith}
use hardhat_ignition.Mutex.{
  Step, Mutex, new_mutex, acquire_queued, grant, release, Step.acquires, Step.goes_on,
  Step.releases, Reach, Reach.start, Reach.next,
}
use hardhat_ignition.Mutex.Exclusion.{Holds, Reach-exclusive, Reach-live}

program : Unit {0}
unfolding acquire_queued grant release
program = tt

abbrev both : Mutex
both = acquire_queued (acquire_queued new_mutex)

abbrev second : Mutex
second = release 0 (grant 0 both)

first-Reach : Reach new_mutex (grant 0 both)
unfolding program
first-Reach =
    next (next (next start (acquires new_mutex)) (acquires (acquire_queued new_mutex)))
      (goes_on both 0 none refl tt (λ h. h))

second-Reach : Reach new_mutex second
unfolding program
second-Reach = next first-Reach (releases (grant 0 both) 0 (inl refl))

still_locked : (grant 1 second).lock ≡ some 1
unfolding program
still_locked = refl

Reach-exclusive_example :
    ((n k : ℕ) → Holds (grant 1 second) n → Holds (grant 1 second) k → n ≡ k)
    × ((n j : ℕ)
        → In n (grant 1 second).granted
        → j < n
        → In j (grant 1 second).granted × In j (grant 1 second).resolved)
unfolding program
Reach-exclusive_example = Reach-exclusive (
    next second-Reach (
      goes_on second 1 (some 0) refl (inl refl)
        (elim [ inl e ↦ absurd (omega arith) | inr h ↦ h ])))

Reach-live_example : Step second (grant 1 second)
unfolding program
Reach-live_example = Reach-live 0 (some 0) first-Reach (inl refl, λ h. h) refl
