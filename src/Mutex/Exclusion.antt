-- ===== src/Mutex/Exclusion.antt =====
-- Mutex: one holder at a time, in the order of the requests.
use hardhat_ignition.Prelude.{
  ℕ, zero, suc, ◌<◌, ◌≡◌, ◌⊎◌, inl, inr, refl, sym, subst, ap, Option, none, some, List, [], ◌∷◌,
  ◌++◌, ◌==◌, ltb, Bool-cases, length, length-append, get_elem?, In, arith,
}
use hardhat_ignition.Mutex.{
  Mutex, new_mutex, acquire_queued, IsOpen, grant, unlocked, release, Step, Step.acquires,
  Step.goes_on, Step.releases, Reach, Reach.start, Reach.next,
}

-- All requests before the n-th have released their locks.
abbrev pub AllReleased : Mutex → ℕ → Type 0
AllReleased m n = (j : ℕ) → j < n → In j m.resolved

-- What a request found: nothing when all before it are done, or else the lock of the one before it.
abbrev Follows : Mutex → ℕ → Option ℕ → Type 0
Follows m n none = AllReleased m n
Follows m n (some k) = suc k ≡ n

record IsQueue (m : Mutex) : Type 0 where
  holders : (n : ℕ) → In n m.granted → AllReleased m n
  waiting : (n : ℕ) (w : Option ℕ) → get_elem? m.awaited n ≡ some w → Follows m n w
  last : Follows m (length m.awaited) m.lock

get_elem?-snoc :
    {A : Type 0} (xs : List A) (x : A) (i : ℕ) (a : A)
    → get_elem? (xs ++ x ∷ []) i ≡ some a
    → (get_elem? xs i ≡ some a) ⊎ ((i ≡ length xs) × (x ≡ a))
get_elem?-snoc [] x zero a e = inr (refl, cc)
get_elem?-snoc [] x (suc i) a e = absurd (cc)
get_elem?-snoc (y ∷ xs) x zero a e = inl e
get_elem?-snoc (y ∷ xs) x (suc i) a e = elim (get_elem?-snoc xs x i a e) [
  | inl h ↦ inl h
  | inr (h, q) ↦ inr (ap suc h, q)
]

-- A request that may go on stands behind released locks only.
open-AllReleased :
    (m : Mutex) (n : ℕ) (w : Option ℕ)
    → IsQueue m
    → Follows m n w
    → IsOpen m w
    → ((k : ℕ) → In k m.resolved → In k m.granted)
    → AllReleased m n
open-AllReleased m n none q f o sub j h = f j h
open-AllReleased m n (some k) q f o sub j h = elim (ℕ_cases j k (omega arith)) [
  | inl e ↦ subst (λ i. In i m.resolved) (sym e) o
  | inr less ↦ q.holders k (sub k o) j less
]
  where
    ℕ_cases : (j k : ℕ) → j < suc k → (j ≡ k) ⊎ (j < k)
    ℕ_cases j k h = elim (Bool-cases (j == k)) [
      | inl t ↦ inl (ground arith)
      | inr f ↦ inr (ground arith)
    ]

AllReleased-more : (m : Mutex) (n k : ℕ) → AllReleased m n → AllReleased (release k m) n
unfolding release
AllReleased-more m n k f j h = inr (f j h)

Follows-more : (m : Mutex) (n k : ℕ) (w : Option ℕ) → Follows m n w → Follows (release k m) n w
unfolding release
Follows-more m n k none f = AllReleased-more m n k f
Follows-more m n k (some i) f = f

-- The lock that a release leaves behind.
unlocked-Follows :
    (m : Mutex) (n : ℕ) (l : Option ℕ)
    → IsQueue m
    → In n m.granted
    → Follows m (length m.awaited) l
    → Follows (release n m) (length m.awaited) (unlocked n l)
unfolding release
unlocked-Follows m n none q g f = AllReleased-more m (length m.awaited) n f
unlocked-Follows m n (some k) q g f = elim (Bool-cases (k == n)) [
  | inl t ↦ rw t (λ j h. all j h (let e : k ≡ n = ground arith in e))
  | inr b ↦ rw b f
]
  where
    all : (j : ℕ) → j < length m.awaited → k ≡ n → In j (n ∷ m.resolved)
    all j h e = elim (Bool-cases (j == n)) [
      | inl t ↦ inl (ground arith)
      | inr b ↦ inr (q.holders n g j (ground arith))
    ]

Step-IsQueue :
    {m m' : Mutex}
    → Step m m'
    → IsQueue m × ((k : ℕ) → In k m.resolved → In k m.granted)
    → IsQueue m' × ((k : ℕ) → In k m'.resolved → In k m'.granted)
unfolding acquire_queued grant release
Step-IsQueue (acquires m) (q, sub) = (
  record {
    holders = q.holders;
    waiting = λ n w e. elim (get_elem?-snoc m.awaited m.lock n w e) [
      | inl h ↦ q.waiting n w h
      | inr (h, p) ↦ subst (Follows m n) p (subst (λ i. Follows m i m.lock) (sym h) q.last)
    ];
    last = let e = length-append m.awaited (m.lock ∷ []) in omega arith;
  },
  sub,
)
Step-IsQueue (goes_on m n w e o new) (q, sub) = (
  record {
    holders = λ k. elim [
      | inl h ↦ subst (AllReleased m) h (open-AllReleased m n w q (q.waiting n w e) o sub)
      | inr h ↦ q.holders k h
    ];
    waiting = q.waiting;
    last = q.last;
  },
  λ k i. inr (sub k i),
)
Step-IsQueue (releases m n g) (q, sub) = (
  record {
    holders = λ k h. AllReleased-more m k n (q.holders k h);
    waiting = λ k w e. Follows-more m k n w (q.waiting k w e);
    last = unlocked-Follows m n m.lock q g q.last;
  },
  λ k. elim [ inl h ↦ subst (λ i. In i m.granted) h g | inr h ↦ sub k h ],
)

Reach-IsQueue :
    {m : Mutex} → Reach new_mutex m → IsQueue m × ((k : ℕ) → In k m.resolved → In k m.granted)
Reach-IsQueue start = (
  record {
    holders = λ n h. elim h [ ];
    waiting = λ n w e. absurd (cc);
    last = λ j h. absurd (omega arith);
  },
  λ k h. elim h [ ],
)
Reach-IsQueue (next r s) = Step-IsQueue s (Reach-IsQueue r)

-- A request that holds the lock: it was granted and has not released.
abbrev pub Holds : Mutex → ℕ → Type 0
Holds m n = In n m.granted × ¬ In n m.resolved

-- Whatever the requests do, in any order, no two of them hold the lock at once, and one that was granted
-- comes after every earlier request was granted and has released: the queue is first in, first out.
pub Reach-exclusive :
    {m : Mutex}
    → Reach new_mutex m
    → ((n k : ℕ) → Holds m n → Holds m k → n ≡ k)
      × ((n j : ℕ) → In n m.granted → j < n → In j m.granted × In j m.resolved)
Reach-exclusive {m} r = (one, λ n j g h. let i = q.holders n g j h in (sub j i, i))
  where
    q : IsQueue m
    q = (Reach-IsQueue r).0

    sub : (k : ℕ) → In k m.resolved → In k m.granted
    sub = (Reach-IsQueue r).1

    one : (n k : ℕ) → Holds m n → Holds m k → n ≡ k
    one n k (g, a) (h, b) = elim (Bool-cases (ltb n k)) [
      | inl t ↦ absurd (a (q.holders k h n (ground arith)))
      | inr f ↦ elim (Bool-cases (ltb k n)) [
        | inl t ↦ absurd (b (q.holders n g k (ground arith)))
        | inr f' ↦ ground arith
      ]
    ]

-- The queue does not stop: whatever the requests have done, in any order, when the holder of the lock releases
-- it, the next request, if there is one, can be granted.
pub Reach-live :
    {m : Mutex} (n : ℕ) (w : Option ℕ)
    → Reach new_mutex m
    → Holds m n
    → get_elem? m.awaited (suc n) ≡ some w
    → Step (release n m) (grant (suc n) (release n m))
unfolding release
Reach-live {m} n w r (g, held) e =
    goes_on (release n m) (suc n) w e (go w (q.waiting (suc n) w e))
      (λ h. held (q.holders (suc n) h n (omega arith)))
  where
    q : IsQueue m
    q = (Reach-IsQueue r).0

    go : (w : Option ℕ) → Follows m (suc n) w → IsOpen (release n m) w
    go none f = tt
    go (some k) f = inl (let p : k ≡ n = omega arith in subst (λ i. n ≡ i) (sym p) refl)
