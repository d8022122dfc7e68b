-- ===== src/Mutex/Owner.antt =====
-- The owner of a mutex, its lock count and its waiters.
use tiny_rt.Base.{
  ℕ, ◌+◌, ◌-◌, ◌%◌, ◌^◌, ◌<◌, ◌≡◌, ◌≢◌, refl, Bool, false, not, ◌||◌, ◌==◌, [], ◌∷◌, List, arith,
  inl, inr, Bool-cases, ne→==-false, if_either, subst, sym, eq-nil_of_empty, cons_of_not-empty,
  is_empty,
}
use tiny_rt.Error.{Err}
use tiny_rt.Task.{WaitResult}
use tiny_rt.Sched.State.{Sched, wait_head}
use tiny_rt.Sched.Inv.{Inv}
use tiny_rt.Time.{forever_us}
use tiny_rt.WaitQueue.{Reply, done, trt_wait_q_wake_one_locked}
use tiny_rt.WaitQueue.Inv.{
  IsCurrentRunning, wake_one_result-Inv, block_locked-Inv, block_timeout_locked-Inv, wake_step,
}
use tiny_rt.WaitQueue.Yield.{yielding-Inv}
use tiny_rt.WaitQueue.WakeAll.{wake_all-WakesAll, wake_one_result_none}
use tiny_rt.Kernel.{Kernel, waiters}
use tiny_rt.Mutex.{
  set_mutex, acquire, mutex_trylock_obj, mutex_lock_obj, mutex_lock_timeout_obj, hand_over,
  mutex_unlock_obj, mutex_destroy_obj, mutex_lock_resume, mutex_lock_timeout_resume,
}

-- A live mutex is locked exactly while it has an owner, and tasks wait only for one with an owner.
pub record IsOwned (k : Kernel) (m : ℕ) : Type 0 where
  pub sound : Inv k.sched
  pub real : m ≢ 0
  pub small : (k.mutexes m).lock_count < 2 ^ 32
  pub held : (k.mutexes m).owner ≢ 0 → (k.mutexes m).lock_count ≢ 0
  pub unheld : (k.mutexes m).owner ≡ 0 → (k.mutexes m).lock_count ≡ 0
  pub idle :
      (k.mutexes m).destroyed ≡ false
      → (k.mutexes m).owner ≡ 0
      → k.sched.lists (wait_head (waiters m)) ≡ []

-- An owner with a lock count.
owner-IsOwned :
    (k : Kernel) (m owner n : ℕ) (b : Bool) (sched : Sched)
    → m ≢ 0
    → Inv sched
    → n < 2 ^ 32
    → owner ≢ 0
    → n ≢ 0
    → IsOwned
        (record (set_mutex k m (record { owner = owner; lock_count = n; destroyed = b })) {
          sched = sched;
        })
        m
owner-IsOwned k m owner n b sched real v lt o nz = record {
  sound = v;
  real = real;
  small = ground arith;
  held = λ h. ground arith;
  unheld = λ h. absurd (ground arith);
  idle = λ live h. absurd (ground arith);
}

-- The scheduler goes on while the mutex has an owner.
rescheduled :
    {k : Kernel} (m : ℕ) (sched : Sched)
    → IsOwned k m
    → (k.mutexes m).owner ≢ 0
    → Inv sched
    → IsOwned (record k { sched = sched }) m
rescheduled {k} m sched v o w = record {
  sound = w;
  real = v.real;
  small = v.small;
  held = v.held;
  unheld = v.unheld;
  idle = λ live z. absurd (o z);
}

-- A lock call keeps the invariant, if what it does with a mutex that another task owns does, and if
-- the owner has not locked it 2^32 - 1 times.
acquire-IsOwned :
    {k : Kernel} (m : ℕ) (busy : Reply × Kernel)
    → IsOwned k m
    → (k.mutexes m).lock_count + 1 < 2 ^ 32
    → ((k.mutexes m).owner ≢ 0 → IsOwned busy.1 m)
    → IsOwned (acquire k m busy).1 m
unfolding acquire
acquire-IsOwned {k} m busy v few w = elim (Bool-cases ((m == 0) || (k.sched.current_task == 0))) [
  | inl bad ↦ rw bad v
  | inr fine ↦ elim (Bool-cases (k.mutexes m).destroyed) [
    | inl dead ↦ rw (fine, dead) v
    | inr live ↦ elim (Bool-cases ((k.mutexes m).owner == 0)) [
      | inl free ↦
          rw (fine, live, free)
            (owner-IsOwned k m k.sched.current_task 1 false k.sched v.real v.sound (ground arith)
              (ground arith) (ground arith))
      | inr taken ↦ elim (Bool-cases ((k.mutexes m).owner == k.sched.current_task)) [
        | inl mine ↦
            rw (fine, live, taken, mine)
              (owner-IsOwned k m (k.mutexes m).owner (((k.mutexes m).lock_count + 1) % 2 ^ 32) false
                k.sched v.real v.sound (omega arith) (ground arith) (omega arith))
        | inr other ↦ rw (fine, live, taken, other) (w (ground arith))
      ]
    ]
  ]
]

pub trylock-IsOwned :
    {k : Kernel} (m : ℕ)
    → IsOwned k m
    → (k.mutexes m).lock_count + 1 < 2 ^ 32
    → IsOwned (mutex_trylock_obj k m).1 m
unfolding mutex_trylock_obj
trylock-IsOwned {k} m v few = acquire-IsOwned m (done Err.busy, k) v few (λ o. v)

pub lock-IsOwned :
    {k : Kernel} (m : ℕ)
    → IsOwned k m
    → IsCurrentRunning k.sched
    → (k.mutexes m).lock_count + 1 < 2 ^ 32
    → IsOwned (mutex_lock_obj k m).1 m
unfolding mutex_lock_obj
lock-IsOwned {k} m v run few = acquire-IsOwned m _ v few λ o. rescheduled m _ v o (
    yielding-Inv (λ s. mutex_lock_resume (record k { sched = s }) m) _
      (block_locked-Inv (waiters m) v.sound run))

pub lock_timeout-IsOwned :
    {k : Kernel} (m us : ℕ)
    → IsOwned k m
    → IsCurrentRunning k.sched
    → (k.mutexes m).lock_count + 1 < 2 ^ 32
    → IsOwned (mutex_lock_timeout_obj k m us).1 m
unfolding mutex_lock_timeout_obj
lock_timeout-IsOwned {k} m us v run few =
    if_either (λ (r : Reply × Kernel). IsOwned r.1 m) (us == forever_us) (lock-IsOwned m v run few)
      (acquire-IsOwned m _ v few λ o. rescheduled m _ v o (
        yielding-Inv (λ s. mutex_lock_timeout_resume (record k { sched = s }) m) _
          (block_timeout_locked-Inv (waiters m) us v.sound run)))

-- The last unlock, by whether a task waits.
pub hand_over_nobody :
    (k : Kernel) (m : ℕ)
    → k.sched.lists (wait_head (waiters m)) ≡ []
    → hand_over k m ≡ set_mutex k m (record (k.mutexes m) { owner = 0; lock_count = 0 })
unfolding hand_over trt_wait_q_wake_one_locked
hand_over_nobody k m q = rw (wake_one_result_none k.sched (waiters m) WaitResult.object q) refl

pub hand_over_first :
    (k : Kernel) (m t : ℕ) (ts : List ℕ)
    → Inv k.sched
    → m ≢ 0
    → k.sched.lists (wait_head (waiters m)) ≡ t ∷ ts
    → (t ≢ 0)
      × (hand_over k m
          ≡ record (set_mutex k m (record (k.mutexes m) { owner = t; lock_count = 1 })) {
            sched = (trt_wait_q_wake_one_locked k.sched (waiters m)).1;
          })
unfolding hand_over trt_wait_q_wake_one_locked
hand_over_first k m t ts v nz q =
    let (first, tz, _, _, _, _, _, _) =
      wake_step k.sched (waiters m) t ts WaitResult.object v (omega arith) q in
    let nz = ne→==-false t 0 tz in (tz, rw (first, nz) refl)

woken_one-Inv : {k : Sched} (wq : ℕ) → Inv k → Inv (trt_wait_q_wake_one_locked k wq).1
unfolding trt_wait_q_wake_one_locked
woken_one-Inv wq v = wake_one_result-Inv wq WaitResult.object v

hand_over-IsOwned : {k : Kernel} (m : ℕ) → IsOwned k m → IsOwned (hand_over k m) m
hand_over-IsOwned {k} m v = elim (Bool-cases (is_empty (k.sched.lists (wait_head (waiters m))))) [
  | inl nobody ↦
      let q = eq-nil_of_empty _ nobody in
      rw (hand_over_nobody k m q) (record {
        sound = v.sound;
        real = v.real;
        small = ground arith;
        held = λ h. absurd (ground arith);
        unheld = λ h. ground arith;
        idle = λ live h. q;
      })
  | inr busy ↦
      let (t, ts, q) = cons_of_not-empty _ busy in
      let (tz, eq) = hand_over_first k m t ts v.sound v.real q in
      rw eq (
        owner-IsOwned k m t 1 (k.mutexes m).destroyed
          (trt_wait_q_wake_one_locked k.sched (waiters m)).1 v.real
          (woken_one-Inv (waiters m) v.sound) (ground arith) tz (ground arith))
]

pub unlock_last :
    (k : Kernel) (m : ℕ)
    → ((m == 0) || (k.sched.current_task == 0)) ≡ false
    → (k.mutexes m).destroyed ≡ false
    → (not ((k.mutexes m).owner == k.sched.current_task) || ((k.mutexes m).lock_count == 0)) ≡ false
    → (not ((k.mutexes m).lock_count - 1 == 0)) ≡ false
    → mutex_unlock_obj k m ≡ (Err.ok, hand_over k m)
unfolding mutex_unlock_obj
unlock_last k m fine live own last = rw (fine, live, own, last) refl

pub unlock-IsOwned : {k : Kernel} (m : ℕ) → IsOwned k m → IsOwned (mutex_unlock_obj k m).1 m
unfolding mutex_unlock_obj
unlock-IsOwned {k} m v = elim (Bool-cases ((m == 0) || (k.sched.current_task == 0))) [
  | inl bad ↦ rw bad v
  | inr fine ↦ elim (Bool-cases (k.mutexes m).destroyed) [
    | inl dead ↦ rw (fine, dead) v
    | inr live ↦
        elim (Bool-cases
          (not ((k.mutexes m).owner == k.sched.current_task) || ((k.mutexes m).lock_count == 0))) [
            | inl foreign ↦ rw (fine, live, foreign) v
            | inr own ↦ elim (Bool-cases (not ((k.mutexes m).lock_count - 1 == 0))) [
              | inl more ↦
                  rw (fine, live, own, more)
                    (owner-IsOwned k m (k.mutexes m).owner ((k.mutexes m).lock_count - 1) false
                      k.sched v.real v.sound (omega (arith, v.small)) (ground arith) (ground arith))
              | inr last ↦
                  subst (λ r. IsOwned r.1 m) (sym (unlock_last k m fine live own last))
                    (hand_over-IsOwned m v)
            ]
          ]
  ]
]

pub destroy-IsOwned : {k : Kernel} (m : ℕ) → IsOwned k m → IsOwned (mutex_destroy_obj k m).1 m
unfolding mutex_destroy_obj
destroy-IsOwned {k} m v =
    let nz = ne→==-false m 0 v.real in
    elim (Bool-cases (k.mutexes m).destroyed) [
      | inl dead ↦ rw (nz, dead) v
      | inr live ↦
          rw (nz, live)
            (record {
              sound =
                  (wake_all-WakesAll k.sched (waiters m) WaitResult.destroyed v.sound
                    (omega arith)).1.inv;
              real = v.real;
              small = ground arith;
              held = λ h. absurd (ground arith);
              unheld = λ h. ground arith;
              idle = λ l. absurd (ground arith);
            })
    ]
