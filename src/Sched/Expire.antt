-- ===== src/Sched/Expire.antt =====
-- The timeouts that have expired: `sched_wake_expired`.
use tiny_rt.Base.{
  ℕ, zero, suc, ◌≤◌, ◌≡◌, ◌≢◌, refl, sym, subst, ap, ◌∙◌, true, false, ◌==◌, List, [], ◌∷◌, ◌++◌,
  arith, is_empty, eq-nil_of_empty, cons_of_not-empty, ==→eq, ==-false→ne, inl, inr, ◌⊎◌,
  Bool-cases, count, count-append, length, All, if◌then◌else◌,
}
use tiny_rt.Task.{TaskState, WaitResult}
use tiny_rt.Sched.{timer_expired}
use tiny_rt.Sched.State.{Sched}
use tiny_rt.Sched.Switch.{wake_expired_task, wake_expired_loop, sched_wake_expired}
use tiny_rt.Sched.Inv.{Inv}
use tiny_rt.Sched.Timeout.{Round, head-timed, wake_expired_task-Round}

-- The timeouts that are over by `now` have been served, and no others.
pub record Serves (now : ℕ) (k k' : Sched) : Type 0 where
  pub inv : Inv k'
  pub gone : List ℕ
  pub split : k.timeout_task_list ≡ gone ++ k'.timeout_task_list
  pub expired : All (λ t. timer_expired now (k.tasks t).wakeup ≡ true) gone
  pub stops :
      (k'.timeout_task_list ≡ [])
      ⊎ ((t : ℕ) × (ts : List ℕ) × (k'.timeout_task_list ≡ t ∷ ts)
          × (timer_expired now (k'.tasks t).wakeup ≡ false))
  pub woken :
      (t : ℕ)
      → count t gone ≢ 0
      → (k.tasks t).state ≡ TaskState.blocked
      → (k.tasks t).waiting_on_timer ≡ true
      → ((k'.tasks t).state ≡ TaskState.ready) × ((k'.tasks t).wait_result ≡ WaitResult.timeout)
  pub others : (t : ℕ) → count t gone ≡ 0 → k'.tasks t ≡ k.tasks t

Serves-none :
    {k : Sched} (now : ℕ)
    → Inv k
    → ((k.timeout_task_list ≡ [])
        ⊎ ((t : ℕ) × (ts : List ℕ) × (k.timeout_task_list ≡ t ∷ ts)
            × (timer_expired now (k.tasks t).wakeup ≡ false)))
    → Serves now k k
unfolding count
Serves-none now v stops = record {
  inv = v;
  gone = [];
  split = refl;
  expired = tt;
  stops = stops;
  woken = λ t some_gone b w. absurd (some_gone refl);
  others = λ t none_gone. refl;
}

count-zero : (t : ℕ) (xs ys : List ℕ) → count t (xs ++ ys) ≡ 0 → count t xs ≡ 0
count-zero t xs ys e = omega (arith, count-append t xs ys)

All-same :
    (now : ℕ) (k k' : Sched) (ts : List ℕ)
    → ((u : ℕ) → (k'.tasks u).wakeup ≡ (k.tasks u).wakeup)
    → All (λ t. timer_expired now (k'.tasks t).wakeup ≡ true) ts
    → All (λ t. timer_expired now (k.tasks t).wakeup ≡ true) ts
All-same now k k' [] e all = all
All-same now k k' (t ∷ ts) e (h, all) =
    (ap (timer_expired now) (sym (e t)) ∙ h, All-same now k k' ts e all)

Serves-next :
    {k k1 k' : Sched} (now t : ℕ) (ts : List ℕ)
    → Inv k
    → k.timeout_task_list ≡ t ∷ ts
    → timer_expired now (k.tasks t).wakeup ≡ true
    → Round k t ts k1
    → Serves now k1 k'
    → Serves now k k'
unfolding count
Serves-next {k} {k1} {k'} now t ts v q over r s =
    let (_, once) = head-timed t ts v q in
    let tail : ts ≡ s.gone ++ k'.timeout_task_list = sym r.left ∙ s.split in
    let last : count t s.gone ≡ 0 =
      count-zero t s.gone k'.timeout_task_list (ap (count t) (sym tail) ∙ once) in
    let kept = s.others t last in
    let first : (k.tasks t).state ≡ TaskState.blocked
        → (k.tasks t).waiting_on_timer ≡ true
        → ((k'.tasks t).state ≡ TaskState.ready) × ((k'.tasks t).wait_result ≡ WaitResult.timeout) =
      λ b w.
        let (a, c) = r.woken b w in
        (ap (λ x. x.state) kept ∙ a, ap (λ x. x.wait_result) kept ∙ c) in
    record {
      inv = s.inv;
      gone = t ∷ s.gone;
      split = q ∙ ap (λ l. t ∷ l) tail;
      expired = (over, All-same now k k1 s.gone r.wakeup s.expired);
      stops = s.stops;
      woken = λ u some_gone b w. elim (Bool-cases (u == t)) [
        | inl hit ↦
            subst
              (λ x.
                (k.tasks x).state ≡ TaskState.blocked
                → (k.tasks x).waiting_on_timer ≡ true
                → ((k'.tasks x).state ≡ TaskState.ready)
                  × ((k'.tasks x).wait_result ≡ WaitResult.timeout))
              (sym (==→eq u t hit)) first b w
        | inr miss ↦
            let ne = ==-false→ne u t miss in
            let other = r.others u ne in
            s.woken u (ground arith) (ap (λ x. x.state) other ∙ b)
              (ap (λ x. x.waiting_on_timer) other ∙ w)
      ];
      others = λ u none_gone. s.others u (ground arith) ∙ r.others u (ground arith);
    }

loop_zero : (now : ℕ) (k : Sched) → wake_expired_loop zero now k ≡ k
unfolding wake_expired_loop
loop_zero now k = refl

nil_of_length : (ts : List ℕ) → length ts ≤ 0 → ts ≡ []
nil_of_length [] le = refl
nil_of_length (t ∷ ts) le = absurd (omega arith)

shorter :
    (l l' : List ℕ) (t : ℕ) (ts : List ℕ) (n : ℕ)
    → l ≡ t ∷ ts
    → l' ≡ ts
    → length l ≤ suc n
    → length l' ≤ n
shorter l l' t ts n e e' le = ground (arith, e, e')

pub loop_nil :
    (f now : ℕ) (k : Sched) → k.timeout_task_list ≡ [] → wake_expired_loop (suc f) now k ≡ k
unfolding wake_expired_loop
loop_nil f now k e = ground (arith, e)

pub loop_cons :
    (f now : ℕ) (k : Sched) (t : ℕ) (ts : List ℕ)
    → k.timeout_task_list ≡ t ∷ ts
    → wake_expired_loop (suc f) now k ≡ (
        if timer_expired now (k.tasks t).wakeup
        then wake_expired_loop f now (wake_expired_task k t)
        else k)
unfolding wake_expired_loop
loop_cons f now k t ts e = ground (arith, e)

loop-Serves :
    (fuel now : ℕ) (k : Sched)
    → Inv k
    → length k.timeout_task_list ≤ fuel
    → Serves now k (wake_expired_loop fuel now k)
loop-Serves zero now k v enough =
    let q : k.timeout_task_list ≡ [] = nil_of_length k.timeout_task_list enough in
    subst (Serves now k) (sym (loop_zero now k)) (Serves-none now v (inl q))
loop-Serves (suc fuel) now k v enough = elim (Bool-cases (is_empty k.timeout_task_list)) [
  | inl nothing ↦
      let q = eq-nil_of_empty k.timeout_task_list nothing in
      subst (Serves now k) (sym (loop_nil fuel now k q)) (Serves-none now v (inl q))
  | inr something ↦
      let (t, ts, q) = cons_of_not-empty k.timeout_task_list something in
      subst (Serves now k) (sym (loop_cons fuel now k t ts q))
        (elim (Bool-cases (timer_expired now (k.tasks t).wakeup)) [
          | inl over ↦
              let r = wake_expired_task-Round t ts v q in
              let rest : length (wake_expired_task k t).timeout_task_list ≤ fuel =
                shorter k.timeout_task_list (wake_expired_task k t).timeout_task_list t ts fuel q
                  r.left enough in
              rw over (
                Serves-next now t ts v q over r
                  (loop-Serves fuel now (wake_expired_task k t) r.inv rest))
          | inr later ↦ rw later (Serves-none now v (inr (t, ts, q, later)))
        ])
]

-- With the invariant, `sched_wake_expired` ends. It takes a front part off the list of timeouts, of
-- which every deadline is over, and stops at an empty list or at a task whose deadline is not over.
-- Each task that it takes off and that was blocked with a timeout is ready with the result of a
-- timeout; the other tasks do not change, and the invariant is kept.
pub wake_expired-Serves : (k : Sched) → Inv k → Serves k.tick_count k (sched_wake_expired k)
unfolding sched_wake_expired
wake_expired-Serves k v = loop-Serves (length k.timeout_task_list) k.tick_count k v (ground arith)
