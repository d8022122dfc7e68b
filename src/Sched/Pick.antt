-- ===== src/Sched/Pick.antt =====
-- The choice of the next task: it never meets a corrupt ready list, and no ready task outranks it.
use tiny_rt.Base.{
  ℕ, ◌-◌, ◌≤◌, ◌<◌, ◌≡◌, ◌≢◌, refl, true, false, not, ◌&&◌, none, some, List, [], ◌∷◌, ◌==◌, arith,
  inl, inr, ◌⊎◌, Option-cases, Bool-cases, eq-nil_of_empty, cons_of_not-empty, ==→eq, ==-false→ne,
}
use tiny_rt.Base.Bits.{zero-test_bit, clz, clz-highest, clz-above}
use tiny_rt.Task.{TaskState, state_eq}
use tiny_rt.Sched.{cleared, sched_ready_enqueue}
use tiny_rt.Sched.State.{Sched, modify, unlink, set_state}
use tiny_rt.Sched.Switch.{sched_ready_pop_highest, requeue_current, choose, sched_pick_next}
use tiny_rt.Sched.Inv.{Inv, not-empty_of_link}
use tiny_rt.Sched.Ready.{
  enqueue-Inv, modify_unlinked-Inv, running-unlinked, unlink_ready-Inv, ready-place,
}
use tiny_rt.Sched.Wake.{head-linked}

-- The ready list `p` is the highest that is not empty, and `t` its first task.
pub record IsTop (k : Sched) (p t : ℕ) (ts : List ℕ) : Type 0 where
  pub low : p < 32
  pub first : k.lists p ≡ t ∷ ts
  pub above : (q : ℕ) → p < q → q < 32 → k.lists q ≡ []

abbrev pub NoneReady : Sched → Type 0
NoneReady k = (p : ℕ) → p < 32 → k.lists p ≡ []

pop_of_zero : (k : Sched) → (k.mask == 0) ≡ true → sched_ready_pop_highest k ≡ some (0, k)
unfolding sched_ready_pop_highest
pop_of_zero k z = rw z

pop_of_first :
    (k : Sched) {t : ℕ} {ts : List ℕ}
    → (k.mask == 0) ≡ false
    → k.lists (31 - clz 32 k.mask) ≡ t ∷ ts
    → sched_ready_pop_highest k ≡ some (t, cleared (unlink k t) (31 - clz 32 k.mask))
unfolding sched_ready_pop_highest
pop_of_first k nz e = rw (nz, e, sched_ready_pop_highest)

-- With the invariant `sched_ready_pop_highest` finds NULL exactly where no task is ready, and else
-- takes the first task of the highest list.
pub pop_highest_cases :
    {k : Sched}
    → Inv k
    → (NoneReady k × (sched_ready_pop_highest k ≡ some (0, k)))
      ⊎ ((p : ℕ) × (t : ℕ) × (ts : List ℕ) × IsTop k p t ts
          × (sched_ready_pop_highest k ≡ some (t, cleared (unlink k t) p)))
pop_highest_cases {k} v = elim (Bool-cases (k.mask == 0)) [
  | inl z ↦
      let m : k.mask ≡ 0 = ==→eq k.mask 0 z in
      inl (
        λ p lt. eq-nil_of_empty (k.lists p) (ground (arith, v.masked.bits p lt, zero-test_bit p)),
        pop_of_zero k z,
      )
  | inr nz ↦
      let p = 31 - clz 32 k.mask in
      let (lt, on) = clz-highest 32 k.mask v.masked.small (==-false→ne k.mask 0 nz) in
      let low : p < 32 = omega arith in
      let (t, ts, first) = cons_of_not-empty (k.lists p) (ground (arith, v.masked.bits p low)) in
      let above = λ (q : ℕ) (gt : p < q) (h : q < 32).
        eq-nil_of_empty (k.lists q)
          (ground (arith, v.masked.bits q h, clz-above 32 k.mask q gt h)) in
      inr (p, t, ts, record { low = low; first = first; above = above }, pop_of_first k nz first)
]

-- The running task back in its list.
pub requeue_current-Inv : {k : Sched} → Inv k → Inv (requeue_current k)
unfolding requeue_current
requeue_current-Inv {k} v =
    let c = k.current_task in
    let k1 = modify k c (set_state TaskState.ready) in
    elim (Bool-cases (not (c == 0) && state_eq (k.tasks c).state TaskState.running)) [
      | inl run ↦
          let free = running-unlinked c v (ground arith) in
          let v1 : Inv k1 = modify_unlinked-Inv c (set_state TaskState.ready) v free free refl in
          elim (Bool-cases (c == k.idle_task)) [
            | inl idle ↦ rw (run, idle) v1
            | inr other ↦ rw (run, other) (enqueue-Inv c v1 (ground arith))
          ]
      | inr stop ↦ rw stop v
    ]

-- There is an idle task, and it is never blocked or deleted.
abbrev pub IsIdleAwake : Sched → Type 0
IsIdleAwake k =
    (k.idle_task ≢ 0)
    × (((k.tasks k.idle_task).state ≡ TaskState.ready)
        ⊎ ((k.tasks k.idle_task).state ≡ TaskState.running))

requeue_current-IsIdleAwake : (k : Sched) → IsIdleAwake k → IsIdleAwake (requeue_current k)
unfolding requeue_current sched_ready_enqueue
requeue_current-IsIdleAwake k a = ground arith

-- With no ready task, an idle task is in no list.
idle-unlinked :
    {k : Sched} → Inv k → IsIdleAwake k → NoneReady k → (k.tasks k.idle_task).state_list ≡ none
idle-unlinked {k} v (nz, inr running) empty = running-unlinked k.idle_task v running
idle-unlinked {k} v (nz, inl ready) empty = elim (Option-cases (k.tasks k.idle_task).state_list) [
  | inl e ↦ e
  | inr (h, e) ↦
      let (le, own) = ready-place k.idle_task h v ready e in
      absurd (ground (arith, not-empty_of_link k.idle_task h v.linked e, empty h (omega arith)))
]

-- What a choice gives: the task runs, the idle task can still be chosen, and no task in a ready list has a higher priority.
pub record IsChoice (k' : Sched) (t : ℕ) : Type 0 where
  pub inv : Inv k'
  pub not_null : t ≢ 0
  pub runs : (k'.tasks t).state ≡ TaskState.running
  pub awake : IsIdleAwake k'
  pub unranked :
      (s p : ℕ)
      → (k'.tasks s).state_list ≡ some p
      → p ≤ 31
      → (k'.tasks s).priority ≤ (k'.tasks t).priority

idle-IsChoice :
    {k : Sched}
    → Inv k
    → IsIdleAwake k
    → NoneReady k
    → IsChoice (modify k k.idle_task (set_state TaskState.running)) k.idle_task
idle-IsChoice {k} v a empty =
    let free = idle-unlinked v a empty in
    let w = modify_unlinked-Inv k.idle_task (set_state TaskState.running) v free free refl in
    record {
      inv = w;
      not_null = a.0;
      runs = ground arith;
      awake = (a.0, inr (ground arith));
      unranked = λ s p e le.
          absurd (ground (arith, not-empty_of_link s p w.linked e, empty p (omega arith)));
    }

top-IsChoice :
    {k : Sched} {p t : ℕ} {ts : List ℕ}
    → Inv k
    → IsIdleAwake k
    → IsTop k p t ts
    → IsChoice (modify (cleared (unlink k t) p) t (set_state TaskState.running)) t
top-IsChoice {k} {p} {t} v a top =
    let (e, nz) = head-linked p t v.linked top.first in
    let v1 = unlink_ready-Inv t p v e top.low in
    let free : ((cleared (unlink k t) p).tasks t).state_list ≡ none = ground arith in
    record {
      inv = modify_unlinked-Inv t (set_state TaskState.running) v1 free free refl;
      not_null = nz;
      runs = ground arith;
      awake = ground arith;
      unranked = λ s q d le. ground (
        arith,
        not-empty_of_link s q v.linked,
        top.above q,
        v.placed.fits s q,
        v.placed.fits t p,
      );
    }

-- With the invariant and an idle task that is neither blocked nor deleted, `sched_pick_next` never
-- runs into the corrupt ready list. It picks a task other than NULL, which is then running, keeps
-- the invariant and such an idle task, and leaves no task in a ready list with a higher priority than
-- the one it picked.
pub pick_next-IsChoice :
    (k : Sched)
    → Inv k
    → IsIdleAwake k
    → (t : ℕ) × (k' : Sched) × (sched_pick_next k ≡ some (t, k')) × IsChoice k' t
unfolding sched_pick_next choose
pick_next-IsChoice k v a =
    let q = requeue_current k in
    let w = requeue_current-Inv v in
    let b = requeue_current-IsIdleAwake k a in
    elim (pop_highest_cases w) [
      | inl (empty, e) ↦ (
        q.idle_task,
        modify q q.idle_task (set_state TaskState.running),
        ground (arith, e),
        idle-IsChoice w b empty,
      )
      | inr (p, t, ts, top, e) ↦ (
        t,
        modify (cleared (unlink q t) p) t (set_state TaskState.running),
        ground (arith, e, head-linked p t w.linked top.first),
        top-IsChoice w b top,
      )
    ]
