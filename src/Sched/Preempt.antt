-- ===== src/Sched/Preempt.antt =====
-- Preemption: the ready tasks above the running one that the tick and the end of a trap look for, and
-- what a switch gives.
use tiny_rt.Base.{
  ℕ, ◌+◌, ◌-◌, ◌^◌, ◌≤◌, ◌<◌, ◌≡◌, ◌≢◌, refl, Bool, true, false, not, some, [], ◌==◌, ==→eq, arith,
  bit_and, Option, inl, inr, ◌⊎◌, Bool-cases, ◌&&◌, ◌||◌, eq-nil_of_empty,
}
use tiny_rt.Base.Bits.{
  test_bit, test_bit-and, test_bit-not, zero-test_bit, low-test_bit, bit_not, pow-lt,
}
use tiny_rt.Task.{TaskState, state_eq}
use tiny_rt.Sched.State.{Sched}
use tiny_rt.Sched.Inv.{Inv, Inv-of_eq, not-empty_of_link}
use tiny_rt.Sched.Pick.{IsIdleAwake, pick_next-IsChoice}
use tiny_rt.Sched.Switch.{
  has_above, sched_on_tick, sched_current_is_idle, switch, sched_has_higher_priority_ready,
  sched_try_reschedule_from_trap,
}

-- No task in a ready list has a higher priority than the current one.
abbrev pub Unranked : Sched → Type 0
Unranked k =
    (t p : ℕ)
    → (k.tasks t).state_list ≡ some p
    → p ≤ 31
    → (k.tasks t).priority ≤ (k.tasks k.current_task).priority

pub has_above-false :
    {k : Sched} (p q : ℕ) → Inv k → has_above k.mask p ≡ false → p < q → q < 32 → k.lists q ≡ []
unfolding has_above
has_above-false {k} p q v off gt lt =
    let m = bit_and k.mask (bit_not 32 (2 ^ (p + 1) - 1)) in
    let zeroed : m ≡ 0 = ==→eq m 0 (ground arith) in
    let bit : test_bit m q ≡ false = rw zeroed (zero-test_bit q) in
    eq-nil_of_empty (k.lists q) (
      ground (
        arith,
        bit,
        v.masked.bits q lt,
        test_bit-and k.mask (bit_not 32 (2 ^ (p + 1) - 1)) q,
        test_bit-not 32 (2 ^ (p + 1) - 1) q,
        pow-lt (p + 1) 32,
        low-test_bit (p + 1) q,
      ))

-- The tick changes nothing but the time slice.
pub on_tick_keeps :
    (s : Sched)
    → ((sched_on_tick s).1.lists ≡ s.lists)
      × ((sched_on_tick s).1.tasks ≡ s.tasks)
      × ((sched_on_tick s).1.mask ≡ s.mask)
      × ((sched_on_tick s).1.timeout_task_list ≡ s.timeout_task_list)
      × ((sched_on_tick s).1.current_task ≡ s.current_task)
      × ((sched_on_tick s).1.idle_task ≡ s.idle_task)
      × ((sched_on_tick s).1.lock_count ≡ s.lock_count)
unfolding sched_on_tick
on_tick_keeps s = ground arith

-- Where it asks for no other task, none that is ready has a higher priority.
pub on_tick-Unranked :
    (s : Sched) → Inv s → s.current_task ≢ 0 → (sched_on_tick s).0 ≡ false → Unranked s
unfolding sched_on_tick sched_current_is_idle
on_tick-Unranked s v nz off t p e le =
    let c = (s.tasks s.current_task).priority in
    ground (
      arith,
      v.placed.fits t p e,
      has_above-false c p v,
      not-empty_of_link t p v.linked e,
      v.masked.bits p,
      zero-test_bit p,
    )

-- Nor is there one where the trap handler sees none.
pub has_higher-Unranked :
    (s : Sched)
    → Inv s
    → s.current_task ≢ 0
    → sched_has_higher_priority_ready s ≡ false
    → Unranked s
unfolding sched_has_higher_priority_ready
has_higher-Unranked s v nz off t p e le =
    let c = (s.tasks s.current_task).priority in
    ground (arith, v.placed.fits t p e, has_above-false c p v, not-empty_of_link t p v.linked e)

-- A task other than NULL runs, and there is an idle task to choose.
pub record IsRunning (s : Sched) : Type 0 where
  pub inv : Inv s
  pub not_null : s.current_task ≢ 0
  pub runs : (s.tasks s.current_task).state ≡ TaskState.running
  pub awake : IsIdleAwake s

abbrev pub Gives : (Sched → Type 0) → Option Sched → Type 0
Gives P o = (s : Sched) × (o ≡ some s) × P s

-- A switch ends with the best task.
pub switch_lem :
    (s : Sched) → Inv s → IsIdleAwake s → Gives (λ s'. IsRunning s' × Unranked s') (switch s)
unfolding switch
switch_lem s v a =
    let (t, k, e, c) = pick_next-IsChoice s v a in
    (
      record k { current_task = t },
      rw (e, switch) refl,
      (
        record {
          inv = Inv-of_eq c.inv refl refl refl refl;
          not_null = c.not_null;
          runs = c.runs;
          awake = c.awake;
        },
        c.unranked,
      ),
    )

-- The second reschedule of a trap: it only improves on the task that runs, and a reschedule that is
-- due gives the best.
pub try_reschedule_lem :
    (s : Sched)
    → IsRunning s
    → (b : Bool) × (s' : Sched) × (sched_try_reschedule_from_trap s ≡ some (b, s'))
      × IsRunning s'
      × (Unranked s ⊎ (s.started ≡ true) × (s.resched_pending ≡ true) × (s.lock_count ≡ 0)
          → Unranked s')
unfolding sched_try_reschedule_from_trap
try_reschedule_lem s r =
    let k1 = record s { resched_pending = false } in
    let v1 : Inv k1 = Inv-of_eq r.inv refl refl refl refl in
    let r1 : IsRunning k1 = record {
      inv = v1;
      not_null = r.not_null;
      runs = r.runs;
      awake = r.awake;
    } in
    elim (Bool-cases
      (s.started && (not (s.current_task == 0) && (s.resched_pending && (s.lock_count == 0))))) [
        | inr stays ↦ (
          false,
          s,
          rw stays refl,
          r,
          λ due. elim due [ inl u ↦ u | inr (a, b, c) ↦ absurd (ground (arith, r.not_null)) ],
        )
        | inl due ↦
            elim (Bool-cases (
              not (state_eq (k1.tasks k1.current_task).state TaskState.running)
              || (sched_current_is_idle k1 || sched_has_higher_priority_ready k1))) [
                | inl better ↦
                    let (k2, e, (r2, u)) = switch_lem k1 v1 r.awake in
                    (true, k2, rw (due, better, e) refl, r2, λ d. u)
                | inr best ↦ (
                  false,
                  k1,
                  rw (due, best) refl,
                  r1,
                  λ d. has_higher-Unranked k1 v1 r.not_null (ground arith),
                )
              ]
      ]
