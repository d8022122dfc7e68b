-- ===== src/Sched/Order.antt =====
-- The order of a wait list: by priority, and by age among equals.
use tiny_rt.Base.{
  false, ℕ, ◌≤◌, ◌<◌, ◌≡◌, ◌≢◌, refl, List, [], ◌∷◌, ◌++◌, arith, inl, inr, Bool-cases, ltb, All,
  ap, if_either, subst, sym, some,
}
use tiny_rt.Task.{Task, TaskState}
use tiny_rt.Sched.{insert_waiter, sched_block_current, suspended}
use tiny_rt.Sched.State.{Sched, modify, set_link, update}
use tiny_rt.Sched.Inv.{Inv}
use tiny_rt.Sched.Block.{block_current_lem, enqueued}

-- Only the priorities matter to the loop.
pub insert_waiter-ext :
    (tasks tasks' : ℕ → Task) (t : ℕ) (ws : List ℕ)
    → ((u : ℕ) → (tasks u).priority ≡ (tasks' u).priority)
    → insert_waiter tasks t ws ≡ insert_waiter tasks' t ws
unfolding insert_waiter
insert_waiter-ext tasks tasks' t [] same = refl
insert_waiter-ext tasks tasks' t (w ∷ ws) same =
    ground (arith, same t, same w, insert_waiter-ext tasks tasks' t ws same)

-- No task stands before one of a higher priority.
abbrev pub IsRanked : (ℕ → Task) → List ℕ → Type 0
IsRanked tasks [] = Unit {0}
IsRanked tasks (w ∷ ws) = All (λ u. (tasks u).priority ≤ (tasks w).priority) ws × IsRanked tasks ws

-- Where a new waiter comes to stand.
pub record IsPlace (tasks : ℕ → Task) (t : ℕ) (ws ws' : List ℕ) : Type 0 where
  pub before : List ℕ
  pub behind : List ℕ
  pub split : ws ≡ before ++ behind
  pub result : ws' ≡ before ++ t ∷ behind
  pub older : All (λ u. (tasks t).priority ≤ (tasks u).priority) before
  pub lower : All (λ u. (tasks u).priority < (tasks t).priority) behind

lower-All :
    (tasks : ℕ → Task) (n m : ℕ) (ws : List ℕ)
    → n < m
    → All (λ u. (tasks u).priority ≤ n) ws
    → All (λ u. (tasks u).priority < m) ws
lower-All tasks n m [] lt all = all
lower-All tasks n m (w ∷ ws) lt (h, all) = (omega arith, lower-All tasks n m ws lt all)

pub insert_waiter-IsPlace :
    (tasks : ℕ → Task) (t : ℕ) (ws : List ℕ)
    → IsRanked tasks ws
    → IsPlace tasks t ws (insert_waiter tasks t ws)
unfolding insert_waiter
insert_waiter-IsPlace tasks t [] r = record {
  before = [];
  behind = [];
  split = refl;
  result = refl;
  older = tt;
  lower = tt;
}
insert_waiter-IsPlace tasks t (w ∷ ws) (top, r) =
    elim (Bool-cases (ltb (tasks w).priority (tasks t).priority)) [
      | inl goes ↦ rw goes (record {
        before = [];
        behind = w ∷ ws;
        split = refl;
        result = refl;
        older = tt;
        lower = (
          ground arith,
          lower-All tasks (tasks w).priority (tasks t).priority ws (ground arith) top,
        );
      })
      | inr stays ↦
          let p = insert_waiter-IsPlace tasks t ws r in
          rw stays (record {
            before = w ∷ p.before;
            behind = p.behind;
            split = ap (λ l. w ∷ l) p.split;
            result = ap (λ l. w ∷ l) p.result;
            older = (ground arith, p.older);
            lower = p.lower;
          })
    ]

All-insert_waiter :
    (P : ℕ → Type 0) (tasks : ℕ → Task) (t : ℕ) (ws : List ℕ)
    → P t
    → All P ws
    → All P (insert_waiter tasks t ws)
unfolding insert_waiter
All-insert_waiter P tasks t [] p all = (p, all)
All-insert_waiter P tasks t (w ∷ ws) p (q, all) =
    if_either (All P) (ltb (tasks w).priority (tasks t).priority) (p, (q, all))
      (q, All-insert_waiter P tasks t ws p all)

below-All :
    (tasks : ℕ → Task) (n m : ℕ) (ws : List ℕ)
    → n ≤ m
    → All (λ u. (tasks u).priority ≤ n) ws
    → All (λ u. (tasks u).priority ≤ m) ws
below-All tasks n m [] le all = all
below-All tasks n m (w ∷ ws) le (h, all) = (omega arith, below-All tasks n m ws le all)

pub insert_waiter-IsRanked :
    (tasks : ℕ → Task) (t : ℕ) (ws : List ℕ)
    → IsRanked tasks ws
    → IsRanked tasks (insert_waiter tasks t ws)
unfolding insert_waiter
insert_waiter-IsRanked tasks t [] r = (tt, tt)
insert_waiter-IsRanked tasks t (w ∷ ws) (top, r) =
    elim (Bool-cases (ltb (tasks w).priority (tasks t).priority)) [
      | inl goes ↦ rw goes (
        (ground arith, below-All tasks (tasks w).priority (tasks t).priority ws (ground arith) top),
        (top, r),
      )
      | inr stays ↦ rw stays (
        All-insert_waiter (λ u. (tasks u).priority ≤ (tasks w).priority) tasks t ws (ground arith)
            top,
        insert_waiter-IsRanked tasks t ws r,
      )
    ]

ranked_same :
    (tasks tasks' : ℕ → Task) (n : ℕ) (ws : List ℕ)
    → ((u : ℕ) → (tasks u).priority ≡ (tasks' u).priority)
    → All (λ u. (tasks u).priority ≤ n) ws
    → All (λ u. (tasks' u).priority ≤ n) ws
ranked_same tasks tasks' n [] same all = all
ranked_same tasks tasks' n (w ∷ ws) same (h, all) =
    (ground (arith, same w), ranked_same tasks tasks' n ws same all)

pub IsRanked-ext :
    (tasks tasks' : ℕ → Task) (ws : List ℕ)
    → ((u : ℕ) → (tasks u).priority ≡ (tasks' u).priority)
    → IsRanked tasks ws
    → IsRanked tasks' ws
IsRanked-ext tasks tasks' [] same r = r
IsRanked-ext tasks tasks' (w ∷ ws) same (top, r) = (
  subst (λ n. All (λ u. (tasks' u).priority ≤ n) ws) (same w)
      (ranked_same tasks tasks' (tasks w).priority ws same top),
  IsRanked-ext tasks tasks' ws same r,
)

-- The current task has gone to wait in the list `h`.
pub record Blocks (k : Sched) (h : ℕ) (k' : Sched) : Type 0 where
  pub place : IsPlace k.tasks k.current_task (k.lists h) (k'.lists h)
  pub ranked : IsRanked k'.tasks (k'.lists h)
  pub blocked : (k'.tasks k.current_task).state ≡ TaskState.blocked
  pub linked : (k'.tasks k.current_task).state_list ≡ some h
  pub others : (u : ℕ) → u ≢ k.current_task → k'.tasks u ≡ k.tasks u
  pub lists : (g : ℕ) → g ≢ h → k'.lists g ≡ k.lists g

-- With the invariant, `sched_block_current` blocks the running current task and links it into a
-- list of waiters that is ordered by priority: behind every waiter of its priority or a higher one,
-- before every one of a lower priority. The list stays ordered. Of the task nothing else changes, but
-- that it waits for no timer, and no other task, no other list and no other part of the scheduler's
-- state changes.
pub block_current-Blocks :
    (k : Sched) (h : ℕ)
    → Inv k
    → k.current_task ≢ 0
    → (k.tasks k.current_task).state ≡ TaskState.running
    → IsRanked k.tasks (k.lists h)
    → let k' = sched_block_current k h in
      Blocks k h k'
      × (k'.tasks k.current_task ≡ record (k.tasks k.current_task) {
        state = TaskState.blocked;
        waiting_on_timer = false;
        state_list = some h;
      })
      × (k' ≡ record k { tasks = k'.tasks; lists = k'.lists })
block_current-Blocks k h v nz run r =
    let t = k.current_task in
    let k1 = modify k t suspended in
    let same : (u : ℕ) → (k.tasks u).priority ≡ (k1.tasks u).priority = λ u. ground arith in
    let k2 = modify k1 t (set_link (some h)) in
    let new = insert_waiter k.tasks t (k.lists h) in
    let at : update k.lists h (insert_waiter k1.tasks t (k.lists h)) h ≡ new =
      ground (arith, insert_waiter-ext k.tasks k1.tasks t (k.lists h) same) in
    let blocks : Blocks k h (enqueued k1 t h) = record {
      place =
          subst (IsPlace k.tasks t (k.lists h)) (sym at)
            (insert_waiter-IsPlace k.tasks t (k.lists h) r);
      ranked = subst (IsRanked k2.tasks) (sym at) (
          IsRanked-ext k.tasks k2.tasks new (λ u. ground arith)
            (insert_waiter-IsRanked k.tasks t (k.lists h) r));
      blocked = ground arith;
      linked = ground arith;
      others = λ u ne. ground arith;
      lists = λ g ne. ground arith;
    } in
    rw (block_current_lem h v nz run) (blocks, ground arith, refl)
