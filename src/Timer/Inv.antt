-- ===== src/Timer/Inv.antt =====
-- The invariant of the timers of src/kernel/timer.c, which the calls on a timer keep.
use tiny_rt.Base.{
  ℕ, ◌+◌, ◌-◌, ◌%◌, ◌^◌, ◌<◌, ◌≡◌, ◌≢◌, refl, ap, ◌∙◌, true, false, List, [], ◌∷◌, count, remove,
  arith, if◌then◌else◌, ◌==◌, inl, inr, Bool-cases, ◌||◌, count-remove, if_either,
}
use tiny_rt.Sched.State.{update}
use tiny_rt.Kernel.{Kernel, Timer}
use tiny_rt.Timer.{
  timer_insert_locked, set_timer, unlink_timer, timer_start_ticks_obj, timer_stop_obj,
  timer_destroy_obj, timer_setup_obj, cleared_timer,
}
use tiny_rt.Timer.Order.{
  key, before_key, key-now, key-tick, Sorted, Sorted-pred, Sorted-ext, count-insert_timer,
  insert_timer-Sorted,
}

-- Where a timer's deadline is, seen from now.
abbrev pub due : Kernel → ℕ → ℕ
due k t = key k.sched.tick_count (k.timers t).deadline

-- A timer is linked if and only if it is active, and once. The deadlines are less than 2 ^ 30 ticks
-- from now, or so many ago, the periods are less than that, and the list is in the order of the
-- deadlines.
pub record IsTimely (k : Kernel) : Type 0 where
  pub now_word : k.sched.tick_count < 2 ^ 32
  pub linked : (t : ℕ) → count t k.timer_list ≡ (if (k.timers t).active then 1 else 0)
  pub null : (k.timers 0).active ≡ false
  pub words : (t : ℕ) → (k.timers t).active ≡ true → (k.timers t).deadline < 2 ^ 32
  pub window : (t : ℕ) → (k.timers t).active ≡ true → due k t < 2 ^ 31
  pub periods : (t : ℕ) → (k.timers t).active ≡ true → (k.timers t).period < 2 ^ 30
  pub sorted : Sorted (due k) k.timer_list

-- The same of all timers but one, which is not linked.
pub record IsTimelyBut (t : ℕ) (k : Kernel) : Type 0 where
  pub now_word : k.sched.tick_count < 2 ^ 32
  pub absent : count t k.timer_list ≡ 0
  pub linked : (u : ℕ) → u ≢ t → count u k.timer_list ≡ (if (k.timers u).active then 1 else 0)
  pub null : t ≢ 0 → (k.timers 0).active ≡ false
  pub words : (u : ℕ) → u ≢ t → (k.timers u).active ≡ true → (k.timers u).deadline < 2 ^ 32
  pub window : (u : ℕ) → u ≢ t → (k.timers u).active ≡ true → due k u < 2 ^ 31
  pub periods : (u : ℕ) → u ≢ t → (k.timers u).active ≡ true → (k.timers u).period < 2 ^ 30
  pub sorted : Sorted (due k) k.timer_list

count-remove-le : (u t : ℕ) (ts : List ℕ) → count u (remove t ts) ≢ 0 → count u ts ≢ 0
count-remove-le u t ts c = omega (arith, count-remove u t ts)

Sorted-remove : (f : ℕ → ℕ) (t : ℕ) (ts : List ℕ) → Sorted f ts → Sorted f (remove t ts)
unfolding remove
Sorted-remove f t [] s = tt
Sorted-remove f t (x ∷ xs) (least, s) =
    if_either (Sorted f) (t == x) s
      (λ u c. least u (count-remove-le u t xs c), Sorted-remove f t xs s)

pub unlink-IsTimelyBut : {k : Kernel} (t : ℕ) → IsTimely k → IsTimelyBut t (unlink_timer k t)
unlink-IsTimelyBut {k} t v = record {
  now_word = v.now_word;
  absent = ground (arith, count-remove t t k.timer_list, v.linked t);
  linked = λ u ne. ground (arith, count-remove u t k.timer_list, v.linked u);
  null = λ nz. v.null;
  words = λ u ne. v.words u;
  window = λ u ne. v.window u;
  periods = λ u ne. v.periods u;
  sorted = Sorted-remove (due k) t k.timer_list v.sorted;
}

inactive-IsTimelyBut :
    {k : Kernel} (t : ℕ) → IsTimely k → (k.timers t).active ≡ false → IsTimelyBut t k
inactive-IsTimelyBut {k} t v off = record {
  now_word = v.now_word;
  absent = ground (arith, v.linked t, off);
  linked = λ u ne. v.linked u;
  null = λ nz. v.null;
  words = λ u ne. v.words u;
  window = λ u ne. v.window u;
  periods = λ u ne. v.periods u;
  sorted = v.sorted;
}

pub active_of_count :
    {k : Kernel} {t : ℕ} (u : ℕ)
    → IsTimelyBut t k
    → count u k.timer_list ≢ 0
    → (u ≢ t) × ((k.timers u).active ≡ true)
active_of_count {k} {t} u v c =
    let ne : u ≢ t = λ e. c (ap (λ x. count x k.timer_list) e ∙ v.absent) in
    (ne, ground (arith, v.linked u ne, c))

-- An unlinked timer is written and stays unlinked.
pub idle-IsTimely :
    {k : Kernel} (t : ℕ) (new : Timer)
    → IsTimelyBut t k
    → new.active ≡ false
    → IsTimely (set_timer k t new)
idle-IsTimely {k} t new v off = record {
  now_word = v.now_word;
  linked = λ u. ground (arith, v.linked u, v.absent, off);
  null = ground (arith, v.null, off);
  words = λ u on. ground (arith, v.words u, off);
  window = λ u on. ground (arith, v.window u, off);
  periods = λ u on. ground (arith, v.periods u, off);
  sorted =
      Sorted-ext (due k) (due (set_timer k t new)) k.timer_list
        (λ u c. ground (arith, (active_of_count u v c).0)) v.sorted;
}

-- An unlinked timer is written and linked.
pub place-IsTimely :
    {k : Kernel} (t : ℕ) (new : Timer)
    → IsTimelyBut t k
    → t ≢ 0
    → new.active ≡ true
    → new.deadline < 2 ^ 32
    → key k.sched.tick_count new.deadline < 2 ^ 31
    → new.period < 2 ^ 30
    → IsTimely (timer_insert_locked (set_timer k t new) t)
unfolding timer_insert_locked
place-IsTimely {k} t new v nz on word near short =
    let k1 = set_timer k t new in
    let c = λ (u : ℕ). count-insert_timer k1.timers u t k.timer_list in
    record {
      now_word = v.now_word;
      linked = λ u. ground (arith, c u, v.linked u, v.absent, on);
      null = ground (arith, v.null, nz);
      words = λ u a. ground (arith, v.words u, word);
      window = λ u a. ground (arith, v.window u, near);
      periods = λ u a. ground (arith, v.periods u, short);
      sorted =
          insert_timer-Sorted k1.timers (due k1) t k.timer_list
            (λ u n.
              let (ne, a) = active_of_count u v n in
              let own : update k.timers t new t ≡ new = ground arith in
              let other : update k.timers t new u ≡ k.timers u = ground (arith, ne) in
              rw (own, other)
                (before_key k.sched.tick_count new.deadline (k.timers u).deadline v.now_word word
                  (v.words u ne a) near (v.window u ne a)))
            (Sorted-ext (due k) (due k1) k.timer_list
              (λ u n. ground (arith, (active_of_count u v n).0)) v.sorted);
    }

-- What a start writes.
abbrev pub started : Kernel → ℕ → ℕ → ℕ → Timer
started k t delay period = record (k.timers t) {
  deadline = (k.sched.tick_count + delay) % 2 ^ 32;
  period = period;
  active = true;
}

pub start-IsTimely :
    {k : Kernel} (t delay period : ℕ)
    → IsTimely k
    → delay < 2 ^ 30
    → period < 2 ^ 30
    → IsTimely (timer_start_ticks_obj k t delay period)
unfolding timer_start_ticks_obj
start-IsTimely {k} t delay period v hd hp =
    let near : key k.sched.tick_count ((k.sched.tick_count + delay) % 2 ^ 32) < 2 ^ 31 =
      omega (arith, key-now k.sched.tick_count delay v.now_word hd) in
    elim (Bool-cases ((t == 0) || ((k.timers t).callback == 0))) [
      | inl bad ↦ rw bad v
      | inr good ↦ elim (Bool-cases (k.timers t).active) [
        | inl on ↦
            rw (good, on)
              (place-IsTimely t (started k t delay period) (unlink-IsTimelyBut t v) (ground arith)
                refl (omega arith) near hp)
        | inr off ↦
            rw (good, off)
              (place-IsTimely t (started k t delay period) (inactive-IsTimelyBut t v off)
                (ground arith) refl (omega arith) near hp)
      ]
    ]

pub stop-IsTimely : {k : Kernel} (t : ℕ) → IsTimely k → IsTimely (timer_stop_obj k t)
unfolding timer_stop_obj
stop-IsTimely {k} t v = elim (Bool-cases (t == 0)) [
  | inl z ↦ rw z v
  | inr nz ↦ elim (Bool-cases (k.timers t).active) [
    | inl on ↦
        rw (nz, on)
          (idle-IsTimely t (record (k.timers t) { active = false }) (unlink-IsTimelyBut t v) refl)
    | inr off ↦ rw (nz, off) v
  ]
]

pub setup-IsTimely :
    {k : Kernel} (t callback arg : ℕ)
    → IsTimely k
    → (k.timers t).active ≡ false
    → IsTimely (timer_setup_obj k t callback arg)
unfolding timer_setup_obj
setup-IsTimely {k} t callback arg v off =
    if_either IsTimely (t == 0) v (idle-IsTimely t _ (inactive-IsTimelyBut t v off) refl)

pub destroy-IsTimely : {k : Kernel} (t : ℕ) → IsTimely k → IsTimely (timer_destroy_obj k t).1
unfolding timer_destroy_obj
destroy-IsTimely {k} t v = elim (Bool-cases (t == 0)) [
  | inl z ↦ rw z v
  | inr nz ↦ elim (Bool-cases (k.timers t).active) [
    | inl on ↦ rw (nz, on) (idle-IsTimely t cleared_timer (unlink-IsTimelyBut t v) refl)
    | inr off ↦
        let lone : (count t k.timer_list == 0) ≡ true = ground (arith, v.linked t, off) in
        rw (nz, off, lone) (idle-IsTimely t cleared_timer (inactive-IsTimelyBut t v off) refl)
  ]
]

-- The next tick of the clock.
abbrev pub ticked : Kernel → Kernel
ticked k = record k { sched = record k.sched { tick_count = (k.sched.tick_count + 1) % 2 ^ 32 } }

pub tick-IsTimely :
    {k : Kernel}
    → IsTimely k
    → ((t : ℕ) → (k.timers t).active ≡ true → due k t ≢ 0)
    → IsTimely (ticked k)
tick-IsTimely {k} v recent =
    let e : (t : ℕ) → (k.timers t).active ≡ true → due (ticked k) t ≡ due k t - 1 = λ t on.
      key-tick k.sched.tick_count (k.timers t).deadline v.now_word (v.words t on) (recent t on) in
    record {
      now_word = omega arith;
      linked = v.linked;
      null = v.null;
      words = v.words;
      window = λ t on. omega (arith, e t on, v.window t on);
      periods = v.periods;
      sorted =
          Sorted-pred (due k) (due (ticked k)) k.timer_list
            (λ u c. e u (ground (arith, v.linked u, c))) v.sorted;
    }
