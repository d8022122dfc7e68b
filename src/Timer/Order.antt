-- ===== src/Timer/Order.antt =====
-- The order of the list of timers of src/kernel/timer.c.
use tiny_rt.Base.{
  ℕ, ◌+◌, ◌-◌, ◌%◌, ◌^◌, ◌≤◌, ◌<◌, ◌≡◌, ◌≢◌, refl, List, [], ◌∷◌, count, same, arith, ltb, leb, inl,
  inr, Bool-cases,
}
use tiny_rt.Sched.{is_before, timer_expired}
use tiny_rt.Kernel.{Timer}
use tiny_rt.Timer.{insert_timer}

-- How long after the moment 2 ^ 30 ticks before `now` a deadline is.
abbrev pub key : ℕ → ℕ → ℕ
key now deadline = (deadline + 2 ^ 32 + 2 ^ 30 - now) % 2 ^ 32

pub before_key :
    (now d e : ℕ)
    → now < 2 ^ 32
    → d < 2 ^ 32
    → e < 2 ^ 32
    → key now d < 2 ^ 31
    → key now e < 2 ^ 31
    → is_before d e ≡ ltb (key now d) (key now e)
before_key now d e hn hd he wd we = ground arith

pub expired_key :
    (now d : ℕ)
    → now < 2 ^ 32
    → d < 2 ^ 32
    → key now d < 2 ^ 31
    → timer_expired now d ≡ leb (key now d) (2 ^ 30)
expired_key now d hn hd wd = ground arith

pub key-add :
    (now d p : ℕ)
    → now < 2 ^ 32
    → d < 2 ^ 32
    → key now d ≤ 2 ^ 30
    → p < 2 ^ 30
    → key now ((d + p) % 2 ^ 32) ≡ key now d + p
key-add now d p hn hd w hp = omega arith

pub key-now :
    (now delay : ℕ)
    → now < 2 ^ 32
    → delay < 2 ^ 30
    → key now ((now + delay) % 2 ^ 32) ≡ 2 ^ 30 + delay
key-now now delay hn hd = omega arith

pub key-tick :
    (now d : ℕ)
    → now < 2 ^ 32
    → d < 2 ^ 32
    → key now d ≢ 0
    → key ((now + 1) % 2 ^ 32) d ≡ key now d - 1
key-tick now d hn hd nz = omega arith

-- Ordered by the numbers that `f` gives.
abbrev pub Sorted : (ℕ → ℕ) → List ℕ → Type 0
Sorted f [] = Unit
Sorted f (t ∷ ts) = ((u : ℕ) → count u ts ≢ 0 → f t ≤ f u) × Sorted f ts

pub Sorted-pred :
    (f g : ℕ → ℕ) (ts : List ℕ)
    → ((u : ℕ) → count u ts ≢ 0 → g u ≡ f u - 1)
    → Sorted f ts
    → Sorted g ts
unfolding count
Sorted-pred f g [] e s = tt
Sorted-pred f g (t ∷ ts) e (least, s) =
    let e_t : g t ≡ f t - 1 = e t (ground arith) in
    let rest : (u : ℕ) → count u ts ≢ 0 → g u ≡ f u - 1 = λ u c. e u (omega arith) in
    (λ u c. omega (arith, least u c, e_t, rest u c), Sorted-pred f g ts rest s)

pub Sorted-ext :
    (f g : ℕ → ℕ) (ts : List ℕ) → ((u : ℕ) → count u ts ≢ 0 → f u ≡ g u) → Sorted f ts → Sorted g ts
unfolding count
Sorted-ext f g [] e s = tt
Sorted-ext f g (t ∷ ts) e (least, s) =
    let e_t : f t ≡ g t = e t (ground arith) in
    let rest : (u : ℕ) → count u ts ≢ 0 → f u ≡ g u = λ u c. e u (omega arith) in
    (λ u c. omega (arith, least u c, e_t, rest u c), Sorted-ext f g ts rest s)

pub count-insert_timer :
    (timers : ℕ → Timer) (s t : ℕ) (qs : List ℕ)
    → count s (insert_timer timers t qs) ≡ same s t + count s qs
unfolding count insert_timer
count-insert_timer timers s t [] = omega arith
count-insert_timer timers s t (q ∷ qs) = ground (arith, count-insert_timer timers s t qs)

-- If `f` agrees with the comparison of deadlines, a timer is put in its place.
pub insert_timer-Sorted :
    (timers : ℕ → Timer) (f : ℕ → ℕ) (t : ℕ) (qs : List ℕ)
    → ((u : ℕ)
        → count u qs ≢ 0
        → is_before (timers t).deadline (timers u).deadline ≡ ltb (f t) (f u))
    → Sorted f qs
    → Sorted f (insert_timer timers t qs)
unfolding count insert_timer
insert_timer-Sorted timers f t [] e s = (λ u c. absurd (c refl), tt)
insert_timer-Sorted timers f t (q ∷ qs) e (least, s) =
    let here = e q (ground arith) in
    let rest : (u : ℕ)
        → count u qs ≢ 0
        → is_before (timers t).deadline (timers u).deadline ≡ ltb (f t) (f u) =
      λ u c. e u (omega arith) in
    elim (Bool-cases (is_before (timers t).deadline (timers q).deadline)) [
      | inl first ↦ rw first (λ u c. ground (arith, here, least u), (least, s))
      | inr later ↦ rw later (
        λ u c. ground (arith, here, least u, count-insert_timer timers u t qs),
        insert_timer-Sorted timers f t qs rest s,
      )
    ]
