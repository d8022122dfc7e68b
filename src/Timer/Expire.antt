-- ===== src/Timer/Expire.antt =====
-- `timer_run_expired` of src/kernel/timer.c: the loop ends, and every timer whose time has come is
-- served.
use tiny_rt.Base.{
  ℕ, zero, suc, ◌+◌, ◌*◌, ◌^◌, ◌<◌, ◌≡◌, ◌≢◌, refl, ap, ◌∙◌, sym, subst, Bool, true, false, not,
  List, [], ◌∷◌, count, same, arith, if◌then◌else◌, ◌==◌, inl, inr, Bool-cases, ◌⊎◌, ◌&&◌, some,
  ==→eq, ==-false→ne,
}
use tiny_rt.Sched.{timer_expired}
use tiny_rt.Kernel.{Kernel, Timer}
use tiny_rt.Timer.{fire, timer_run_expired}
use tiny_rt.Timer.Order.{key, expired_key, key-add, Sorted}
use tiny_rt.Timer.Inv.{due, IsTimely}
use tiny_rt.Timer.Fire.{
  late, head-active, head_due, rested, moved, restarted, fire_once, fire_again, restarted_timers,
  rested-IsTimely, restarted-IsTimely,
}

-- A timer that its callback is to be run for.
abbrev pub is_due : ℕ → Timer → Bool
is_due now timer = timer.active && timer_expired now timer.deadline

-- What becomes of a timer: nothing if it is not due; if it is, one without a period is inactive, and
-- one with a period has its deadline moved by a positive multiple of the period.
abbrev pub Fate : ℕ → Timer → Timer → Type 0
Fate now a b =
    ((is_due now a ≡ false) × (b ≡ a))
    ⊎ ((is_due now a ≡ true) × (a.period ≡ 0) × (b ≡ record a { active = false }))
    ⊎ ((is_due now a ≡ true)
        × (a.period ≢ 0)
        × ((n : ℕ) × (d : ℕ) × (b ≡ record a { deadline = d })
            × (key now d ≡ key now a.deadline + (n * a.period + a.period))))

-- The timers after the loop.
pub record IsServed (k k' : Kernel) : Type 0 where
  pub timely : IsTimely k'
  pub now : k'.sched.tick_count ≡ k.sched.tick_count
  pub none_due : (t : ℕ) → is_due k.sched.tick_count (k'.timers t) ≡ false
  pub fates : (t : ℕ) → Fate k.sched.tick_count (k.timers t) (k'.timers t)

-- A callback that leaves the timers and the time as they are.
pub record IsQuiet (run : ℕ → ℕ → Kernel → Kernel) : Type 0 where
  pub timers : (c a : ℕ) (k : Kernel) → (run c a k).timers ≡ k.timers
  pub timer_list : (c a : ℕ) (k : Kernel) → (run c a k).timer_list ≡ k.timer_list
  pub now : (c a : ℕ) (k : Kernel) → (run c a k).sched.tick_count ≡ k.sched.tick_count

pub IsTimely-of_eq :
    {k k' : Kernel}
    → IsTimely k
    → k'.timers ≡ k.timers
    → k'.timer_list ≡ k.timer_list
    → k'.sched.tick_count ≡ k.sched.tick_count
    → IsTimely k'
IsTimely-of_eq {k} {k'} v timers list now = record {
  now_word = rw now v.now_word;
  linked = rw (timers, list) v.linked;
  null = rw timers v.null;
  words = rw timers v.words;
  window = rw (timers, now) v.window;
  periods = rw timers v.periods;
  sorted = rw (timers, list, now) v.sorted;
}

Fate-none : (now : ℕ) (a b : Timer) → is_due now a ≡ false → Fate now a b → b ≡ a
Fate-none now a b off (inl (_, e)) = e
Fate-none now a b off (inr (inl (on, _, _))) = absurd (ground (arith, on, off))
Fate-none now a b off (inr (inr (on, _, _))) = absurd (ground (arith, on, off))

-- The first run of a callback, and what becomes of its timer afterwards.
Fate-rested :
    (now : ℕ) (a b : Timer)
    → is_due now a ≡ true
    → a.period ≡ 0
    → Fate now (record a { active = false }) b
    → Fate now a b
Fate-rested now a b on z f = inr (inl (on, z, Fate-none now (record a { active = false }) b refl f))

Fate-moved :
    (now : ℕ) (a b : Timer) (d : ℕ)
    → is_due now a ≡ true
    → a.period ≢ 0
    → key now d ≡ key now a.deadline + a.period
    → Fate now (record a { deadline = d }) b
    → Fate now a b
Fate-moved now a b d on nz e (inl (_, same)) = inr (inr (on, nz, (0, d, same, omega (arith, e))))
Fate-moved now a b d on nz e (inr (inl (_, z, _))) = absurd (nz z)
Fate-moved now a b d on nz e (inr (inr (_, _, (n, d', same, e')))) =
    inr (inr (on, nz, (suc n, d', same, omega (arith, e, e'))))

-- The end of the loop: the head of the list, if there is one, is not due.
stop-IsServed :
    (k : Kernel)
    → IsTimely k
    → ((t : ℕ) → (k.timers t).active ≡ true → 2 ^ 30 < due k t)
    → IsServed k k
stop-IsServed k v far =
    let none_due : (t : ℕ) → is_due k.sched.tick_count (k.timers t) ≡ false = λ t.
      elim (Bool-cases (k.timers t).active) [
        | inl on ↦
            let e =
              expired_key k.sched.tick_count (k.timers t).deadline v.now_word (v.words t on)
                (v.window t on) in
            ground (arith, e, far t on, on)
        | inr off ↦ rw off refl
      ] in
    record { timely = v; now = refl; none_due = none_due; fates = λ t. inl (none_due t, refl) }

step-IsServed :
    (k k1 k' : Kernel) (t : ℕ)
    → k1.sched.tick_count ≡ k.sched.tick_count
    → ((u : ℕ) → u ≢ t → k1.timers u ≡ k.timers u)
    → (Fate k.sched.tick_count (k1.timers t) (k'.timers t)
        → Fate k.sched.tick_count (k.timers t) (k'.timers t))
    → IsServed k1 k'
    → IsServed k k'
step-IsServed k k1 k' t now same first r = record {
  timely = r.timely;
  now = r.now ∙ now;
  none_due = subst (λ n. (u : ℕ) → is_due n (k'.timers u) ≡ false) now r.none_due;
  fates = λ u.
      let f : Fate k.sched.tick_count (k1.timers u) (k'.timers u) =
        subst (λ n. Fate n (k1.timers u) (k'.timers u)) now (r.fates u) in
      elim (Bool-cases (u == t)) [
        | inl e ↦
            let ut = ==→eq u t e in
            subst (λ w. Fate k.sched.tick_count (k.timers w) (k'.timers w)) (sym ut)
              (first (subst (λ w. Fate k.sched.tick_count (k1.timers w) (k'.timers w)) ut f))
        | inr ne ↦
            subst (λ a. Fate k.sched.tick_count a (k'.timers u)) (same u (==-false→ne u t ne)) f
      ];
}

pub loop_step :
    (run : ℕ → ℕ → Kernel → Kernel) (fuel : ℕ) (k : Kernel) (t : ℕ) (ts : List ℕ)
    → k.timer_list ≡ t ∷ ts
    → timer_run_expired run (suc fuel) k ≡ (
        if not (timer_expired k.sched.tick_count (k.timers t).deadline)
        then some k
        else timer_run_expired run fuel (run (k.timers t).callback (k.timers t).arg (fire k t)))
unfolding timer_run_expired
loop_step run fuel k t ts q = rw q refl

pub loop_end :
    (run : ℕ → ℕ → Kernel → Kernel) (fuel : ℕ) (k : Kernel)
    → k.timer_list ≡ []
    → timer_run_expired run (suc fuel) k ≡ some k
unfolding timer_run_expired
loop_end run fuel k q = rw q refl

-- The loop on `fuel` ends, with the timers served.
abbrev Serves : (ℕ → ℕ → Kernel → Kernel) → ℕ → Kernel → Type 0
Serves run fuel k = (k' : Kernel) × (timer_run_expired run fuel k ≡ some k') × IsServed k k'

module _ (run : ℕ → ℕ → Kernel → Kernel) (quiet : IsQuiet run) (fuel : ℕ)
    (rest : (k : Kernel) → IsTimely k → late (due k) k.timer_list < fuel → Serves run fuel k) where
  Serves-after :
      (k k0 : Kernel) (t : ℕ) (ts : List ℕ)
      → k.timer_list ≡ t ∷ ts
      → timer_expired k.sched.tick_count (k.timers t).deadline ≡ true
      → fire k t ≡ k0
      → IsTimely k0
      → late (due k0) k0.timer_list < fuel
      → k0.sched.tick_count ≡ k.sched.tick_count
      → ((u : ℕ) → u ≢ t → k0.timers u ≡ k.timers u)
      → ((b : Timer)
          → Fate k.sched.tick_count (k0.timers t) b
          → Fate k.sched.tick_count (k.timers t) b)
      → Serves run (suc fuel) k
  Serves-after k k0 t ts q x e v enough now same first =
      let c = (k.timers t).callback in
      let a = (k.timers t).arg in
      let k1 = run c a k0 in
      let timers = quiet.timers c a k0 in
      let list = quiet.timer_list c a k0 in
      let now1 = quiet.now c a k0 in
      let v1 : IsTimely k1 = IsTimely-of_eq v timers list now1 in
      let few : late (due k1) k1.timer_list < fuel = rw (timers, list, now1) enough in
      let (k', ended, served) = rest k1 v1 few in
      (
        k',
        loop_step run fuel k t ts q
            ∙ rw x (ap (λ y. timer_run_expired run fuel (run c a y)) e ∙ ended),
        step-IsServed k k1 k' t (now1 ∙ now) (λ u ne. ap (λ f. f u) timers ∙ same u ne)
            (λ f.
              first (k'.timers t)
                (subst (λ y. Fate k.sched.tick_count y (k'.timers t)) (ap (λ g. g t) timers) f))
            served,
      )

  Serves-first :
      (k : Kernel) (t : ℕ) (ts : List ℕ)
      → k.timer_list ≡ t ∷ ts
      → timer_expired k.sched.tick_count (k.timers t).deadline ≡ true
      → IsTimely k
      → late (due k) k.timer_list < suc fuel
      → Serves run (suc fuel) k
  Serves-first k t ts q x v enough =
      let on : is_due k.sched.tick_count (k.timers t) ≡ true = rw (head-active t ts v q, x) refl in
      let now = k.sched.tick_count in
      elim (Bool-cases ((k.timers t).period == 0)) [
        | inl one ↦
            let z = ==→eq (k.timers t).period 0 one in
            let k0 = rested t ts v q in
            let (v0, less) = rested-IsTimely t ts v q x in
            let own : k0.timers t ≡ record (k.timers t) { active = false } = ground arith in
            Serves-after k k0 t ts q x (fire_once t ts v q z) v0 (omega arith) refl
              (λ u ne. ground arith)
              (λ b f. Fate-rested now (k.timers t) b on z (subst (λ y. Fate now y b) own f))
        | inr more ↦
            let nz = ==-false→ne (k.timers t).period 0 more in
            let k0 = restarted t ts v q in
            let (v0, less) = restarted-IsTimely t ts v q x nz in
            let (own, same, sched) = restarted_timers t ts v q in
            let e =
              key-add now (k.timers t).deadline (k.timers t).period v.now_word
                (v.words t (head-active t ts v q)) (head_due t ts v q x)
                (v.periods t (head-active t ts v q)) in
            Serves-after k k0 t ts q x (fire_again t ts v q nz) v0 (omega arith)
              (ap (λ s. s.tick_count) sched) same
              (λ b f.
                Fate-moved now (k.timers t) b (moved t ts v q).deadline on nz e
                  (subst (λ y. Fate now y b) own f))
      ]

  Serves-none :
      (k : Kernel) (t : ℕ) (ts : List ℕ)
      → k.timer_list ≡ t ∷ ts
      → timer_expired k.sched.tick_count (k.timers t).deadline ≡ false
      → IsTimely k
      → Serves run (suc fuel) k
  unfolding count
  Serves-none k t ts q x v =
      let e =
        expired_key k.sched.tick_count (k.timers t).deadline v.now_word
          (v.words t (head-active t ts v q)) (v.window t (head-active t ts v q)) in
      let sorted : Sorted (due k) (t ∷ ts) = subst (Sorted (due k)) q v.sorted in
      let far : (u : ℕ) → (k.timers u).active ≡ true → 2 ^ 30 < due k u =
        λ u on. ground (arith, e, x, sorted.0 u, v.linked u, on, q) in
      (k, loop_step run fuel k t ts q ∙ rw x refl, stop-IsServed k v far)

  Serves-list :
      (k : Kernel) (l : List ℕ)
      → k.timer_list ≡ l
      → IsTimely k
      → late (due k) k.timer_list < suc fuel
      → Serves run (suc fuel) k
  unfolding count
  Serves-list k [] q v enough = (
    k,
    loop_end run fuel k q,
    stop-IsServed k v (λ t on. absurd (ground (arith, v.linked t, on, q))),
  )
  Serves-list k (t ∷ ts) q v enough =
      elim (Bool-cases (timer_expired k.sched.tick_count (k.timers t).deadline)) [
        | inl x ↦ Serves-first k t ts q x v enough
        | inr x ↦ Serves-none k t ts q x v
      ]

-- With the invariant, and callbacks that leave the timers and the time as they are,
-- `timer_run_expired` ends, on more rounds than there are late ticks, and keeps the invariant.
-- Afterwards no timer is due. One that was not due has not changed; one that was due and has no
-- period is inactive; one with a period has its deadline moved by a positive multiple of it.
pub run_expired-IsServed :
    (run : ℕ → ℕ → Kernel → Kernel)
    → IsQuiet run
    → (fuel : ℕ) (k : Kernel) → IsTimely k
    → late (due k) k.timer_list < fuel
    → (k' : Kernel) × (timer_run_expired run fuel k ≡ some k') × IsServed k k'
run_expired-IsServed run quiet zero k v enough = absurd (omega arith)
run_expired-IsServed run quiet (suc fuel) k v enough =
    Serves-list run quiet fuel (λ k1. run_expired-IsServed run quiet fuel k1) k k.timer_list refl v
      enough
