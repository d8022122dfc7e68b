-- ===== src/Timer/Fire.antt =====
-- What `timer_run_expired` of src/kernel/timer.c does to the first timer of the list.
use tiny_rt.Base.{
  ℕ, ◌+◌, ◌-◌, ◌%◌, ◌^◌, ◌≤◌, ◌<◌, ◌≡◌, ◌≢◌, refl, ap, ◌∙◌, sym, true, false, List, [], ◌∷◌, count,
  same, remove, arith, inl, inr, Bool-cases, eq→==, ne→==-false,
}
use tiny_rt.Sched.{is_before, timer_expired}
use tiny_rt.Kernel.{Kernel, Timer}
use tiny_rt.Timer.{insert_timer, timer_insert_locked, set_timer, unlink_timer, fire}
use tiny_rt.Timer.Order.{expired_key, key-add}
use tiny_rt.Timer.Inv.{due, IsTimely, unlink-IsTimelyBut, idle-IsTimely, place-IsTimely}

-- How many ticks late the timers of a list are, with one more for each that is due.
abbrev pub late : (ℕ → ℕ) → List ℕ → ℕ
late f [] = 0
late f (t ∷ ts) = (2 ^ 30 + 1 - f t) + late f ts

late-insert_timer :
    (timers : ℕ → Timer) (f : ℕ → ℕ) (t : ℕ) (qs : List ℕ)
    → late f (insert_timer timers t qs) ≡ (2 ^ 30 + 1 - f t) + late f qs
unfolding insert_timer
late-insert_timer timers f t [] = refl
late-insert_timer timers f t (q ∷ qs) =
    elim (Bool-cases (is_before (timers t).deadline (timers q).deadline)) [
      | inl first ↦ rw first refl
      | inr later ↦ rw later (omega (arith, late-insert_timer timers f t qs))
    ]

late-ext :
    (f g : ℕ → ℕ) (ts : List ℕ) → ((u : ℕ) → count u ts ≢ 0 → f u ≡ g u) → late f ts ≡ late g ts
unfolding count
late-ext f g [] e = refl
late-ext f g (t ∷ ts) e =
    let here : f t ≡ g t = e t (ground arith) in
    omega (arith, here, late-ext f g ts (λ u c. e u (omega arith)))

module _ {k : Kernel} (t : ℕ) (ts : List ℕ) (v : IsTimely k) (q : k.timer_list ≡ t ∷ ts) where
  pub head-active : (k.timers t).active ≡ true
  unfolding count
  head-active = ground (arith, v.linked t, q)

  head-real : t ≢ 0
  head-real z = absurd (ground (arith, head-active, v.null, z))

  pub head_out : (unlink_timer k t).timer_list ≡ ts
  unfolding remove
  head_out = rw (q, eq→== t t refl) refl

  abbrev pub rested : Kernel
  rested = set_timer (unlink_timer k t) t (record (k.timers t) { active = false })

  abbrev pub moved : Timer
  moved = record (k.timers t) { deadline = ((k.timers t).deadline + (k.timers t).period) % 2 ^ 32 }

  abbrev pub restarted : Kernel
  restarted = timer_insert_locked (set_timer (unlink_timer k t) t moved) t

  pub fire_once : (k.timers t).period ≡ 0 → fire k t ≡ rested
  unfolding fire
  fire_once z = rw (eq→== (k.timers t).period 0 z) refl

  pub fire_again : (k.timers t).period ≢ 0 → fire k t ≡ restarted
  unfolding fire
  fire_again nz = rw (ne→==-false (k.timers t).period 0 nz) refl

  pub restarted_timers :
      (restarted.timers t ≡ moved)
      × ((u : ℕ) → u ≢ t → restarted.timers u ≡ k.timers u)
      × (restarted.sched ≡ k.sched)
  unfolding timer_insert_locked
  restarted_timers = (ground arith, λ u ne. ground arith, refl)

  -- The lateness of the others does not change.
  late_rest :
      (k1 : Kernel)
      → ((u : ℕ) → u ≢ t → k1.timers u ≡ k.timers u)
      → k1.sched.tick_count ≡ k.sched.tick_count
      → late (due k1) ts ≡ late (due k) ts
  late_rest k1 same now =
      let but = unlink-IsTimelyBut t v in
      late-ext (due k1) (due k) ts (λ u c.
        let ne : u ≢ t =
          λ e. c (ap (λ x. count x ts) e ∙ ap (count t) (sym head_out) ∙ but.absent) in
        rw (same u ne, now) refl)

  module _ (x : timer_expired k.sched.tick_count (k.timers t).deadline ≡ true) where
    pub head_due : due k t ≤ 2 ^ 30
    head_due =
        let e =
          expired_key k.sched.tick_count (k.timers t).deadline v.now_word (v.words t head-active)
            (v.window t head-active) in
        ground (arith, e, x)

    pub rested-IsTimely :
        IsTimely rested × (late (due rested) rested.timer_list < late (due k) k.timer_list)
    rested-IsTimely = (
      idle-IsTimely t (record (k.timers t) { active = false }) (unlink-IsTimelyBut t v) refl,
      rw (head_out, q) (omega (arith, head_due, late_rest rested (λ u ne. ground arith) refl)),
    )

    pub restarted-IsTimely :
        (k.timers t).period ≢ 0
        → IsTimely restarted
          × (late (due restarted) restarted.timer_list < late (due k) k.timer_list)
    unfolding timer_insert_locked
    restarted-IsTimely nz =
        let now = k.sched.tick_count in
        let short = v.periods t head-active in
        let e =
          key-add now (k.timers t).deadline (k.timers t).period v.now_word (v.words t head-active)
            head_due short in
        let own : due restarted t ≡ due k t + (k.timers t).period = ground (arith, e) in
        (
          place-IsTimely t moved (unlink-IsTimelyBut t v) head-real head-active (omega arith)
              (omega (arith, e, head_due, short)) short,
          rw (head_out, q)
              (omega (
                arith,
                head_due,
                own,
                late_rest restarted (λ u ne. ground arith) refl,
                late-insert_timer restarted.timers (due restarted) t ts,
              )),
        )
