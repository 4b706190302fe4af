-- ===== src/ServiceGlue/Schedule.antt =====
-- When `persistent_library` trains.
use content_based.Base.{◌≡◌, refl, sym, ap, ◌∙◌, true, false, Option, none, some, ℤ, ltb_ℤ, arith}
use content_based.ServiceGlue.{
  ServiceGlue, Maintained, Timers, and_then, flush_step, train_step, reload_step, rollover_step,
  persistent_library,
}

and_then-some :
    {A : Type 0} (o : Option A) (f : A → Option A) (b : A)
    → and_then o f ≡ some b
    → (a : A) × (o ≡ some a) × (f a ≡ some b)
and_then-some none f b h = cc
and_then-some (some a) f b h = (a, refl, h)

module _ {M : Type 0} (ops : Maintained M) (ts : Timers) (now : ℤ) where
  flush_step_keeps :
      (g g' : ServiceGlue M)
      → flush_step ops ts now g ≡ some g'
      → g'.next_train_time ≡ g.next_train_time
  unfolding flush_step
  flush_step_keeps g g' h = ground arith

  reload_step_keeps :
      (g g' : ServiceGlue M)
      → reload_step ops ts now g ≡ some g'
      → (g'.next_train_time ≡ g.next_train_time) × (g'.next_flush_time ≡ g.next_flush_time)
  unfolding reload_step
  reload_step_keeps g g' h = ground arith

  rollover_step_keeps :
      (g g' : ServiceGlue M)
      → rollover_step ops ts now g ≡ some g'
      → (g'.next_train_time ≡ g.next_train_time) × (g'.next_flush_time ≡ g.next_flush_time)
  unfolding rollover_step
  rollover_step_keeps g g' h = ground arith

  train_step_due :
      (g g' : ServiceGlue M)
      → train_step ops ts now g ≡ some g'
      → ltb_ℤ g.next_train_time now ≡ true
      → (g'.next_train_time ≡ ts.train_next g.next_flush_time)
        × (g'.next_flush_time ≡ g.next_flush_time)
  unfolding train_step
  train_step_due g g' h due = ground arith

  -- A call that does not end the process, and in which training was due, takes the next time for
  -- training from that of the flush timer. If the timer's next time is always later than the time
  -- that it is given, no call trains again before the model is to be flushed, whatever the timer
  -- for training says.
  pub train_waits_for_flush :
      (g g' : ServiceGlue M)
      → ((t : ℤ) → ltb_ℤ t (ts.train_next t) ≡ true)
      → persistent_library ops ts now g ≡ some g'
      → ltb_ℤ g.next_train_time now ≡ true
      → (g'.next_train_time ≡ ts.train_next g'.next_flush_time)
        × ((soon : ℤ) → ltb_ℤ g'.next_flush_time soon ≡ false → train_step ops ts soon g' ≡ some g')
  unfolding persistent_library train_step
  train_waits_for_flush g g' ahead h due =
      let (g3, h3, fourth) =
        and_then-some
          (and_then (and_then (flush_step ops ts now g) (train_step ops ts now))
            (reload_step ops ts now))
          (rollover_step ops ts now) g' h in
      let (g2, h2, third) =
        and_then-some (and_then (flush_step ops ts now g) (train_step ops ts now))
          (reload_step ops ts now) g3 h3 in
      let (g1, first, second) =
        and_then-some (flush_step ops ts now g) (train_step ops ts now) g2 h2 in
      let (t4, f4) = rollover_step_keeps g3 g' fourth in
      let (t3, f3) = reload_step_keeps g2 g3 third in
      let (t2, f2) =
        train_step_due g1 g2 second (ap (λ t. ltb_ℤ t now) (flush_step_keeps g g1 first) ∙ due) in
      let e : g'.next_train_time ≡ ts.train_next g'.next_flush_time =
        t4 ∙ t3 ∙ t2 ∙ ap ts.train_next (sym (f4 ∙ f3 ∙ f2)) in
      (e, λ soon early. not_due soon e early)
    where
      not_due :
          (soon : ℤ)
          → g'.next_train_time ≡ ts.train_next g'.next_flush_time
          → ltb_ℤ g'.next_flush_time soon ≡ false
          → train_step ops ts soon g' ≡ some g'
      not_due soon e early =
          let later : ltb_ℤ g'.next_flush_time g'.next_train_time ≡ true =
            ap (ltb_ℤ g'.next_flush_time) e ∙ ahead g'.next_flush_time in
          let away : ltb_ℤ g'.next_train_time soon ≡ false = ground arith in rw (away, train_step)
