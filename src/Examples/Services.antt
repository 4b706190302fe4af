-- ===== src/Examples/Services.antt =====
-- The theorem on the timers, for a model that counts the calls of its methods.
use content_based.Base.{◌≡◌, refl, suc, false, some, ℕ, ℤ, pos, ◌+ℤ◌, arith, +ℤ_parts, ltb_ℤ}
use content_based.Status.{Status, Run}
use content_based.ServiceGlue.{ServiceGlue, Maintained, Timers, train_step, persistent_library}
use content_based.ServiceGlue.Schedule.{train_waits_for_flush}

abbrev count : Run ℕ
count m = (Status.ok, suc m)

abbrev counting : Maintained ℕ
counting = record { flush = count; train = count; reload = count; rollover = count }

-- Training is to happen every 10 seconds, the rest every 100.
abbrev timers : Timers
timers = record {
  flush_next = λ t. t +ℤ pos 100;
  train_next = λ t. t +ℤ pos 10;
  rollover_next = λ t. t +ℤ pos 100;
  reload_next = λ t. t +ℤ pos 100;
}

abbrev service : ServiceGlue ℕ
service = record {
  content_based = 0;
  next_flush_time = pos 100;
  next_train_time = pos 10;
  next_rollover_time = pos 100;
  next_reload_time = pos 100;
}

-- Trained at 11, the model is not trained again before 100.
abbrev served : ServiceGlue ℕ
served = record service { content_based = 1; next_train_time = pos 110 }

train_waits_for_flush_example :
    (pos 110 ≡ pos 100 +ℤ pos 10)
    × ((soon : ℤ)
        → ltb_ℤ (pos 100) soon ≡ false
        → train_step counting timers soon served ≡ some served)
unfolding persistent_library content_based.ServiceGlue.flush_step train_step
    content_based.ServiceGlue.reload_step content_based.ServiceGlue.rollover_step ◌+ℤ◌
train_waits_for_flush_example =
    train_waits_for_flush counting timers (pos 11) service served
      (λ t. ground (arith, +ℤ_parts t (pos 10))) refl refl
