-- ===== src/ServiceGlue.antt =====
-- src/service/service_glue.{h,cpp}: how the service calls the model, what it replies, and when it
-- flushes, trains, reloads and rolls over. The model `M` and the timers (`ChronoExpr`, not in the
-- repository) are given by their operations.
pub mod Schedule
use content_based.Base.{
  ◌≡◌, Bool, true, false, Option, none, some, if◌then◌else◌, ℤ, pos, negsuc, ltb_ℤ,
}
use content_based.Status.{Status, Run, is_ok}

-- What the service calls of `ContentBased` from time to time.
pub record Maintained (M : Type 0) : Type 0 where
  pub flush : Run M
  pub train : Run M
  pub reload : Run M
  pub rollover : Run M

-- `ChronoExpr::next` of the four timers, after `parse` has succeeded.
pub record Timers : Type 0 where
  pub flush_next : ℤ → ℤ
  pub train_next : ℤ → ℤ
  pub rollover_next : ℤ → ℤ
  pub reload_next : ℤ → ℤ

pub record ServiceGlue (M : Type 0) : Type 0 where
  pub content_based : M
  pub next_flush_time : ℤ
  pub next_train_time : ℤ
  pub next_rollover_time : ℤ
  pub next_reload_time : ℤ

-- What `update_action`, `update_item`, `query_algorithm` and `query_user_category` make of the
-- status of the model's method, and `serve`, any one of these.
unfoldable pub reply : Status → ℤ
reply Status.corruption = negsuc 0
reply Status.io_error = negsuc 0
reply _ = pos 0

module _ {M : Type 0} where
  unfoldable pub serve : Run M → ServiceGlue M → ℤ × ServiceGlue M
  serve f g = let (e, m) = f g.content_based in (reply e, record g { content_based = m })

  -- The statuses of the four calls of `parse`; every call of `time` gives `now`.
  unfoldable pub init_module :
      Timers → Status → Status → Status → Status → ℤ → ServiceGlue M → ℤ × ServiceGlue M
  init_module ts flush train rollover reload now g =
      let g1 = record g { next_flush_time = ts.flush_next now } in
      let g2 = record g1 { next_train_time = ts.train_next now } in
      let g3 = record g2 { next_rollover_time = ts.rollover_next now } in
      let g4 = record g3 { next_reload_time = ts.reload_next now } in
      if is_ok flush
      then if is_ok train
        then if is_ok rollover
          then if is_ok reload then (pos 0, g4) else (negsuc 0, g3)
          else (negsuc 0, g2)
        else (negsuc 0, g1)
      else (negsuc 0, g)

abbrev pub and_then {ℓ} : {A : Type ℓ} → Option A → (A → Option A) → Option A
and_then none f = none
and_then (some a) f = f a

-- The four parts of `persistent_library`; `none` where `LOG(FATAL)` ends the process.
module _ {M : Type 0} (ops : Maintained M) (ts : Timers) (now : ℤ) where
  unfoldable pub flush_step : ServiceGlue M → Option (ServiceGlue M)
  flush_step g =
      let (e, m) = ops.flush g.content_based in
      if ltb_ℤ g.next_flush_time now
      then if is_ok e
        then some
            (record g { content_based = m; next_flush_time = ts.flush_next g.next_flush_time })
        else none
      else some g

  unfoldable pub train_step : ServiceGlue M → Option (ServiceGlue M)
  train_step g =
      let (e, m) = ops.train g.content_based in
      if ltb_ℤ g.next_train_time now
      then if is_ok e
        then some
            (record g { content_based = m; next_train_time = ts.train_next g.next_flush_time })
        else none
      else some g

  unfoldable pub reload_step : ServiceGlue M → Option (ServiceGlue M)
  reload_step g =
      let (e, m) = ops.reload g.content_based in
      if ltb_ℤ g.next_reload_time now
      then if is_ok e
        then some
            (record g { content_based = m; next_reload_time = ts.reload_next g.next_reload_time })
        else none
      else some g

  unfoldable pub rollover_step : ServiceGlue M → Option (ServiceGlue M)
  rollover_step g =
      let (e, m) = ops.rollover g.content_based in
      if ltb_ℤ g.next_rollover_time now
      then if is_ok e
        then some (record g {
          content_based = m;
          next_rollover_time = ts.rollover_next g.next_rollover_time;
        })
        else none
      else some g

  unfoldable pub persistent_library : ServiceGlue M → Option (ServiceGlue M)
  persistent_library g =
      and_then (and_then (and_then (flush_step g) train_step) reload_step) rollover_step
