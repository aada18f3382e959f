-- ===== src/Impedance/Pipeline/Recent.antt =====
-- What RecentAnomalies and RecentPullEvents give, over any sequence of samples, settings and resets.
use wire_bonding_ultra.Prelude.{ℕ, ◌<◌, ◌≡◌, refl, ap, ◌∙◌, arith, List, length}
use wire_bonding_ultra.Models.Arithmetic.{Arithmetic}
use wire_bonding_ultra.Circle.{recent}
use wire_bonding_ultra.Circle.Log.{last, put_all}
use wire_bonding_ultra.Circle.Recent.{shown, recent-put_all}
use wire_bonding_ultra.Impedance.Pipeline.{recent_anomalies, recent_pull_events}
use wire_bonding_ultra.Impedance.Pipeline.Config.{
  PipelineConfig, new_pipeline, zero_anomaly, zero_pull_event, or_size,
}
use wire_bonding_ultra.Impedance.Pipeline.Logs.{ids_from, Op, no_log, Run, run, ids, Keeps}
use wire_bonding_ultra.Impedance.Pipeline.Steps.{run-Keeps}

or_size_positive : (default n : ℕ) → 0 < default → 0 < or_size default n
or_size_positive default n h = ground arith

module _ {ℓ} (arithmetic : Arithmetic {ℓ}) where
  open arithmetic use {F}

  -- A new pipeline, with nothing returned yet.
  abbrev pub start : PipelineConfig arithmetic → Run arithmetic
  start cfg = (new_pipeline arithmetic cfg, no_log arithmetic)

  start-Keeps :
      (cfg : PipelineConfig arithmetic)
      → Keeps arithmetic
          (or_size 1024 cfg.max_anomalies)
          (or_size 1024 cfg.max_pull_events)
          (start cfg).0
          (no_log arithmetic)
  unfolding new_pipeline put_all ids_from
  start-Keeps cfg = record { anomalies = refl; pulls = refl; issued = omega arith; numbered = refl }

  -- Over any sequence of samples, settings and resets, RecentAnomalies gives the last anomalies that
  -- Process returned since the last Reset, as many as were asked for, are there and fit, oldest first.
  pub recent_anomalies_lem :
      (cfg : PipelineConfig arithmetic) (ops : List (Op arithmetic)) (count : ℕ)
      → let log = (run arithmetic ops (start cfg)).1.anomalies in
        recent_anomalies arithmetic count (run arithmetic ops (start cfg)).0
        ≡ last (shown count (or_size 1024 cfg.max_anomalies) log) log
  unfolding recent_anomalies
  recent_anomalies_lem cfg ops count =
      let k = run-Keeps arithmetic _ _ ops (start cfg).0 (no_log arithmetic) (start-Keeps cfg) in
      ap (recent (zero_anomaly arithmetic) count) k.anomalies
      ∙ recent-put_all (zero_anomaly arithmetic) count (or_size 1024 cfg.max_anomalies) _
          (or_size_positive 1024 cfg.max_anomalies (omega arith))

  -- Likewise RecentPullEvents, and the pull events since the last Reset are numbered one after another
  -- from the number of those before it, modulo 2^64: a Reset does not start again at 1.
  pub recent_pull_events_lem :
      (cfg : PipelineConfig arithmetic) (ops : List (Op arithmetic)) (count : ℕ)
      → let log = (run arithmetic ops (start cfg)).1 in
        (recent_pull_events arithmetic count (run arithmetic ops (start cfg)).0
          ≡ last (shown count (or_size 1024 cfg.max_pull_events) log.pulls) log.pulls)
        × (ids arithmetic log.pulls ≡ ids_from log.base (length log.pulls))
  unfolding recent_pull_events
  recent_pull_events_lem cfg ops count =
      let k = run-Keeps arithmetic _ _ ops (start cfg).0 (no_log arithmetic) (start-Keeps cfg) in
      (
        ap (recent (zero_pull_event arithmetic) count) k.pulls
            ∙ recent-put_all (zero_pull_event arithmetic) count (or_size 1024 cfg.max_pull_events) _
                (or_size_positive 1024 cfg.max_pull_events (omega arith)),
        k.numbered,
      )
