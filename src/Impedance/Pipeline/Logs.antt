-- ===== src/Impedance/Pipeline/Logs.antt =====
-- A pipeline over any sequence of samples, settings and resets, with a log of what it returned.
use wire_bonding_ultra.Prelude.{
  ℕ, zero, suc, ◌+◌, ◌%◌, ◌^◌, ◌≡◌, List, [], ◌∷◌, ◌++◌, length, Option, none, some,
}
use wire_bonding_ultra.Models.{WaveSample}
use wire_bonding_ultra.Models.Arithmetic.{Arithmetic}
use wire_bonding_ultra.Circle.{empty_circle}
use wire_bonding_ultra.Circle.Log.{put_all}
use wire_bonding_ultra.Impedance.Matrix.{AnomalyEvent}
use wire_bonding_ultra.Impedance.Pipeline.{
  Outcome, process, jump_threshold, phase_threshold, set_pull_redline,
}
use wire_bonding_ultra.Impedance.Pipeline.Config.{
  Pipeline, PullEvent, reset, zero_anomaly, zero_pull_event,
}

-- A list with an event behind it, if there is one.
abbrev pub logged {ℓ} : {A : Type ℓ} → Option A → List A → List A
logged none xs = xs
logged (some x) xs = xs ++ (x ∷ [])

-- The `n` identifiers after number `base`.
unfoldable pub ids_from : ℕ → ℕ → List ℕ
ids_from base zero = []
ids_from base (suc n) = ((base + 1) % 2 ^ 64) ∷ ids_from (base + 1) n

module _ {ℓ} (arithmetic : Arithmetic {ℓ}) where
  open arithmetic use {F}

  pub data Op : Type ℓ where
    sample : ℕ → WaveSample F → Op
    jump : F → Op
    phase : F → Op
    redline : F → Op
    restart : Op

  -- What Process returned since the last Reset, and how many pull events there were before it.
  pub record Log : Type ℓ where
    pub anomalies : List (AnomalyEvent arithmetic)
    pub pulls : List (PullEvent arithmetic)
    pub base : ℕ

  abbrev pub no_log : Log
  no_log = record { anomalies = []; pulls = []; base = 0 }

  abbrev pub with_anomaly : Option (AnomalyEvent arithmetic) → Log → Log
  with_anomaly event log = record log { anomalies = logged event log.anomalies }

  abbrev pub with_pull : Option (PullEvent arithmetic) → Log → Log
  with_pull event log = record log { pulls = logged event log.pulls }

  abbrev pub advance : Outcome arithmetic → Log → Log
  advance o log = with_pull o.pull_event (with_anomaly o.anomaly log)

  abbrev pub Run : Type ℓ
  Run = Pipeline arithmetic × Log

  unfoldable pub apply : Op → Run → Run
  unfolding process jump_threshold phase_threshold set_pull_redline reset
  apply (Op.sample now s) (p, log) = let r = process arithmetic now s p in (r.0, advance r.1 log)
  apply (Op.jump pct) (p, log) = (jump_threshold arithmetic pct p, log)
  apply (Op.phase deg) (p, log) = (phase_threshold arithmetic deg p, log)
  apply (Op.redline grams) (p, log) = (set_pull_redline arithmetic grams p, log)
  apply Op.restart (p, log) = (
    reset arithmetic p,
    record { anomalies = []; pulls = []; base = log.base + length log.pulls },
  )

  unfoldable pub run : List Op → Run → Run
  unfolding apply
  run [] s = s
  run (op ∷ ops) s = run ops (apply op s)

  abbrev pub ids : List (PullEvent arithmetic) → List ℕ
  ids [] = []
  ids (e ∷ events) = e.event_id ∷ ids events

  -- The buffers are those of the log, and the events are numbered one after another.
  pub record Keeps (max_anom max_pull : ℕ) (p : Pipeline arithmetic) (log : Log) : Type ℓ where
    pub anomalies :
        p.anomalies ≡ put_all log.anomalies (empty_circle (zero_anomaly arithmetic) max_anom)
    pub pulls :
        p.pull_events ≡ put_all log.pulls (empty_circle (zero_pull_event arithmetic) max_pull)
    pub issued : p.pull_event_seq ≡ (log.base + length log.pulls) % 2 ^ 64
    pub numbered : ids log.pulls ≡ ids_from log.base (length log.pulls)
