-- ===== src/Impedance/Pipeline/Steps.antt =====
-- Every operation of a pipeline keeps its buffers and its event numbers in step with the log.
use wire_bonding_ultra.Prelude.{
  ℕ, zero, suc, ◌+◌, ◌%◌, ◌^◌, ◌≡◌, refl, ap, ap₂, sym, ◌∙◌, arith, List, [], ◌∷◌, ◌++◌, length,
  length-append, Bool, true, false, Option, none, some, if◌then◌else◌,
}
use wire_bonding_ultra.Models.{WaveSample, Phasor, ImpedancePoint, PhasorFrame}
use wire_bonding_ultra.Models.Arithmetic.{Arithmetic}
use wire_bonding_ultra.Circle.{Circle, empty_circle, put}
use wire_bonding_ultra.Circle.Log.{put_all, put_all-append, put_all-capacity, empty_circle-capacity}
use wire_bonding_ultra.Dsp.DualPhasor.{process_sample}
use wire_bonding_ultra.Impedance.Matrix.{AnomalyEvent, append_row}
use wire_bonding_ultra.Pullstrength.{MeyerPredictor, PullStrengthPrediction, push_phasor}
use wire_bonding_ultra.Impedance.Pipeline.{
  Outcome, keep_anomaly, raise_pull, judged, predict_pull, measured, filtered, process,
  jump_threshold, phase_threshold, set_pull_redline,
}
use wire_bonding_ultra.Impedance.Pipeline.Config.{
  Pipeline, PullEvent, reset, zero_anomaly, zero_pull_event,
}
use wire_bonding_ultra.Impedance.Pipeline.Logs.{
  ids_from, Op, Log, with_anomaly, with_pull, advance, apply, run, ids, Keeps,
}

ids_from-append :
    (base n : ℕ) → ids_from base (suc n) ≡ ids_from base n ++ (((base + n + 1) % 2 ^ 64) ∷ [])
unfolding ids_from
ids_from-append base zero = ap (λ k. (k % 2 ^ 64) ∷ []) {y = base + 0 + 1} (omega arith)
ids_from-append base (suc n) =
    ap (λ t. ((base + 1) % 2 ^ 64) ∷ t)
      (ids_from-append (base + 1) n
        ∙ ap (λ k. ids_from (base + 1) n ++ ((k % 2 ^ 64) ∷ [])) {y = base + suc n + 1}
            (omega arith))

module _ {ℓ} (arithmetic : Arithmetic {ℓ}) where
  open arithmetic use {F}

  ids-append :
      (xs : List (PullEvent arithmetic)) (e : PullEvent arithmetic)
      → ids arithmetic (xs ++ (e ∷ [])) ≡ ids arithmetic xs ++ (e.event_id ∷ [])
  ids-append [] e = refl
  ids-append (x ∷ xs) e = ap (λ t. x.event_id ∷ t) (ids-append xs e)

  module _ (max_anom max_pull : ℕ) where
    same_buffers :
        (p q : Pipeline arithmetic) (log : Log arithmetic)
        → q.anomalies ≡ p.anomalies
        → q.pull_events ≡ p.pull_events
        → q.pull_event_seq ≡ p.pull_event_seq
        → Keeps arithmetic max_anom max_pull p log
        → Keeps arithmetic max_anom max_pull q log
    same_buffers p q log a b c k = record {
      anomalies = a ∙ k.anomalies;
      pulls = b ∙ k.pulls;
      issued = c ∙ k.issued;
      numbered = k.numbered;
    }

    keep_anomaly-Keeps :
        (event : Option (AnomalyEvent arithmetic)) (p : Pipeline arithmetic) (log : Log arithmetic)
        → Keeps arithmetic max_anom max_pull p log
        → Keeps arithmetic max_anom max_pull
            (keep_anomaly arithmetic event p)
            (with_anomaly arithmetic event log)
    keep_anomaly-Keeps none p log k = k
    keep_anomaly-Keeps (some event) p log k = record {
      anomalies = ap (put event) k.anomalies ∙ sym (put_all-append log.anomalies event _);
      pulls = k.pulls;
      issued = k.issued;
      numbered = k.numbered;
    }

    raise_pull-Keeps :
        (now : ℕ) (pred : PullStrengthPrediction arithmetic) (p : Pipeline arithmetic)
        (log : Log arithmetic)
        → Keeps arithmetic max_anom max_pull p log
        → Keeps arithmetic max_anom max_pull
            (raise_pull arithmetic now pred p).0
            (with_pull arithmetic (raise_pull arithmetic now pred p).1 log)
    raise_pull-Keeps now pred p log k =
        let event : PullEvent arithmetic = record {
          prediction = pred;
          event_id = (p.pull_event_seq + 1) % 2 ^ 64;
          triggered_at = now;
        } in
        let longer = length-append log.pulls (event ∷ []) in
        record {
          anomalies = k.anomalies;
          pulls = ap (put event) k.pulls ∙ sym (put_all-append log.pulls event _);
          issued = omega (arith, k.issued, longer);
          numbered =
              ids-append log.pulls event
              ∙ ap₂ (λ (xs : List ℕ) (id : ℕ). xs ++ (id ∷ [])) k.numbered (omega (arith, k.issued))
              ∙ sym (ids_from-append log.base (length log.pulls))
              ∙ ap (ids_from log.base) (omega (arith, longer));
        }

    unfoldable Pulled :
        Log arithmetic → Pipeline arithmetic × Option (PullEvent arithmetic) → Type ℓ
    Pulled log r = Keeps arithmetic max_anom max_pull r.0 (with_pull arithmetic r.1 log)

    if-Pulled :
        (log : Log arithmetic) (b : Bool)
        (x y : Pipeline arithmetic × Option (PullEvent arithmetic))
        → Pulled log x
        → Pulled log y
        → Pulled log (if b then x else y)
    if-Pulled log true x y hx hy = hx
    if-Pulled log false x y hx hy = hy

    judged-Keeps :
        (now : ℕ) (pred : Option (PullStrengthPrediction arithmetic)) (p : Pipeline arithmetic)
        (log : Log arithmetic)
        → Keeps arithmetic max_anom max_pull p log
        → Pulled log (judged arithmetic now pred p)
    unfolding Pulled
    judged-Keeps now none p log k = k
    judged-Keeps now (some pred) p log k =
        if-Pulled log pred.below_redline (raise_pull arithmetic now pred p) (p, none)
          (raise_pull-Keeps now pred p log k) k

    predict_pull-Keeps :
        (now : ℕ) (s : WaveSample F) (v i : Phasor F) (zp : ImpedancePoint F)
        (meyer : Option (MeyerPredictor arithmetic)) (p : Pipeline arithmetic)
        (log : Log arithmetic)
        → Keeps arithmetic max_anom max_pull p log
        → Pulled log (predict_pull arithmetic now s v i zp meyer p)
    unfolding Pulled
    predict_pull-Keeps now s v i zp none p log k = k
    predict_pull-Keeps now s v i zp (some mp) p log k =
        let r = push_phasor arithmetic s.seq_no s.timestamp_ns v i zp mp in
        let p' : Pipeline arithmetic = record p { meyer = some r.0 } in
        judged-Keeps now r.1 p' log (same_buffers p p' log refl refl refl k)

    -- The result of Process.
    abbrev Logs : Log arithmetic → Pipeline arithmetic × Outcome arithmetic → Type ℓ
    Logs log r = Keeps arithmetic max_anom max_pull r.0 (advance arithmetic r.1 log)

    measured-Logs :
        (now : ℕ) (s : WaveSample F) (v i : Phasor F)
        (row : Option (ImpedancePoint F × Option (AnomalyEvent arithmetic)))
        (p : Pipeline arithmetic) (log : Log arithmetic)
        → Keeps arithmetic max_anom max_pull p log
        → Logs log (measured arithmetic now s v i row p)
    unfolding Pulled
    measured-Logs now s v i none p log k = k
    measured-Logs now s v i (some (zp, event)) p log k =
        let frame : PhasorFrame F = record {
          seq_no = s.seq_no;
          timestamp_ns = s.timestamp_ns;
          voltage_phasor = v;
          current_phasor = i;
          impedance = zp;
        } in
        let framed : Pipeline arithmetic = record p { latest_frame = frame } in
        let q = keep_anomaly arithmetic event framed in
        predict_pull-Keeps now s v i zp q.meyer q (with_anomaly arithmetic event log)
          (keep_anomaly-Keeps event framed log (same_buffers p framed log refl refl refl k))

    filtered-Logs :
        (now : ℕ) (s : WaveSample F) (pair : Option (Phasor F × Phasor F)) (p : Pipeline arithmetic)
        (log : Log arithmetic)
        → Keeps arithmetic max_anom max_pull p log
        → Logs log (filtered arithmetic now s pair p)
    filtered-Logs now s none p log k = k
    filtered-Logs now s (some (v, i)) p log k =
        let r = append_row arithmetic s.seq_no s.timestamp_ns v i p.matrix in
        let p' : Pipeline arithmetic = record p {
          total_ready = (p.total_ready + 1) % 2 ^ 64;
          started = true;
          matrix = r.0;
        } in
        measured-Logs now s v i r.1 p' log (same_buffers p p' log refl refl refl k)

    process-Logs :
        (now : ℕ) (s : WaveSample F) (p : Pipeline arithmetic) (log : Log arithmetic)
        → Keeps arithmetic max_anom max_pull p log
        → Logs log (process arithmetic now s p)
    unfolding process
    process-Logs now s p log k =
        let r = process_sample arithmetic s p.phasor in
        let p' : Pipeline arithmetic = record p {
          total_in = (p.total_in + 1) % 2 ^ 64;
          init_samples = p.init_samples + 1;
          phasor = r.0;
        } in
        filtered-Logs now s r.1 p' log (same_buffers p p' log refl refl refl k)

    apply-Keeps :
        (op : Op arithmetic) (p : Pipeline arithmetic) (log : Log arithmetic)
        → Keeps arithmetic max_anom max_pull p log
        → Keeps arithmetic max_anom max_pull
            (apply arithmetic op (p, log)).0
            (apply arithmetic op (p, log)).1
    unfolding apply jump_threshold phase_threshold set_pull_redline reset put_all ids_from
    apply-Keeps (Op.sample now s) p log k = process-Logs now s p log k
    apply-Keeps (Op.jump pct) p log k =
        same_buffers p (jump_threshold arithmetic pct p) log refl refl refl k
    apply-Keeps (Op.phase deg) p log k =
        same_buffers p (phase_threshold arithmetic deg p) log refl refl refl k
    apply-Keeps (Op.redline grams) p log k =
        same_buffers p (set_pull_redline arithmetic grams p) log refl refl refl k
    apply-Keeps Op.restart p log k = record {
      anomalies = ap (empty_circle (zero_anomaly arithmetic)) (
          ap (λ (c : Circle (AnomalyEvent arithmetic)). c.capacity) k.anomalies
          ∙ put_all-capacity log.anomalies _
          ∙ empty_circle-capacity (zero_anomaly arithmetic) max_anom);
      pulls = ap (empty_circle (zero_pull_event arithmetic)) (
          ap (λ (c : Circle (PullEvent arithmetic)). c.capacity) k.pulls
          ∙ put_all-capacity log.pulls _
          ∙ empty_circle-capacity (zero_pull_event arithmetic) max_pull);
      issued = k.issued ∙ omega arith;
      numbered = refl;
    }

    pub run-Keeps :
        (ops : List (Op arithmetic)) (p : Pipeline arithmetic) (log : Log arithmetic)
        → Keeps arithmetic max_anom max_pull p log
        → Keeps arithmetic max_anom max_pull
            (run arithmetic ops (p, log)).0
            (run arithmetic ops (p, log)).1
    unfolding run
    run-Keeps [] p log k = k
    run-Keeps (op ∷ ops) p log k =
        let s = apply arithmetic op (p, log) in run-Keeps ops s.0 s.1 (apply-Keeps op p log k)
