-- ===== src/Pullstrength/Tests.antt =====
-- A few phasors. Numbers stand for floats.
use wire_bonding_ultra.Prelude.{
  ℕ, ◌*◌, List, [], ◌∷◌, ◌++◌, ◌≡◌, refl, arith, ◌⊎◌, inr, ltb, true, false, is_some, leb,
}
use wire_bonding_ultra.Models.{Phasor, ImpedancePoint}
use wire_bonding_ultra.Models.Whole.{whole}
use wire_bonding_ultra.Circle.Log.{last}
use wire_bonding_ultra.Pullstrength.Config.{MaxwellMeyerConfig, default_meyer_config, with_defaults}
use wire_bonding_ultra.Pullstrength.{new_meyer_predictor, push_phasor, reset_predictor}
use wire_bonding_ultra.Pullstrength.Bounds.{Ordered, Predicts, push_phasor-Predicts}
use wire_bonding_ultra.Pullstrength.Runs.{
  Reading, Op, Tallies, run, start, run-Tallies, reset_predictor_lem,
}
use wire_bonding_ultra.Pullstrength.Fresh.{
  fresh, push, push_all, row_of, rows_of, softening_capacity, push_phasor-fresh,
}

abbrev voltage : Phasor ℕ
voltage = record { real = 6; imag = 0; magnitude = 6; angle = 0; freq_hz = 4 }

abbrev current : Phasor ℕ
current = record { real = 2; imag = 0; magnitude = 2; angle = 0; freq_hz = 4 }

abbrev point : ImpedancePoint ℕ
point = record {
  timestamp_ns = 10;
  resistance = 3;
  reactance = 0;
  magnitude = 3;
  phase = 0;
  seq_no = 1;
}

abbrev reading : ℕ → Reading whole
reading n = record {
  seq_no = n;
  ts_ns = n * 10_000;
  voltage = voltage;
  current = current;
  impedance = point;
}

abbrev cfg : MaxwellMeyerConfig whole
cfg = default_meyer_config whole

ltb_irreflexive : (x : ℕ) → ltb x x ≡ false
ltb_irreflexive x = ground arith

leb_reflexive : (x : ℕ) → leb x x ≡ true
leb_reflexive x = ground arith

ltb-leb : (x y : ℕ) → ltb x y ≡ false → (leb x x ≡ false) ⊎ ((leb y y ≡ false) ⊎ (leb y x ≡ true))
ltb-leb x y h = inr (inr (ground (arith, h)))

abbrev whole_ordered : Ordered whole
whole_ordered = record {
  irreflexive = ltb_irreflexive;
  literals = λ m k. leb_reflexive m;
  compares = ltb-leb;
  apart = refl;
}

abbrev readings : List (Reading whole)
readings = reading 1 ∷ reading 2 ∷ reading 3 ∷ []

-- The fourth phasor gives a prediction.
push_phasor-Predicts_example :
    Predicts whole whole_ordered 4 40_000
      (push_all whole readings (new_meyer_predictor whole cfg))
      (push_phasor whole 4 40_000 voltage current point
        (push_all whole readings (new_meyer_predictor whole cfg)))
push_phasor-Predicts_example =
    push_phasor-Predicts whole whole_ordered 4 40_000 voltage current point
      (push_all whole readings (new_meyer_predictor whole cfg))

predicts_fourth :
    is_some (push whole (reading 4) (push_all whole readings (new_meyer_predictor whole cfg))).1
    ≡ true
unfolding push_all push_phasor new_meyer_predictor
predicts_fourth = refl

abbrev ops : List (Op whole)
ops =
    Op.push (reading 1)
    ∷ Op.redline 4
    ∷ Op.push (reading 2)
    ∷ Op.reset
    ∷ Op.push (reading 3)
    ∷ Op.push (reading 4)
    ∷ Op.push (reading 5)
    ∷ Op.push (reading 6)
    ∷ []

run-Tallies_example :
    Tallies whole (run whole ops (start whole cfg)).1 (run whole ops (start whole cfg)).0
run-Tallies_example = run-Tallies whole cfg ops

reset_predictor_lem_example :
    reset_predictor whole (run whole ops (start whole cfg)).0
    ≡ record (new_meyer_predictor whole cfg) { cfg = (run whole ops (start whole cfg)).0.cfg }
reset_predictor_lem_example = reset_predictor_lem whole cfg ops

push_phasor-fresh_example :
    is_some (push whole (reading 4) (push_all whole readings (new_meyer_predictor whole cfg))).1
    ≡ leb 4 (
        fresh whole (with_defaults whole cfg).softening_window_ns 40_000 (
          last
            (softening_capacity whole cfg)
            (rows_of whole readings ++ (row_of whole (reading 4) ∷ []))))
push_phasor-fresh_example =
    push_phasor-fresh whole cfg readings (reading 4)
      ((refl, refl), ((refl, refl), ((refl, refl), tt))) (refl, refl)
