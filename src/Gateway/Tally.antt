-- ===== src/Gateway/Tally.antt =====
-- What has happened to the frames on the way to a state, counted from the steps themselves.
use wire_bonding_ultra.Prelude.{ℕ, ◌+◌, List, [], ◌∷◌, length, ◌==◌, if◌then◌else◌}
use wire_bonding_ultra.Models.{WaveSample, ParsedAsdu}
use wire_bonding_ultra.Models.Arithmetic.{Arithmetic, decoder_floats}
use wire_bonding_ultra.Iec61850.Result.{Result, ok, err, panic, stuck}
use wire_bonding_ultra.Iec61850.Frame.{Decoder, decode_full}
use wire_bonding_ultra.Canbus.Fuse.{Centi}
use wire_bonding_ultra.Gateway.State.{Config, Gateway}
use wire_bonding_ultra.Gateway.Loops.{capture_batch}
use wire_bonding_ultra.Gateway.Steps.{Step, Reachable}

-- The frames that the capture gave, those that found the ring full, those that the decode loop is done
-- with, those of them that did not parse, and those of them whose samples found the other ring full.
pub record Tally : Type 0 where
  pub received : ℕ
  pub dropped : ℕ
  pub handled : ℕ
  pub refused : ℕ
  pub lost : ℕ

abbrev pub no_frames : Tally
no_frames = record { received = 0; dropped = 0; handled = 0; refused = 0; lost = 0 }

abbrev pub is_full {ℓ} : {A : Type ℓ} → List A → ℕ → ℕ
is_full ring capacity = if length ring == capacity then 1 else 0

module _ {ℓ} (arithmetic : Arithmetic {ℓ}) where
  open arithmetic use {F}

  -- A frame that was decoded, where `full` is 1 if the ring of samples is full.
  abbrev pub tally_decoded : Result (ParsedAsdu F × List (WaveSample F)) → ℕ → Tally → Tally
  tally_decoded (ok (asdu, [])) full t = record t { handled = t.handled + 1 }
  tally_decoded (ok (asdu, s ∷ samples)) full t = record t {
    handled = t.handled + 1;
    lost = t.lost + full;
  }
  tally_decoded (err e) full t = record t { handled = t.handled + 1; refused = t.refused + 1 }
  tally_decoded panic full t = t
  tally_decoded stuck full t = t

  module _ (centi : Centi {ℓ}) (to_float32 : F → centi.F) where
    unfoldable pub tally_step :
        (gw gw' : Gateway arithmetic) → Step arithmetic centi to_float32 gw gw' → Tally → Tally
    unfolding capture_batch decode_full
    tally_step gw gw' (Step.reads wave now r p) t = record t {
      received = t.received + length (capture_batch arithmetic wave now gw).pending;
    }
    tally_step gw gw' (Step.hands_on now frame rest p) t = record t {
      dropped = t.dropped + is_full gw.frame_ring gw.ring_capacity;
    }
    tally_step gw gw' (Step.decodes now msg rest b e) t =
        tally_decoded (decode_full (decoder_floats arithmetic) gw.decoder now msg.frame).1
          (is_full gw.samp_ring gw.ring_capacity) t
    tally_step gw gw' _ t = t

    unfoldable pub tally :
        {decoder : Decoder (decoder_floats arithmetic)} {cfg : Config arithmetic}
        (gw : Gateway arithmetic)
        → Reachable arithmetic centi to_float32 decoder cfg gw
        → Tally
    unfolding tally_step
    tally gw Reachable.made = no_frames
    tally gw (Reachable.after {gw = before} r s) = tally_step before gw s (tally before r)

    -- The frames that calls from outside have sent.
    unfoldable pub outside_step :
        (gw gw' : Gateway arithmetic) → Step arithmetic centi to_float32 gw gw' → ℕ → ℕ
    outside_step gw gw' (Step.sends fd now frame e) n = n + 1
    outside_step gw gw' _ n = n

    unfoldable pub sent_outside :
        {decoder : Decoder (decoder_floats arithmetic)} {cfg : Config arithmetic}
        (gw : Gateway arithmetic)
        → Reachable arithmetic centi to_float32 decoder cfg gw
        → ℕ
    unfolding outside_step
    sent_outside gw Reachable.made = 0
    sent_outside gw (Reachable.after {gw = before} r s) =
        outside_step before gw s (sent_outside before r)
