-- ===== src/Gateway/Steps.antt =====
-- The gateway's loops and the calls from outside as a step relation: any loop may take the next step.
use wire_bonding_ultra.Prelude.{ℕ, ◌≡◌, List, [], ◌∷◌, true, none, some}
use wire_bonding_ultra.Models.{WaveSample, RawFrame}
use wire_bonding_ultra.Models.Arithmetic.{Arithmetic, decoder_floats}
use wire_bonding_ultra.Packetcap.{Waveform}
use wire_bonding_ultra.Iec61850.Frame.{Decoder}
use wire_bonding_ultra.Canbus.Fuse.{
  Centi, Frame20B, FuseChannel, FuseDispatcher, find_channel, put_channel, get_channel, next_seq,
  on_sent,
}
use wire_bonding_ultra.Impedance.Pipeline.Config.{PullEvent, reset}
use wire_bonding_ultra.Impedance.Pipeline.{
  process, set_pull_redline, jump_threshold, phase_threshold,
}
use wire_bonding_ultra.Gateway.State.{Config, Gateway, FrameMsg, new_gateway}
use wire_bonding_ultra.Gateway.Loops.{
  capture_batch, capture_frame, decode_batch, decode_frame, decode_done, dsp_begin, stop_event,
  dsp_end, used_fuse, start, stop,
}

module _ {ℓ} (arithmetic : Arithmetic {ℓ}) (centi : Centi {ℓ})
    (to_float32 : arithmetic.F → centi.F) where
  open arithmetic use {F}

  -- `Pipeline()` and `FuseDispatcher()` give the parts themselves, so calls from outside come between
  -- the loops' steps; the two rings that are given out are only looked at. The decode loop counts the
  -- samples of a batch before it takes the next, and the DSP loop is done with a batch's events and
  -- latency before it takes the next.
  -- The methods of a channel: `composes` is either Compose method, which both move its number on, and
  -- `sends` is Send; DispatchEmergency is GetChannel, a Compose and a Send.
  pub data Step : Gateway arithmetic → Gateway arithmetic → Type ℓ where
    starts : {gw : Gateway arithmetic} → Step gw (start arithmetic gw)
    stops : {gw : Gateway arithmetic} → Step gw (stop arithmetic gw)
    reads :
        {gw : Gateway arithmetic} (wave : Waveform) (now : ℕ)
        → gw.running ≡ true
        → gw.pending ≡ []
        → Step gw (capture_batch arithmetic wave now gw)
    hands_on :
        {gw : Gateway arithmetic} (now : ℕ) (frame : RawFrame) (rest : List RawFrame)
        → gw.pending ≡ frame ∷ rest
        → Step gw (capture_frame arithmetic now frame rest gw)
    takes :
        {gw : Gateway arithmetic}
        → gw.running ≡ true
        → gw.batch ≡ []
        → gw.batch_samples ≡ 0
        → Step gw (decode_batch arithmetic gw)
    decodes :
        {gw gw' : Gateway arithmetic} (now : ℕ) (msg : FrameMsg) (rest : List FrameMsg)
        → gw.batch ≡ msg ∷ rest
        → decode_frame arithmetic now msg rest gw ≡ some gw'
        → Step gw gw'
    counts : {gw : Gateway arithmetic} → gw.batch ≡ [] → Step gw (decode_done arithmetic gw)
    processes :
        {gw : Gateway arithmetic} (latency : ℕ) (clock : ℕ → ℕ)
        → gw.running ≡ true
        → gw.events ≡ []
        → gw.measuring ≡ none
        → Step gw (dsp_begin arithmetic latency clock gw)
    stops_machine :
        {gw : Gateway arithmetic} (now : ℕ) (e : PullEvent arithmetic)
        (rest : List (PullEvent arithmetic))
        → gw.events ≡ e ∷ rest
        → Step gw (stop_event arithmetic centi to_float32 now e rest gw)
    measures : {gw : Gateway arithmetic} → gw.events ≡ [] → Step gw (dsp_end arithmetic gw)
    sets_redline :
        {gw : Gateway arithmetic} (grams : F)
        → Step gw (record gw { pipeline = set_pull_redline arithmetic grams gw.pipeline })
    sets_jump :
        {gw : Gateway arithmetic} (pct : F)
        → Step gw (record gw { pipeline = jump_threshold arithmetic pct gw.pipeline })
    sets_phase :
        {gw : Gateway arithmetic} (deg : F)
        → Step gw (record gw { pipeline = phase_threshold arithmetic deg gw.pipeline })
    resets :
        {gw : Gateway arithmetic} → Step gw (record gw { pipeline = reset arithmetic gw.pipeline })
    feeds :
        {gw : Gateway arithmetic} (now : ℕ) (s : WaveSample F)
        → Step gw (record gw { pipeline = (process arithmetic now s gw.pipeline).0 })
    gets_channel :
        {gw : Gateway arithmetic} (fd : FuseDispatcher) (device : ℕ)
        → gw.fuse ≡ some fd
        → Step gw (used_fuse arithmetic fd (get_channel device fd).0 gw)
    composes :
        {gw : Gateway arithmetic} (fd : FuseDispatcher) (device : ℕ) (ch : FuseChannel)
        → gw.fuse ≡ some fd
        → find_channel fd.channels device ≡ some ch
        → Step gw (
            used_fuse arithmetic fd
              (record fd { channels = put_channel fd.channels device (next_seq centi ch) })
              gw)
    sends :
        {gw : Gateway arithmetic} (fd : FuseDispatcher) (now : ℕ) (frame : Frame20B)
        → gw.fuse ≡ some fd
        → Step gw (used_fuse arithmetic fd (on_sent now frame fd) gw)

  -- What a new gateway can come to.
  pub data Reachable (decoder : Decoder (decoder_floats arithmetic)) (cfg : Config arithmetic)
      : Gateway arithmetic → Type ℓ where
    made : Reachable decoder cfg (new_gateway arithmetic decoder cfg)
    after :
        {gw gw' : Gateway arithmetic}
        → Reachable decoder cfg gw
        → Step gw gw'
        → Reachable decoder cfg gw'
