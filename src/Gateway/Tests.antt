-- ===== src/Gateway/Tests.antt =====
-- A gateway with a batch of one frame. Numbers stand for floats.
use wire_bonding_ultra.Prelude.{
  ℕ, ◌*◌, [], ◌∷◌, true, false, ◌≡◌, refl, some, length, arith, ◌<◌, ap, take, Bool, List,
}
use wire_bonding_ultra.Models.{WaveSample, RawFrame}
use wire_bonding_ultra.Ringbuf.Fifo.{push_room}
use wire_bonding_ultra.Ringbuf.Tagged.Pow2.{ring_size_least}
use wire_bonding_ultra.Packetcap.{build_sv_frame, simulate_batch, simulate_from, new_packet_capture}
use wire_bonding_ultra.Gateway.State.{FrameMsg}
use wire_bonding_ultra.Gateway.Loops.{zero_frame_msg, capture_frame, decode_batch, decode_frame}
use wire_bonding_ultra.Gateway.Progress.{decode_frame_continues}
use wire_bonding_ultra.Models.Whole.{whole}
use wire_bonding_ultra.Models.Arithmetic.{decoder_floats, of_int, times}
use wire_bonding_ultra.Packetcap.{Waveform}
use wire_bonding_ultra.Iec61850.Frame.{Decoder}
use wire_bonding_ultra.Canbus.Fuse.{Centi, Frame20B, FuseDispatcher, new_fuse_dispatcher, on_sent}
use wire_bonding_ultra.Impedance.Pipeline.Batch.{outcomes}
use wire_bonding_ultra.Gateway.State.{Config, Gateway, new_gateway}
use wire_bonding_ultra.Gateway.Loops.{start, capture_batch, used_fuse}
use wire_bonding_ultra.Gateway.Steps.{Step, Reachable}
use wire_bonding_ultra.Gateway.Tally.{tally, tally_step, sent_outside}
use wire_bonding_ultra.Gateway.Dispatch.{Agrees, raised}
use wire_bonding_ultra.Gateway.Emergency.{counters_agree}
use wire_bonding_ultra.Gateway.Conserve.{Account}
use wire_bonding_ultra.Gateway.Balance.{Reachable-Account}

abbrev cents : Centi {0}
cents = record { F = ℕ; to_centi = λ x. x; of_centi = λ n. n }

abbrev same : ℕ → ℕ
same x = x

abbrev wave : Waveform
wave n = (n, n)

abbrev decoder : Decoder (decoder_floats whole)
decoder = record { voltage_scale = 1; current_scale = 1 }

abbrev cfg : Config whole
cfg = record {
  target_hz = 1;
  window_size = 4;
  matrix_rows = 4;
  simulate = true;
  batch_size = 1;
  ring_cap = 4;
  worker_count = 1;
  pull_redline_g = 1_000_000_000_000_000_000;
  enable_can_fuse = true;
  can_device_id = 1;
}

-- The gateway has started and the capture loop has read a frame.
abbrev started : Gateway whole
started = start whole (new_gateway whole decoder cfg)

running : started.running ≡ true
unfolding start
running = refl

idle : started.pending ≡ []
unfolding start new_gateway
idle = refl

abbrev read : Gateway whole
read = capture_batch whole wave 1000 started

read-Reachable : Reachable whole cents same decoder cfg read
read-Reachable =
    Reachable.after (Reachable.after Reachable.made Step.starts) (Step.reads wave 1000 running idle)

abbrev sample : ℕ → WaveSample ℕ
sample n = record { timestamp_ns = n * 10_000; voltage = 6; current = 2; seq_no = n }

-- A message with eight samples waits for the DSP loop, the last two of which raise pull events.
abbrev waiting : Gateway whole
waiting = record (new_gateway whole decoder cfg) {
  samp_ring =
      record {
        samples =
            sample 1
            ∷ sample 2
            ∷ sample 3
            ∷ sample 4
            ∷ sample 5
            ∷ sample 6
            ∷ sample 7
            ∷ sample 8
            ∷ [];
        rx_ts = 5;
      }
      ∷ [];
}

abbrev fuse : FuseDispatcher
fuse = new_fuse_dispatcher true

raises_two : length (raised whole cents same same waiting) ≡ 2
unfolding outcomes new_gateway of_int times
raises_two = refl

abbrev stop_frame : Frame20B
stop_frame = record { id = 0; extended = true; rtr = false; dlc = 8; bytes = []; timestamp_ns = 0 }

-- The frame goes through the ring to the decode loop.
abbrev frame : RawFrame
frame = build_sv_frame wave 0 80 0 1000

read_one : read.pending ≡ frame ∷ []
unfolding start capture_batch simulate_batch simulate_from new_gateway new_packet_capture
read_one = refl

abbrev handed : Gateway whole
handed = capture_frame whole 7 frame [] read

abbrev message : FrameMsg
message = record { frame = frame; rx_ts = 7 }

room : 0 < read.ring_capacity
unfolding start capture_batch new_gateway
room =
    let (n, some_bits, few, e, above, near) = ring_size_least 4 (omega arith) in
    omega (arith, e, above)

in_ring : handed.frame_ring ≡ message ∷ []
unfolding start capture_batch capture_frame new_gateway
in_ring =
    ap (λ (r : Bool × List FrameMsg). r.1)
      (push_room zero_frame_msg read.ring_capacity [] message room)

handed_on : (handed.running ≡ true) × (handed.batch ≡ []) × (handed.batch_samples ≡ 0)
unfolding start capture_batch capture_frame new_gateway
handed_on = (refl, refl, refl)

abbrev taken : Gateway whole
taken = decode_batch whole handed

taken-Reachable : Reachable whole cents same decoder cfg taken
taken-Reachable =
    Reachable.after (Reachable.after read-Reachable (Step.hands_on 7 frame [] read_one))
      (Step.takes handed_on.0 handed_on.1 handed_on.2)

in_batch : taken.batch ≡ message ∷ []
unfolding decode_batch
in_batch = ap (take 64) in_ring

decode_frame_continues_example :
    (gw' : Gateway whole) × (decode_frame whole 9 message [] taken ≡ some gw')
    × Reachable whole cents same decoder cfg gw'
decode_frame_continues_example =
    decode_frame_continues whole cents same decoder cfg taken 9 message [] (omega arith)
      taken-Reachable in_batch

-- The DSP loop finds no samples yet, and a call from outside sends the machine a frame.
abbrev sent : Gateway whole
sent = used_fuse whole fuse (on_sent 5 stop_frame fuse) taken

fuse_taken : taken.fuse ≡ some fuse
unfolding start capture_batch capture_frame decode_batch new_gateway
fuse_taken = refl

sent-Reachable : Reachable whole cents same decoder cfg sent
sent-Reachable = Reachable.after taken-Reachable (Step.sends fuse 5 stop_frame fuse_taken)

Reachable-Account_example : Account whole (tally whole cents same sent sent-Reachable) sent
Reachable-Account_example = Reachable-Account whole cents same decoder cfg sent sent-Reachable

counters_agree_example :
    Agrees sent.fuse sent.stats.can_fuse_frames
      (length sent.events)
      sent.stats.pull_redline_hits
      (sent_outside whole cents same sent sent-Reachable)
counters_agree_example = counters_agree whole cents same decoder cfg sent sent-Reachable

-- The tally has the frame.
one_received : (tally whole cents same sent sent-Reachable).received ≡ 1
unfolding tally tally_step sent-Reachable taken-Reachable read-Reachable capture_batch start
    new_gateway simulate_batch simulate_from new_packet_capture
one_received = refl
