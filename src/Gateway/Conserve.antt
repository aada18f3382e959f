-- ===== src/Gateway/Conserve.antt =====
-- An account of the frames, and what the capture loop does to it.
use wire_bonding_ultra.Prelude.{
  ℕ, suc, ◌+◌, ◌%◌, ◌^◌, ◌≤◌, ◌≡◌, ◌≢◌, ap, ◌∙◌, arith, List, [], ◌∷◌, length, length-append,
  length-take, length-drop, ℕ_discrete,
}
use wire_bonding_ultra.Models.{RawFrame}
use wire_bonding_ultra.Models.Arithmetic.{Arithmetic}
use wire_bonding_ultra.Ringbuf.Fifo.{push_room, push_full}
use wire_bonding_ultra.Packetcap.{Waveform}
use wire_bonding_ultra.Gateway.State.{Gateway, FrameMsg}
use wire_bonding_ultra.Gateway.Tally.{Tally, is_full}
use wire_bonding_ultra.Gateway.Loops.{
  batch_max, zero_frame_msg, capture_batch, capture_frame, decode_batch,
}

pub is_full_yes {ℓ} :
    {A : Type ℓ} (ring : List A) (capacity : ℕ) → length ring ≡ capacity → is_full ring capacity ≡ 1
is_full_yes ring capacity h = ground (arith, h)

pub is_full_no {ℓ} :
    {A : Type ℓ} (ring : List A) (capacity : ℕ) → length ring ≢ capacity → is_full ring capacity ≡ 0
is_full_no ring capacity h = ground (arith, h)

module _ {ℓ} (arithmetic : Arithmetic {ℓ}) where
  open arithmetic use {F}

  -- The counters are the numbers of the tally modulo 2^64; every frame that was received is one that was
  -- dropped, waits in the capture loop's batch, in the ring or in the decode loop's batch, or was handled;
  -- and both rings hold at most what they have room for.
  pub record Account (t : Tally) (gw : Gateway arithmetic) : Type 0 where
    pub frames_rx : gw.stats.frames_rx ≡ t.received % 2 ^ 64
    pub frames_dropped : gw.stats.frames_dropped ≡ t.dropped % 2 ^ 64
    pub parse_errors : gw.stats.parse_errors ≡ t.refused % 2 ^ 64
    pub enq_fails : gw.stats.ring_enq_fails ≡ (t.dropped + t.lost) % 2 ^ 64
    pub deq_fails : gw.stats.ring_deq_fails ≡ 0
    pub balance :
        t.received
        ≡ t.dropped + length gw.pending + length gw.frame_ring + length gw.batch + t.handled
    pub parts : t.refused + t.lost ≤ t.handled
    pub frames_fit : length gw.frame_ring ≤ gw.ring_capacity
    pub samples_fit : length gw.samp_ring ≤ gw.ring_capacity

  -- A step that leaves alone what the account is about.
  pub same-Account :
      {t : Tally} (gw gw' : Gateway arithmetic)
      → (gw'.stats.frames_rx ≡ gw.stats.frames_rx)
        × (gw'.stats.frames_dropped ≡ gw.stats.frames_dropped)
        × (gw'.stats.parse_errors ≡ gw.stats.parse_errors)
        × (gw'.stats.ring_enq_fails ≡ gw.stats.ring_enq_fails)
        × (gw'.stats.ring_deq_fails ≡ gw.stats.ring_deq_fails)
      → gw'.pending ≡ gw.pending
      → gw'.frame_ring ≡ gw.frame_ring
      → gw'.batch ≡ gw.batch
      → length gw'.samp_ring ≤ length gw.samp_ring
      → gw'.ring_capacity ≡ gw.ring_capacity
      → Account t gw
      → Account t gw'
  same-Account gw gw' (rx, dr, pe, ef, df) p f b s c a = record {
    frames_rx = rx ∙ a.frames_rx;
    frames_dropped = dr ∙ a.frames_dropped;
    parse_errors = pe ∙ a.parse_errors;
    enq_fails = ef ∙ a.enq_fails;
    deq_fails = df ∙ a.deq_fails;
    balance = omega (arith, a.balance, ap length p, ap length f, ap length b);
    parts = a.parts;
    frames_fit = omega (arith, a.frames_fit, ap length f, c);
    samples_fit = omega (arith, a.samples_fit, s, c);
  }

  pub capture_batch-Account :
      {t : Tally} (wave : Waveform) (now : ℕ) (gw : Gateway arithmetic)
      → gw.pending ≡ []
      → Account t gw
      → Account
          (record t {
            received = t.received + length (capture_batch arithmetic wave now gw).pending;
          })
          (capture_batch arithmetic wave now gw)
  unfolding capture_batch
  capture_batch-Account wave now gw idle a =
      let frames = (capture_batch arithmetic wave now gw).pending in
      record {
        frames_rx = omega (arith, a.frames_rx);
        frames_dropped = a.frames_dropped;
        parse_errors = a.parse_errors;
        enq_fails = a.enq_fails;
        deq_fails = a.deq_fails;
        balance = omega (arith, a.balance, ap length idle);
        parts = a.parts;
        frames_fit = a.frames_fit;
        samples_fit = a.samples_fit;
      }

  pub capture_frame-Account :
      {t : Tally} (now : ℕ) (frame : RawFrame) (rest : List RawFrame) (gw : Gateway arithmetic)
      → gw.pending ≡ frame ∷ rest
      → Account t gw
      → Account
          (record t { dropped = t.dropped + is_full gw.frame_ring gw.ring_capacity })
          (capture_frame arithmetic now frame rest gw)
  unfolding capture_frame
  capture_frame-Account now frame rest gw e a =
      let msg : FrameMsg = record { frame = frame; rx_ts = now } in
      elim (ℕ_discrete (length gw.frame_ring) gw.ring_capacity) [
        | yes full ↦
            rw
              (
                push_full zero_frame_msg gw.ring_capacity gw.frame_ring msg full,
                is_full_yes gw.frame_ring gw.ring_capacity full,
              )
              (record {
                frames_rx = a.frames_rx;
                frames_dropped = omega (arith, a.frames_dropped);
                parse_errors = a.parse_errors;
                enq_fails = omega (arith, a.enq_fails);
                deq_fails = a.deq_fails;
                balance = omega (arith, a.balance, ap length e);
                parts = a.parts;
                frames_fit = a.frames_fit;
                samples_fit = a.samples_fit;
              })
        | no room ↦
            rw
              (
                push_room zero_frame_msg gw.ring_capacity gw.frame_ring msg
                    (omega (arith, a.frames_fit, room)),
                is_full_no gw.frame_ring gw.ring_capacity room,
              )
              (record {
                frames_rx = a.frames_rx;
                frames_dropped = omega (arith, a.frames_dropped);
                parse_errors = a.parse_errors;
                enq_fails = omega (arith, a.enq_fails);
                deq_fails = a.deq_fails;
                balance =
                    omega (arith, a.balance, ap length e, length-append gw.frame_ring (msg ∷ []));
                parts = a.parts;
                frames_fit =
                    omega (arith, a.frames_fit, room, length-append gw.frame_ring (msg ∷ []));
                samples_fit = a.samples_fit;
              })
      ]

  pub decode_batch-Account :
      {t : Tally} (gw : Gateway arithmetic)
      → gw.batch ≡ []
      → Account t gw
      → Account t (decode_batch arithmetic gw)
  unfolding decode_batch
  decode_batch-Account gw e a =
      let taken = length-take batch_max gw.frame_ring in
      let kept = length-drop batch_max gw.frame_ring in
      record {
        frames_rx = a.frames_rx;
        frames_dropped = a.frames_dropped;
        parse_errors = a.parse_errors;
        enq_fails = a.enq_fails;
        deq_fails = a.deq_fails;
        balance = omega (arith, a.balance, ap length e, taken, kept);
        parts = a.parts;
        frames_fit = omega (arith, a.frames_fit, kept);
        samples_fit = a.samples_fit;
      }

  -- The decode loop is done with one frame, of which `r` did not parse and `l` lost its samples.
  pub handled_one :
      {t t' : Tally} (gw gw' : Gateway arithmetic) (r l : ℕ)
      → r + l ≤ 1
      → (t'.received ≡ t.received)
        × (t'.dropped ≡ t.dropped)
        × (t'.handled ≡ t.handled + 1)
        × (t'.refused ≡ t.refused + r)
        × (t'.lost ≡ t.lost + l)
      → (gw'.stats.frames_rx ≡ gw.stats.frames_rx)
        × (gw'.stats.frames_dropped ≡ gw.stats.frames_dropped)
        × (gw'.stats.ring_deq_fails ≡ gw.stats.ring_deq_fails)
      → gw'.stats.parse_errors ≡ (gw.stats.parse_errors + r) % 2 ^ 64
      → gw'.stats.ring_enq_fails ≡ (gw.stats.ring_enq_fails + l) % 2 ^ 64
      → gw'.pending ≡ gw.pending
      → gw'.frame_ring ≡ gw.frame_ring
      → length gw.batch ≡ suc (length gw'.batch)
      → length gw'.samp_ring ≤ gw.ring_capacity
      → gw'.ring_capacity ≡ gw.ring_capacity
      → Account t gw
      → Account t' gw'
  handled_one gw gw' r l few (tr, td, th, tf, tl) (rx, dr, df) pe ef p f b s c a = record {
    frames_rx = omega (arith, rx, a.frames_rx, tr);
    frames_dropped = omega (arith, dr, a.frames_dropped, td);
    parse_errors = omega (arith, pe, a.parse_errors, tf);
    enq_fails = omega (arith, ef, a.enq_fails, td, tl);
    deq_fails = df ∙ a.deq_fails;
    balance = omega (arith, a.balance, ap length p, ap length f, b, tr, td, th);
    parts = omega (arith, a.parts, few, th, tf, tl);
    frames_fit = omega (arith, a.frames_fit, ap length f, c);
    samples_fit = omega (arith, s, c);
  }
