-- ===== src/Packetcap/Batch.antt =====
-- SimulateBatch: the frames of a batch follow one another.
use wire_bonding_ultra.Prelude.{
  ℕ, zero, suc, ◌+◌, ◌*◌, ◌%◌, ◌^◌, ◌<◌, ◌≡◌, refl, ap, ◌∙◌, arith, length, get_elem?, some, ◌==◌,
  if◌then◌else◌,
}
use wire_bonding_ultra.Models.{RawFrame, sample_interval_ns}
use wire_bonding_ultra.Packetcap.{
  Waveform, PacketCapture, build_sv_frame, simulate_from, simulate_batch,
}

suc_times : (n per : ℕ) → suc n * per ≡ per + n * per
suc_times n per = omega arith

-- Frame `k` of a batch, counted from a counter, a phase and a time.
abbrev pub frame_at : Waveform → ℕ → ℕ → ℕ → ℕ → ℕ → RawFrame
frame_at wave per now base phase k =
    build_sv_frame wave ((base + k * per) % 2 ^ 32) per
      ((phase + k * (per * 169 % 2 ^ 32)) % 2 ^ 32) ((now + k * per * sample_interval_ns) % 2 ^ 64)

simulate_from-counts :
    (wave : Waveform) (per now n i cur : ℕ) (pc : PacketCapture)
    → (let (frames, pc') = simulate_from wave per now n i cur pc in
        (length frames ≡ n)
        × (pc'.rx_packets % 2 ^ 64 ≡ (pc.rx_packets + n) % 2 ^ 64)
        × (pc'.base_smpcnt % 2 ^ 32 ≡ (cur + n * per) % 2 ^ 32))
unfolding simulate_from
simulate_from-counts wave per now zero i cur pc = (refl, omega arith, omega arith)
simulate_from-counts wave per now (suc n) i cur pc =
    let (size, packets, counter) =
      simulate_from-counts wave per now n (i + 1) ((cur + per) % 2 ^ 32) _ in
    (ap suc size, omega (arith, packets), omega (arith, counter, suc_times n per))

same_frame :
    (wave : Waveform) (per : ℕ) {a b p q s t : ℕ}
    → a ≡ b
    → p ≡ q
    → s ≡ t
    → some (build_sv_frame wave a per p s) ≡ some (build_sv_frame wave b per q t)
same_frame wave per e f g j = some (build_sv_frame wave (e j) per (f j) (g j))

simulate_from-frame :
    (wave : Waveform) (per now n i cur k : ℕ) (pc : PacketCapture)
    → k < n
    → cur < 2 ^ 32
    → pc.phase_acc < 2 ^ 32
    → get_elem? (simulate_from wave per now n i cur pc).0 k
      ≡ some (
          build_sv_frame wave
            ((cur + k * per) % 2 ^ 32)
            per
            ((pc.phase_acc + k * (per * 169 % 2 ^ 32)) % 2 ^ 32)
            ((now + (i + k) * per * sample_interval_ns) % 2 ^ 64))
unfolding simulate_from
simulate_from-frame wave per now zero i cur k pc h hc hp = absurd (omega arith)
simulate_from-frame wave per now (suc n) i cur zero pc h hc hp =
    same_frame wave per (omega arith) (omega arith)
      (ap (λ j. (now + j * per * sample_interval_ns) % 2 ^ 64) {x = i} {y = i + 0} (omega arith))
simulate_from-frame wave per now (suc n) i cur (suc k) pc h hc hp =
    simulate_from-frame wave per now n (i + 1) ((cur + per) % 2 ^ 32) k _ (omega arith)
      (omega arith) (omega arith)
    ∙ same_frame wave per (omega (arith, suc_times k per))
        (omega (arith, suc_times k (per * 169 % 2 ^ 32)))
        (ap (λ j. (now + j * per * sample_interval_ns) % 2 ^ 64) {x = i + 1 + k} {y = i + suc k}
          (omega arith))

-- SimulateBatch fills the batch, counts its frames modulo 2 ^ 64, and moves the counter on by the
-- samples of all of them. Frame k has the counter and the phase behind those of the k frames before
-- it, which wrap at 2 ^ 32, and the time that its first sample is due. The counter and the phase that
-- it starts from are uint32 values, and a number of samples of 0 stands for 80.
pub simulate_batch_lem :
    (wave : Waveform) (now n per base k : ℕ) (pc : PacketCapture)
    → base < 2 ^ 32
    → pc.phase_acc < 2 ^ 32
    → k < n
    → (let (frames, pc') = simulate_batch wave now n per base pc in
        let samples = if per == 0 then 80 else per in
        (length frames ≡ n)
        × (pc'.rx_packets % 2 ^ 64 ≡ (pc.rx_packets + n) % 2 ^ 64)
        × (pc'.base_smpcnt % 2 ^ 32 ≡ (base + n * samples) % 2 ^ 32)
        × (get_elem? frames k ≡ some (frame_at wave samples now base pc.phase_acc k)))
unfolding simulate_batch
simulate_batch_lem wave now n per base k pc hb hp h =
    let samples = if per == 0 then 80 else per in
    let (size, packets, counter) = simulate_from-counts wave samples now n 0 base pc in
    (
      size,
      packets,
      counter,
      simulate_from-frame wave samples now n 0 base k pc h hb hp
          ∙ same_frame wave samples refl refl (
              ap (λ j. (now + j * samples * sample_interval_ns) % 2 ^ 64) {x = 0 + k} {y = k}
                (omega arith)),
    )
