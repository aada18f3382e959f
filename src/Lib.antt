-- ===== src/Lib.antt =====
-- The ultra gateway for wire bonding: what its code promises, checked.
--
-- The program captures IEC 61850 sampled-value frames, decodes them to samples of voltage and
-- current, tracks the impedance and the pull strength of each bond, and stops the machine over a
-- CAN bus when a bond fails. Goroutines hand frames and samples on through lock-free rings.
--
--   Ringbuf     internal/ringbuf. Tagged is TaggedRingBuffer: NewTagged is new_tagged, Enqueue and
--               TryEnqueue are try_enqueue, Dequeue and TryDequeue are try_dequeue. Fifo is the
--               bounded queue that it implements. Batch is BatchRingBuffer and ValidateIntegrity,
--               Versioned is VersionedRingBuffer, Hazard the hazard-pointer domain with Acquire,
--               Protect, Clear, Release, Retire and Scan, Hazard/Pool is HazardPool, SafeQueue is
--               SafeQueue.
--   Iec61850    internal/iec61850. Ber is ber.go; Asdu is ParseSVASDU, Apdu is ParseAPDU, Frame the
--               two headers, ExtractSamples and DecodeFull of decoder.go. Result has the errors of
--               types.go, a run-time panic and a loop that spins as outcomes.
--   Packetcap   internal/packetcap/capture_nocgo.go: build_sv_frame is buildSVFramePureGo, and
--               simulate_batch is SimulateBatch. Batch is about its loop; Encode, Parse,
--               Roundtrip, Decode and Samples follow its frames through the decoder.
--   Canbus      internal/canbus/fuse.go. CanId is PackCanID and UnpackCanID, Crc is CRC16Fuse, Fuse
--               the frames, FuseChannel and FuseDispatcher.
--   Dsp         internal/dsp. Dsp is SlidingDFT: new_sliding_dft is NewSlidingDFT, update is Update.
--               Dsp/DualPhasor is DualPhasorPipeline and Dsp/Goertzel is Goertzel, of dual_phasor.go.
--   Pullstrength  internal/pullstrength/meyer.go. MeyerPredictor with its trackers: push_phasor is
--               PushPhasor, Solve is solveMaxwellMeyer, Config the settings and their defaults.
--   Impedance   internal/impedance. Matrix is SpatiotemporalMatrix of matrix.go: solve_impedance is
--               SolveImpedance, append_row is AppendRow, latest_row is LatestRow, snapshot_recent is
--               SnapshotRecent. Pipeline/Config is Pipeline of pipeline.go, how it is made and reset;
--               in Pipeline, process is Process, which calls the filters, the matrix and the predictor
--               one after another.
--   Gateway     internal/gateway/gateway.go. State is Config, Stats and WireBondingGateway; Loops has
--               the bodies of captureLoop, decodeLoop and dspLoop, cut so that other goroutines come
--               between the frames and the events of a batch; Steps is the relation of those steps
--               and of the calls from outside, and Tally counts along it. The two rings are Fifo's
--               bounded queues, which BatchRingBuffer implements.
--   Circle      the circular buffer that the filters, the matrix, the predictor and the pipeline each
--               write out: a slice, the index of the next write, and a flag.
--   Models      pkg/models/sample.go, and the machine, its float64 operations, as a parameter.
--   Prelude     helpers: Boolean tests, lists over native numbers, bits as arithmetic.
--
-- An unsigned integer is a number with its wrap-around written out; an int64 difference is negative
-- where its top bit is set. A byte slice is a list of numbers below 256, a pointer is its address,
-- nil is 0. An operation takes the state of its object and returns the new state; an interleaving of
-- several goroutines inside an operation of a ring is not modelled, that of the gateway's loops is.
-- The compare-and-swap loops of the rings run on fuel: one round is enough where no other goroutine
-- interferes. The parsing loops run on as much fuel as there are bytes, and each round takes one at
-- least. Floating-point arithmetic, the sine of the simulated waveform, the clock and the address of
-- fresh memory are parameters; what a theorem needs of an order on floats is its hypothesis. Sizes
-- and counts of type int that are not positive, which the code replaces by a default, are 0.
--
-- An int has 64 bits. Memory is taken to be there, but for the slice that ParseAPDU makes for as many
-- ASDUs as a frame claims: the number for which there is room is a parameter. The gateway's rings are
-- only looked at from outside, while its pipeline and its dispatcher are also called.
--
-- Not modelled: the packet capture in C, capture.c, and its wrappers in capture.go, which a build with
-- cgo takes in the place of capture_nocgo.go; the command line; the log, the gateway's callbacks but
-- the fuse's, and contexts, which only tell others what happened; what GetStats sees between two
-- counters that one step moves.
pub mod Prelude
pub mod Models
pub mod Circle
pub mod Ringbuf
pub mod Iec61850
pub mod Packetcap
pub mod Canbus
pub mod Dsp
pub mod Pullstrength
pub mod Impedance
pub mod Gateway
