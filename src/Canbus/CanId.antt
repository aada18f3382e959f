-- ===== src/Canbus/CanId.antt =====
-- internal/canbus/fuse.go: PackCanID and UnpackCanID, five fields in a uint32.
use wire_bonding_ultra.Prelude.{
  ℕ, ◌+◌, ◌*◌, ◌/◌, ◌%◌, ◌^◌, ◌<◌, bit_and, bit_or, ◌≡◌, ap, ◌∙◌, arith,
}
use wire_bonding_ultra.Prelude.Bits.{bit_and-mask, bit_or-add, zero-bit_or}

-- The fields are below 2 ^ 8, so no shift loses a bit.
unfoldable pub pack_can_id : ℕ → ℕ → ℕ → ℕ → ℕ → ℕ
pack_can_id priority device cmd reason seq =
    bit_or
      (bit_or
        (bit_or (bit_or (bit_or 0 (bit_and priority 0x03 * 2 ^ 30)) (bit_and device 0x3f * 2 ^ 24))
          (bit_and cmd 0xff * 2 ^ 16))
        (bit_and reason 0xff * 2 ^ 8))
      (bit_and seq 0xff)

pub record CanId : Type 0 where
  pub priority : ℕ
  pub device : ℕ
  pub cmd : ℕ
  pub reason : ℕ
  pub seq : ℕ

unfoldable pub unpack_can_id : ℕ → CanId
unpack_can_id id = record {
  priority = bit_and (id / 2 ^ 30) 0x03;
  device = bit_and (id / 2 ^ 24) 0x3f;
  cmd = bit_and (id / 2 ^ 16) 0xff;
  reason = bit_and (id / 2 ^ 8) 0xff;
  seq = bit_and id 0xff;
}

mask2 : (a : ℕ) → bit_and a 0x03 ≡ a % 4
mask2 a = bit_and-mask 2 a

pub mask6 : (a : ℕ) → bit_and a 0x3f ≡ a % 64
mask6 a = bit_and-mask 6 a

pub mask8 : (a : ℕ) → bit_and a 0xff ≡ a % 256
mask8 a = bit_and-mask 8 a

-- Fields in range do not meet.
packed :
    (p d c r s : ℕ)
    → d < 64
    → c < 256
    → r < 256
    → s < 256
    → bit_or
        (bit_or (bit_or (bit_or (bit_or 0 (p * 2 ^ 30)) (d * 2 ^ 24)) (c * 2 ^ 16)) (r * 2 ^ 8))
        s
      ≡ (((p * 64 + d) * 256 + c) * 256 + r) * 256 + s
packed p d c r s hd hc hr hs =
    ap (λ t. bit_or (bit_or (bit_or (bit_or t (d * 2 ^ 24)) (c * 2 ^ 16)) (r * 2 ^ 8)) s)
      (zero-bit_or (p * 2 ^ 30))
    ∙ ap (λ t. bit_or (bit_or (bit_or t (c * 2 ^ 16)) (r * 2 ^ 8)) s)
        (bit_or-add 30 p (d * 2 ^ 24) (omega arith) ∙ omega arith)
    ∙ ap (λ t. bit_or (bit_or t (r * 2 ^ 8)) s)
        (bit_or-add 24 (p * 64 + d) (c * 2 ^ 16) (omega arith) ∙ omega arith)
    ∙ ap (λ t. bit_or t s)
        (bit_or-add 16 ((p * 64 + d) * 256 + c) (r * 2 ^ 8) (omega arith) ∙ omega arith)
    ∙ bit_or-add 8 (((p * 64 + d) * 256 + c) * 256 + r) s (omega arith)
    ∙ omega arith

-- The identifier is the number whose digits are the masked fields.
pack_can_id-sum :
    (priority device cmd reason seq : ℕ)
    → pack_can_id priority device cmd reason seq
      ≡ (((priority % 4 * 64 + device % 64) * 256 + cmd % 256) * 256 + reason % 256) * 256
        + seq % 256
unfolding pack_can_id
pack_can_id-sum priority device cmd reason seq =
    rw (mask2 priority, mask6 device, mask8 cmd, mask8 reason, mask8 seq)
      (packed (priority % 4) (device % 64) (cmd % 256) (reason % 256) (seq % 256) (ground arith)
        (ground arith) (ground arith) (ground arith))

can_id-ext :
    {a b : CanId}
    → a.priority ≡ b.priority
    → a.device ≡ b.device
    → a.cmd ≡ b.cmd
    → a.reason ≡ b.reason
    → a.seq ≡ b.seq
    → a ≡ b
can_id-ext p d c r s i = record { priority = p i; device = d i; cmd = c i; reason = r i; seq = s i }

-- UnpackCanID reads from an identifier the fields that PackCanID was given, where they are in their
-- ranges: two bits of priority, six of the device, a byte of each other.
pub unpack_can_id-pack_can_id :
    (priority device cmd reason seq : ℕ)
    → priority < 4
    → device < 64
    → cmd < 256
    → reason < 256
    → seq < 256
    → unpack_can_id (pack_can_id priority device cmd reason seq)
      ≡ record { priority = priority; device = device; cmd = cmd; reason = reason; seq = seq }
unfolding unpack_can_id
unpack_can_id-pack_can_id priority device cmd reason seq hp hd hc hr hs =
    rw (pack_can_id-sum priority device cmd reason seq) (
      can_id-ext (mask2 _ ∙ omega arith) (mask6 _ ∙ omega arith) (mask8 _ ∙ omega arith)
        (mask8 _ ∙ omega arith) (mask8 _ ∙ omega arith))

-- PackCanID builds every uint32 again from the fields that UnpackCanID reads, so no two identifiers
-- have the same fields.
pub pack_can_id-unpack_can_id :
    (id : ℕ)
    → id < 2 ^ 32
    → (let f = unpack_can_id id in pack_can_id f.priority f.device f.cmd f.reason f.seq) ≡ id
unfolding unpack_can_id
pack_can_id-unpack_can_id id h =
    pack_can_id-sum _ _ _ _ _
    ∙ rw
        (
          mask2 (id / 2 ^ 30),
          mask6 (id / 2 ^ 24),
          mask8 (id / 2 ^ 16),
          mask8 (id / 2 ^ 8),
          mask8 id,
        )
        (omega arith)
