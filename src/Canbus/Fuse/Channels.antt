-- ===== src/Canbus/Fuse/Channels.antt =====
-- GetChannel and the composing of frames keep the channels under their devices' numbers.
use wire_bonding_ultra.Prelude.{
  ℕ, ◌%◌, ◌≡◌, refl, sym, subst, ap, ◌∙◌, some, some-inj, arith, ◌==◌, ==_iff, Bool-cases,
  Option-cases, inl, inr,
}
use wire_bonding_ultra.Canbus.CanId.{mask6}
use wire_bonding_ultra.Canbus.Fuse.{
  Centi, FuseChannel, FuseDispatcher, new_fuse_channel, find_channel, put_channel, get_channel,
  next_seq,
}
use wire_bonding_ultra.Canbus.Fuse.Dispatch.{
  IsRegistered, find_channel-put_channel, find_channel-put_ne,
}

put_channel-IsRegistered :
    (device : ℕ) (ch : FuseChannel) (fd : FuseDispatcher)
    → ch.device_id ≡ device % 64
    → IsRegistered fd
    → IsRegistered (record fd { channels = put_channel fd.channels device ch })
put_channel-IsRegistered device ch fd e h at found was = elim (Bool-cases (at == device)) [
  | inl same ↦
      let here : at ≡ device = (==_iff at device).0 same in
      let put =
        ap (find_channel (put_channel fd.channels device ch)) here
        ∙ find_channel-put_channel fd.channels device ch in
      ap (λ (c : FuseChannel). c.device_id) (some-inj (sym was ∙ put))
      ∙ e
      ∙ ap (λ t. t % 64) (sym here)
  | inr other ↦
      h at found (sym (find_channel-put_ne fd.channels device at ch (ground (arith, other))) ∙ was)
]

pub get_channel-IsRegistered :
    (device : ℕ) (fd : FuseDispatcher) → IsRegistered fd → IsRegistered (get_channel device fd).0
unfolding get_channel
get_channel-IsRegistered device fd h = elim (Option-cases (find_channel fd.channels device)) [
  | inl missing ↦
      let put = put_channel fd.channels device (new_fuse_channel device) in
      let made : (get_channel device fd).0 ≡ record fd { channels = put } =
        rw (missing, get_channel) refl in
      subst IsRegistered (sym made)
        (put_channel-IsRegistered device (new_fuse_channel device) fd (mask6 device) h)
  | inr (ch, found) ↦
      let there : (get_channel device fd).0 ≡ fd = rw (found, get_channel) refl in
      subst IsRegistered (sym there) h
]

pub next_seq-IsRegistered {ℓ} :
    (centi : Centi {ℓ}) (device : ℕ) (ch : FuseChannel) (fd : FuseDispatcher)
    → find_channel fd.channels device ≡ some ch
    → IsRegistered fd
    → IsRegistered (record fd { channels = put_channel fd.channels device (next_seq centi ch) })
next_seq-IsRegistered centi device ch fd found h =
    put_channel-IsRegistered device (next_seq centi ch) fd (h device ch found) h

pub get_channel-keeps :
    (device : ℕ) (fd : FuseDispatcher)
    → ((get_channel device fd).0.has_send_all ≡ fd.has_send_all)
      × ((get_channel device fd).0.sent ≡ fd.sent)
unfolding get_channel
get_channel-keeps device fd = elim (Option-cases (find_channel fd.channels device)) [
  | inl missing ↦ (rw (missing, get_channel) refl, rw (missing, get_channel) refl)
  | inr (ch, found) ↦ (rw (found, get_channel) refl, rw (found, get_channel) refl)
]
