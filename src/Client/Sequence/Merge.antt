-- ===== src/Client/Sequence/Merge.antt =====
-- The two halves of a response may come in either order: `merge` and `complete`
-- (include/flashptp/client/sequence.h).
pub mod Completes
use flashptpd.Prelude.{
  ap, sym, ◌∙◌, ◌≡◌, refl, true, false, ◌⊎◌, inl, inr, Option, none, some, arith,
}
use flashptpd.Wire.Timestamp.{Timespec, zero_timestamp, empty, of_timespec}
use flashptpd.Wire.Tlv.{RespTlv}
use flashptpd.Wire.Message.{Message, two_step, sync, follow_up}
use flashptpd.Client.Sequence.{
  Sequence, TimestampLevel, is_valid_level, merge, merge_message, merge_tlv, merge_correction,
  complete,
}

-- Nothing of the response has been merged yet.
pub record IsFresh (s : Sequence) : Type 0 where
  pub incomplete : s.complete_flag ≡ false
  pub no_t2 : s.t2 ≡ zero_timestamp
  pub no_t3 : s.t3 ≡ zero_timestamp
  pub no_t4 : s.t4 ≡ zero_timestamp

-- At most one of the two messages carries the TLV.
abbrev pub AtMostOne : Option RespTlv → Option RespTlv → Type 0
AtMostOne a b = (a ≡ none) ⊎ (b ≡ none)

-- What a Sync, and a Follow Up, writes into the sequence.
abbrev sync_part : Message → TimestampLevel → Timespec → Sequence → Sequence
sync_part sy level t s = record s {
  timestamp_level = level;
  t4 = of_timespec t;
  sync_correction = sy.correction;
}

abbrev follow_up_part : Message → Sequence → Sequence
follow_up_part fu s = record s { t3 = fu.timestamp; follow_up_correction = fu.correction }

abbrev close : Sequence → Sequence
close s = merge_correction (complete s)

merge-sync_eq :
    (sy : Message) (a : Option RespTlv) (level : TimestampLevel) (t : Timespec) (s : Sequence)
    → sy.msg_type ≡ sync
    → two_step sy ≡ true
    → is_valid_level level ≡ true
    → merge sy a level (some t) s ≡ close (merge_tlv sy a (sync_part sy level t s))
unfolding merge merge_message
merge-sync_eq sy a level t s e f g = rw (e, f, g, merge, merge_message)

merge-follow_up_eq :
    (fu : Message) (b : Option RespTlv) (fl : TimestampLevel) (ft : Option Timespec) (s : Sequence)
    → fu.msg_type ≡ follow_up
    → merge fu b fl ft s ≡ close (merge_tlv fu b (follow_up_part fu s))
unfolding merge merge_message
merge-follow_up_eq fu b fl ft s e = rw (e, merge, merge_message)

merge_tlv-sync_part :
    (m sy : Message) (level : TimestampLevel) (t : Timespec) (b : Option RespTlv) (s : Sequence)
    → merge_tlv m b (sync_part sy level t s) ≡ sync_part sy level t (merge_tlv m b s)
unfolding merge_tlv
merge_tlv-sync_part m sy level t none s = refl
merge_tlv-sync_part m sy level t (some y) s = ground arith

merge_tlv-follow_up_part :
    (m fu : Message) (b : Option RespTlv) (s : Sequence)
    → merge_tlv m b (follow_up_part fu s) ≡ follow_up_part fu (merge_tlv m b s)
unfolding merge_tlv
merge_tlv-follow_up_part m fu none s = refl
merge_tlv-follow_up_part m fu (some y) s = ground arith

merge_tlv_keeps :
    (m : Message) (b : Option RespTlv) (s : Sequence)
    → let s' = merge_tlv m b s in
      (s'.complete_flag ≡ s.complete_flag) × (s'.t3 ≡ s.t3) × (s'.t4 ≡ s.t4)
unfolding merge_tlv
merge_tlv_keeps m none s = (refl, refl, refl)
merge_tlv_keeps m (some y) s = ground arith

close_incomplete :
    (s : Sequence)
    → s.complete_flag ≡ false
    → (empty s.t3 ≡ true) ⊎ (empty s.t4 ≡ true)
    → close s ≡ s
unfolding complete merge_correction
close_incomplete s e h = ground arith

module _ (sy fu : Message) (level : TimestampLevel) (t : Timespec) (s : Sequence)
    (is_sync : sy.msg_type ≡ sync) (is_two_step : two_step sy ≡ true)
    (is_follow_up : fu.msg_type ≡ follow_up) (level_ok : is_valid_level level ≡ true)
    (fresh : IsFresh s) where
  sync_stays_open :
      (a : Option RespTlv)
      → close (merge_tlv sy a (sync_part sy level t s)) ≡ merge_tlv sy a (sync_part sy level t s)
  unfolding empty
  sync_stays_open a =
      let keeps = merge_tlv_keeps sy a (sync_part sy level t s) in
      close_incomplete (merge_tlv sy a (sync_part sy level t s)) (keeps.0 ∙ fresh.incomplete)
        (inl (ap empty (keeps.1 ∙ fresh.no_t3)))

  follow_up_stays_open :
      (b : Option RespTlv)
      → close (merge_tlv fu b (follow_up_part fu s)) ≡ merge_tlv fu b (follow_up_part fu s)
  unfolding empty
  follow_up_stays_open b =
      let keeps = merge_tlv_keeps fu b (follow_up_part fu s) in
      close_incomplete (merge_tlv fu b (follow_up_part fu s)) (keeps.0 ∙ fresh.incomplete)
        (inr (ap empty (keeps.2 ∙ fresh.no_t4)))

  parts_comm :
      (a b : Option RespTlv)
      → AtMostOne a b
      → merge_tlv fu b (follow_up_part fu (merge_tlv sy a (sync_part sy level t s)))
        ≡ merge_tlv sy a (sync_part sy level t (merge_tlv fu b (follow_up_part fu s)))
  unfolding merge_tlv
  parts_comm none b h = merge_tlv-sync_part fu sy level t b (follow_up_part fu s)
  parts_comm (some x) none h =
      sym (merge_tlv-follow_up_part sy fu (some x) (sync_part sy level t s))
  parts_comm (some x) (some y) (inl e) = cc
  parts_comm (some x) (some y) (inr e) = cc

  -- A two-step Sync and its Follow Up, at most one of them with the Response TLV, leave the same
  -- sequence in either order, if nothing of the response has come before, at whatever time and level the
  -- Follow Up is received.
  pub merge_comm :
      (a b : Option RespTlv) (fl : TimestampLevel) (ft : Option Timespec)
      → AtMostOne a b
      → merge fu b fl ft (merge sy a level (some t) s)
        ≡ merge sy a level (some t) (merge fu b fl ft s)
  merge_comm a b fl ft h =
      rw
        (
          merge-sync_eq sy a level t s is_sync is_two_step level_ok,
          merge-follow_up_eq fu b fl ft s is_follow_up,
          sync_stays_open a,
          follow_up_stays_open b,
          merge-sync_eq sy a level t (merge_tlv fu b (follow_up_part fu s)) is_sync is_two_step
              level_ok,
          merge-follow_up_eq fu b fl ft (merge_tlv sy a (sync_part sy level t s)) is_follow_up,
        )
        (ap close (parts_comm a b h))
