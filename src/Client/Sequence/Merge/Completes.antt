-- ===== src/Client/Sequence/Merge/Completes.antt =====
-- What a whole response leaves in the sequence (include/flashptp/client/sequence.h).
use flashptpd.Prelude.{Option, ap, sym, ◌∙◌, ◌≡◌, refl, true, false, ◌&&◌, none, some, arith}
use mathlib.Core.Path.{subst}
use flashptpd.Wire.Timestamp.{Timespec, Timestamp, of_timespec}
use flashptpd.Wire.Tlv.{RespTlv}
use flashptpd.Wire.Message.{Message, two_step, sync, follow_up}
use flashptpd.Client.Sequence.{
  Sequence, TimestampLevel, is_valid_level, merge, merge_tlv, merge_correction, complete, has,
}
use flashptpd.Client.Sequence.Merge.{
  IsFresh, sync_part, follow_up_part, close, merge-sync_eq, merge-follow_up_eq, sync_stays_open,
}

-- The sequence has the four time stamps, the correction of the request and the error of the response.
pub record IsAnswered (t2 t3 t4 : Timestamp) (tlv : RespTlv) (s : Sequence) : Type 0 where
  pub whole : (complete s).1 ≡ true
  pub t2_is : s.t2 ≡ t2
  pub t2_correction_is : s.t2_correction ≡ tlv.req_correction_field
  pub t3_is : s.t3 ≡ t3
  pub t4_is : s.t4 ≡ t4
  pub error_is : s.error ≡ tlv.error

merge_tlv_sets :
    (m : Message) (tlv : RespTlv) (s : Sequence)
    → let s' = merge_tlv m (some tlv) s in
      (s'.complete_flag ≡ s.complete_flag)
      × (s'.t1 ≡ s.t1)
      × (s'.t2 ≡ tlv.req_ingress_timestamp)
      × (s'.t2_correction ≡ tlv.req_correction_field)
      × (s'.t3 ≡ s.t3)
      × (s'.t4 ≡ s.t4)
      × (s'.error ≡ tlv.error)
unfolding merge_tlv
merge_tlv_sets m tlv s = ground arith

close-complete :
    (s : Sequence)
    → s.complete_flag ≡ false
    → (has s.t1 && has s.t2 && has s.t3 && has s.t4) ≡ true
    → ((complete (close s)).1 ≡ true)
      × ((close s).t2 ≡ s.t2)
      × ((close s).t2_correction ≡ s.t2_correction)
      × ((close s).t3 ≡ s.t3)
      × ((close s).t4 ≡ s.t4)
      × ((close s).error ≡ s.error)
unfolding complete merge_correction
close-complete s e h = rw (e, h) (refl, refl, refl, refl, refl, refl)

sync_first :
    (sy fu : Message) (level : TimestampLevel) (t : Timespec) (s : Sequence)
    → sy.msg_type ≡ sync
    → two_step sy ≡ true
    → fu.msg_type ≡ follow_up
    → is_valid_level level ≡ true
    → IsFresh s
    → merge sy none level (some t) s ≡ sync_part sy level t s
unfolding merge_tlv
sync_first sy fu level t s e f g l fresh =
    merge-sync_eq sy none level t s e f l ∙ sync_stays_open sy fu level t s e f g l fresh none

all_there :
    (c : Sequence) {t1 t2 t3 t4 : Timestamp}
    → (c.t1 ≡ t1) × (c.t2 ≡ t2) × (c.t3 ≡ t3) × (c.t4 ≡ t4)
    → (has t1 && has t2 && has t3 && has t4) ≡ true
    → (has c.t1 && has c.t2 && has c.t3 && has c.t4) ≡ true
all_there c e h = rw (e.0, e.1, e.2, e.3) h

-- A two-step Sync and a Follow Up with the TLV complete a sequence that has sent its request.
pub merge-IsAnswered :
    (sy fu : Message) (tlv : RespTlv) (level fl : TimestampLevel) (t : Timespec)
    (ft : Option Timespec) (s : Sequence)
    → sy.msg_type ≡ sync
    → two_step sy ≡ true
    → fu.msg_type ≡ follow_up
    → is_valid_level level ≡ true
    → IsFresh s
    → (has s.t1 && has tlv.req_ingress_timestamp && has fu.timestamp && has (of_timespec t)) ≡ true
    → IsAnswered tlv.req_ingress_timestamp fu.timestamp
        (of_timespec t)
        tlv
        (merge fu (some tlv) fl ft (merge sy none level (some t) s))
merge-IsAnswered sy fu tlv level fl t ft s e f g l fresh h =
    let p = sync_part sy level t s in
    let c = merge_tlv fu (some tlv) (follow_up_part fu p) in
    let sets = merge_tlv_sets fu tlv (follow_up_part fu p) in
    let done =
      close-complete c (sets.0 ∙ fresh.incomplete)
        (all_there c (sets.1, sets.2, sets.4, sets.5) h) in
    subst (IsAnswered tlv.req_ingress_timestamp fu.timestamp (of_timespec t) tlv)
      (sym (
        ap (merge fu (some tlv) fl ft) (sync_first sy fu level t s e f g l fresh)
        ∙ merge-follow_up_eq fu (some tlv) fl ft p g))
      (record {
        whole = done.0;
        t2_is = done.1 ∙ sets.2;
        t2_correction_is = done.2 ∙ sets.3;
        t3_is = done.3 ∙ sets.4;
        t4_is = done.4 ∙ sets.5;
        error_is = done.5 ∙ sets.6;
      })
