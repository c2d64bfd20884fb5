-- ===== src/Client/Sequence.antt =====
-- A Sync Request in flight and its response: class `Sequence` (include/flashptp/client/sequence.h).
-- The monotonic clock that `timedOut` reads is an argument. `int64_t` results are taken in ℤ.
pub mod Finish
pub mod Merge
use flashptpd.Prelude.{
  ℕ, ◌*◌, Bool, true, false, not, ◌&&◌, ◌==◌, if◌then◌else◌, Option, none, some, ◌^◌, ltb,
}
use flashptpd.Prelude.Int.{ℤ, pos, ◌+ℤ◌, ◌-ℤ◌, ◌*ℤ◌, ltb_ℤ, quot}
use flashptpd.Wire.Timestamp.{
  Timespec, Timestamp, zero_timestamp, empty, of_timespec, ◌-ₜ◌, ◌+ₜ◌, subtract_timespecs,
}
use flashptpd.Wire.Interval.{nanoseconds, add_interval}
use flashptpd.Wire.Tlv.{ServerStateDs, RespTlv, zero_ds}
use flashptpd.Wire.Message.{Message, two_step, utc_reasonable, sync, follow_up}

-- `PTPTimestampLevel`
pub data TimestampLevel : Type 0 where
  invalid user socket hardware : TimestampLevel

abbrev pub is_valid_level : TimestampLevel → Bool
is_valid_level TimestampLevel.invalid = false
is_valid_level _ = true

pub record Sequence : Type 0 where
  pub ts : Timespec
  pub timed_out_flag : Bool
  pub complete_flag : Bool
  pub sequence_id : ℕ
  pub ms_timeout : ℕ
  pub timestamp_level : TimestampLevel
  pub t1 : Timestamp
  pub t2 : Timestamp
  pub t2_correction : ℕ
  pub t3 : Timestamp
  pub t4 : Timestamp
  pub sync_correction : ℕ
  pub follow_up_correction : ℕ
  pub t4_correction : ℕ
  pub error : ℕ
  pub utc_correction : ℤ
  pub server_state_ds_requested : Bool
  pub server_state_ds_valid : Bool
  pub server_state_ds : ServerStateDs
  pub c2s_delay : ℤ
  pub s2c_delay : ℤ
  pub offset : ℤ

-- The constructor. Interface, ports and address only serve logging and are left out.
unfoldable pub new_sequence : Timespec → ℕ → ℕ → TimestampLevel → Timespec → Bool → Sequence
new_sequence now ms_timeout id level timestamp requested = record {
  ts = now;
  timed_out_flag = false;
  complete_flag = false;
  sequence_id = id;
  ms_timeout = ms_timeout;
  timestamp_level = level;
  t1 = of_timespec timestamp;
  t2 = zero_timestamp;
  t2_correction = 0;
  t3 = zero_timestamp;
  t4 = zero_timestamp;
  sync_correction = 0;
  follow_up_correction = 0;
  t4_correction = 0;
  error = 0;
  utc_correction = pos 0;
  server_state_ds_requested = requested;
  server_state_ds_valid = false;
  server_state_ds = zero_ds;
  c2s_delay = pos 0;
  s2c_delay = pos 0;
  offset = pos 0;
}

-- `timedOut()` at the time `now`; the answer is kept in the sequence.
unfoldable pub timed_out : Timespec → Sequence → Sequence × Bool
timed_out now s =
    if s.timed_out_flag
    then (s, true)
    else (let late = ltb_ℤ (pos (s.ms_timeout * 1000000)) (subtract_timespecs now s.ts) in
        (record s { timed_out_flag = late }, late))

-- `hasT1()` to `hasT4()`
abbrev pub has : Timestamp → Bool
has t = not (empty t)

-- `complete()`, which keeps its answer too.
unfoldable pub complete : Sequence → Sequence × Bool
complete s =
    if s.complete_flag
    then (s, true)
    else (let all = has s.t1 && has s.t2 && has s.t3 && has s.t4 in
        (record s { complete_flag = all }, all))

-- `(int64_t)*tlv->utcOffset` for the pattern of the `int16_t`.
abbrev pub signed16 : ℕ → ℤ
signed16 w = if ltb w (2 ^ 15) then pos w else pos w -ℤ pos (2 ^ 16)

is_present : Option Timespec → Bool
is_present none = false
is_present (some t) = true

stamp : Option Timespec → Timestamp → Timestamp
stamp none old = old
stamp (some t) old = of_timespec t

-- The first part of `merge`: what the message itself says; `none` is its early return.
unfoldable pub merge_message :
    Message → TimestampLevel → Option Timespec → Sequence → Option Sequence
unfolding is_present stamp
merge_message msg level timestamp s =
    if msg.msg_type == sync && is_valid_level level && is_present timestamp
    then some (record s {
      t3 = if two_step msg then s.t3 else msg.timestamp;
      timestamp_level = level;
      t4 = stamp timestamp s.t4;
      sync_correction = msg.correction;
    })
    else if msg.msg_type == follow_up
    then some (record s { t3 = msg.timestamp; follow_up_correction = msg.correction })
    else none

merge_ds : Option ServerStateDs → Sequence → Sequence
merge_ds none s = s
merge_ds (some d) s = record s { server_state_ds_valid = true; server_state_ds = d }

-- The second part: what a valid Response TLV says.
unfoldable pub merge_tlv : Message → Option RespTlv → Sequence → Sequence
unfolding merge_ds
merge_tlv msg none s = s
merge_tlv msg (some tlv) s = merge_ds tlv.server_state_ds (record s {
  error = tlv.error;
  t2 = tlv.req_ingress_timestamp;
  t2_correction = tlv.req_correction_field;
  utc_correction =
      if utc_reasonable msg then signed16 tlv.utc_offset *ℤ 1000000000 else s.utc_correction;
})

-- The third part: a complete sequence sums its corrections.
unfoldable pub merge_correction : Sequence × Bool → Sequence
merge_correction (s, true) = record s {
  t4_correction = add_interval s.sync_correction s.follow_up_correction;
}
merge_correction (s, false) = s

merge_parts : Message → Option RespTlv → Sequence → Option Sequence → Sequence
merge_parts msg tlv s none = s
merge_parts msg tlv s (some s') = merge_correction (complete (merge_tlv msg tlv s'))

-- `merge`; a TLV whose `valid` flag is not set is `none`, as is a missing time stamp.
unfoldable pub merge :
    Message → Option RespTlv → TimestampLevel → Option Timespec → Sequence → Sequence
unfolding merge_parts
merge msg tlv level timestamp s = merge_parts msg tlv s (merge_message msg level timestamp s)

-- `finish()`
unfoldable pub finish : Sequence → Sequence
finish s =
    let c2 = nanoseconds s.t2_correction in
    let c4 = nanoseconds s.t4_correction in
    record s {
      c2s_delay = s.t2 -ₜ s.t1 -ℤ c2 -ℤ s.utc_correction;
      s2c_delay = s.t4 -ₜ s.t3 -ℤ c4 +ℤ s.utc_correction;
      offset =
          quot (s.t2 +ₜ s.t3 -ℤ c2 -ℤ s.utc_correction -ℤ (s.t1 +ₜ s.t4 -ℤ c4 -ℤ s.utc_correction))
            2;
    }

-- `meanPathDelay()`
unfoldable pub mean_path_delay : Sequence → ℤ
mean_path_delay s = quot (s.c2s_delay +ℤ s.s2c_delay) 2

-- `hasError()` and `hasTxTimestampError()`, for logging.
abbrev pub has_error : Sequence → Bool
has_error s = not (s.error == 0)
