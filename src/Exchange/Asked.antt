-- ===== src/Exchange/Asked.antt =====
-- What a server makes of a client's request (src/flashptp/client/server.cpp and
-- src/flashptp/server/serverMode.cpp): the two messages are collected to one complete request.
use flashptpd.Prelude.{
  ℕ, ◌*◌, ◌^◌, ◌<◌, ◌≤◌, ◌≡◌, refl, ap, sym, ◌∙◌, Bool, true, false, ◌==◌, List, [], ◌∷◌, ◌++◌,
  none, some, arith, length, drop, drop-append,
}
use flashptpd.Prelude.Int.{ℤ, pos, negsuc, ◌≤ℤ◌, ltb_ℤ}
use mathlib.Core.List.{append-nil}
use flashptpd.Wire.Timestamp.{Timespec, of_timespec, subtract_timespecs}
use flashptpd.Wire.Interval.{add_interval}
use flashptpd.Wire.Tlv.{TlvHdr, req_tx_prepare, req_rx_restore, message_size, write_hdr, new_hdr}
use flashptpd.Wire.Tlv.Accept.{accept_request, length-no_tlv}
use flashptpd.Wire.Message.{
  Message, IsMessage, new_message, write_message, read_message-write_message, two_step,
  response_period, sync, follow_up,
}
use flashptpd.Client.Sequence.{TimestampLevel, is_valid_level}
use flashptpd.Client.Sequence.{new_sequence}
use flashptpd.Client.Sequence.Merge.{IsFresh}
use flashptpd.Client.Request.{
  req_buffer, request_flags, sync_request, follow_up_request, sequence_of, send_tlv, send_request,
}
use flashptpd.Config.{to_unsigned}
use flashptpd.Config.Peers.{Peer}
use flashptpd.ServerMode.{Request, SockAddr, obtain_request, complete, timed_out, timeout_ms}
use flashptpd.ServerMode.Store.{NoneMatch, collected, collected-fields, obtain_request-collected}
use flashptpd.Exchange.{Mode, Verdict, route, take_request}
use flashptpd.Exchange.Routing.{route-server}

-- The interval of an accepted configuration is no response's.
interval-lt : (z : ℤ) → negsuc 6 ≤ℤ z → z ≤ℤ pos 7 → to_unsigned 8 z == response_period ≡ false
unfolding to_unsigned
interval-lt (pos n) lo hi = ground arith
interval-lt (negsuc n) lo hi = ground arith

route-no_tlv :
    (m : Message)
    → IsMessage m
    → m.log_msg_period == response_period ≡ false
    → route Mode.server_mode (write_message m ++ []) ≡ Verdict.request m none
unfolding take_request
route-no_tlv m v p =
    let r = read_message-write_message m [] v in
    let none_there =
      length-no_tlv (write_message m ++ []) (ap length (append-nil (write_message m)) ∙ r.1) in
    route-server (write_message m ++ []) m [] r.0 ∙ cc (p, none_there)

route-tlv :
    (m : Message) (tlv : List ℕ) (len flags : ℕ)
    → IsMessage m
    → m.log_msg_period == response_period ≡ false
    → flags < 2 ^ 32
    → req_tx_prepare len flags ≡ some tlv
    → (hdr : TlvHdr) × (route Mode.server_mode (write_message m ++ tlv)
        ≡ Verdict.request m (some hdr))
      × (hdr.flags ≡ flags)
unfolding take_request
route-tlv m tlv len flags v p h e =
    let bytes = write_message m ++ tlv in
    let r = read_message-write_message m tlv v in
    let (valid, (hdr, restored, same)) = accept_request (write_message m) tlv len flags r.1 h e in
    let rest = drop-append message_size (write_message m) tlv r.1 in
    let read : req_rx_restore (drop message_size bytes) ≡ some hdr =
      ap req_rx_restore rest ∙ restored in
    (hdr, route-server bytes m tlv r.0 ∙ cc (p, valid, read), same)

req_prepared :
    (wants : Bool)
    → (tlv : List ℕ) × (req_tx_prepare req_buffer (request_flags wants) ≡ some tlv)
      × (length tlv ≤ 54)
unfolding req_tx_prepare write_hdr new_hdr
req_prepared true = (_, refl, omega arith)
req_prepared false = (_, refl, omega arith)

same_id : (a b : ℕ) → a ≡ b → a == b ≡ true
same_id a b h = ground arith

flags_small : (wants : Bool) → request_flags wants < 2 ^ 32
flags_small true = omega arith
flags_small false = omega arith

correction_small : (n a b : ℕ) → n ≡ add_interval a b → n < 2 ^ 64
unfolding add_interval
correction_small n a b h = omega (arith, h)

in_time :
    (later : Timespec) (q : Request)
    → ltb_ℤ (pos (timeout_ms * 1000000)) (subtract_timespecs later q.ts) ≡ false
    → timed_out later q ≡ false
unfolding timed_out
in_time later q h = h

module _ {F : Type 0} (p : Peer F) (plain : p.sync_tlv ≡ false) (two : p.one_step ≡ false)
    (lo : negsuc 6 ≤ℤ p.interval) (hi : p.interval ≤ℤ pos 7) where
  sync_request-IsMessage :
      (id len : ℕ)
      → id < 2 ^ 16
      → IsMessage (sync_request p id len)
        × ((sync_request p id len).msg_type ≡ sync)
        × (two_step (sync_request p id len) ≡ true)
        × ((sync_request p id len).seq_id ≡ id)
        × ((sync_request p id len).log_msg_period == response_period ≡ false)
  unfolding sync_request new_message
  sync_request-IsMessage id len h =
      rw (plain, two)
        (
          record {
            msg_type_lt = omega arith;
            total_len_lt = omega arith;
            correction_lt = omega arith;
            msg_type_specific_lt = omega arith;
            clock_id_lt = omega arith;
            port_id_lt = omega arith;
            seq_id_lt = h;
            ns_lt = omega arith;
          },
          refl,
          refl,
          refl,
          interval-lt p.interval lo hi,
        )

  follow_up_request-IsMessage :
      (level : TimestampLevel) (id len : ℕ)
      → id < 2 ^ 16
      → len ≤ 54
      → IsMessage (follow_up_request p level id len)
        × ((follow_up_request p level id len).msg_type ≡ follow_up)
        × ((follow_up_request p level id len).seq_id ≡ id)
        × ((follow_up_request p level id len).log_msg_period == response_period ≡ false)
  unfolding follow_up_request new_message
  follow_up_request-IsMessage level id len h l = rw plain (
    record {
      msg_type_lt = omega arith;
      total_len_lt = omega arith;
      correction_lt = omega arith;
      msg_type_specific_lt = omega arith;
      clock_id_lt = omega arith;
      port_id_lt = omega arith;
      seq_id_lt = h;
      ns_lt = omega arith;
    },
    refl,
    refl,
    interval-lt p.interval lo hi,
  )

  sequence_of-IsFresh :
      (now : Timespec) (id : ℕ) (wants : Bool) (level : TimestampLevel) (at : Timespec)
      → IsFresh (sequence_of p now id wants level at)
  unfolding sequence_of new_sequence
  sequence_of-IsFresh now id wants level at = record {
    incomplete = refl;
    no_t2 = refl;
    no_t3 = refl;
    no_t4 = refl;
  }

  send_request-eq :
      (now at : Timespec) (id : ℕ) (wants : Bool) (level : TimestampLevel) (tlv : List ℕ)
      → req_tx_prepare req_buffer (request_flags wants) ≡ some tlv
      → send_request p now id wants (some (level, at)) true ≡ (
        (write_message (sync_request p id (length tlv)) ++ [])
            ∷ (write_message (follow_up_request p level id (length tlv)) ++ tlv)
            ∷ [],
        some (sequence_of p now id wants level at),
      )
  unfolding send_request send_tlv
  send_request-eq now at id wants level tlv e = cc (e, plain, two)

  -- A request arrives. A client's server object whose interval is one of an accepted configuration, and
  -- that sends in two steps with the TLV on the Follow Up, sends two messages and stores a sequence. The
  -- server mode takes both in as requests. If they come from one host, of which no request with this number
  -- is stored, the second one in time and both with the level and time of their reception, that of the
  -- first being a valid level, they are returned as one complete request, with the level and time of the
  -- first and the flags that were asked for, and the store is as before.
  pub send_request-asks :
      (now at : Timespec) (id : ℕ) (wants : Bool) (level : TimestampLevel)
      (heard_at later t t' : Timespec) (src dst src' dst' : SockAddr)
      (heard heard' : TimestampLevel) (requests : List Request)
      → id < 2 ^ 16
      → is_valid_level heard ≡ true
      → (src.host == src'.host) ≡ true
      → ltb_ℤ (pos (timeout_ms * 1000000)) (subtract_timespecs later heard_at) ≡ false
      → NoneMatch src id requests
      → (first second : List ℕ) × (sy fu : Message) × (hdr : TlvHdr) × (q : Request) × (send_request
            p now id wants
            (some (level, at))
            true
          ≡ (first ∷ second ∷ [], some (sequence_of p now id wants level at)))
        × (route Mode.server_mode first ≡ Verdict.request sy none)
        × (route Mode.server_mode second ≡ Verdict.request fu (some hdr))
        × (let one = obtain_request heard_at sy none src dst heard (some t) requests in
            obtain_request later fu (some hdr) src' dst' heard' (some t') one.0
            ≡ (requests, some q))
        × (complete q ≡ true)
        × (q.sequence_id ≡ id)
        × (q.ingress_timestamp ≡ of_timespec t)
        × (q.flags ≡ request_flags wants)
        × (q.sync_tlv ≡ false)
        × (q.one_step ≡ false)
        × (q.dst_address ≡ dst)
        × (q.timestamp_level ≡ heard)
        × (q.correction < 2 ^ 64)
  send_request-asks now at id wants level heard_at later t t' src dst src' dst' heard heard'
        requests h valid host late apart =
      let (tlv, made, small) = req_prepared wants in
      let sy = sync_request p id (length tlv) in
      let fu = follow_up_request p level id (length tlv) in
      let (ok1, type1, two1, id1, period1) = sync_request-IsMessage id (length tlv) h in
      let (ok2, type2, id2, period2) = follow_up_request-IsMessage level id (length tlv) h small in
      let (hdr, routed, flags) =
        route-tlv fu tlv req_buffer (request_flags wants) ok2 period2 (flags_small wants) made in
      let both =
        obtain_request-collected heard_at later t sy fu hdr src dst src' dst' heard heard' (some t')
          requests type1 two1 valid type2 (same_id sy.seq_id fu.seq_id (id1 ∙ sym id2)) host
          (in_time later _ late) (rw id1 apart) in
      let fields =
        collected-fields heard_at t sy fu hdr src dst src' dst' heard heard' (some t') type2 in
      (
        _,
        _,
        sy,
        fu,
        hdr,
        collected heard_at sy fu hdr src dst src' dst' heard heard' t (some t'),
        send_request-eq now at id wants level tlv made,
        route-no_tlv sy ok1 period1,
        routed,
        both.0,
        both.1,
        fields.5 ∙ id1,
        fields.0,
        fields.2 ∙ flags,
        fields.3,
        fields.4,
        fields.6,
        fields.7,
        correction_small _ _ _ fields.1,
      )
