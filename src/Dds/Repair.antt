-- ===== src/Dds/Repair.antt =====
-- A round of repair between a DataWriter and a DataReader: the HEARTBEAT datagram, the ACKNACK datagram
-- that answers it, and the samples that the writer's actions send again.
mod Tests
use open_rtdds.Prelude.{
  ℕ, suc, ◌+◌, ◌≤◌, ◌<◌, ◌^◌, ◌≡◌, refl, sym, ap, ap₂, subst, ◌∙◌, arith, Bool, true, false, ◌||◌,
  not, min, BytePointer, All, map,
}
use open_rtdds.Rtps.Types.{bytes_eq, bytes_eq_refl}
use open_rtdds.Rtps.Actions
use open_rtdds.Rtps.Actions.{ReliabilityError, ActionBuffer, fresh, fresh-IsValid, listed}
use open_rtdds.Rtps.Sent.{sequence_of}
use open_rtdds.Rtps.Messages.{Heartbeat, AckNack}
use open_rtdds.Rtps.Writer
use open_rtdds.Rtps.Writer.{ReliableWriter}
use open_rtdds.Rtps.Writer.Invariant
use open_rtdds.Rtps.Writer.Invariant.{live}
use open_rtdds.Rtps.Writer.Announce.{fill_heartbeat_lem}
use open_rtdds.Rtps.Reader
use open_rtdds.Rtps.Reader.{ReliableReader, response, response_required}
use open_rtdds.Rtps.Reader.Seen.{seen}
use open_rtdds.Rtps.Exchange.{answered_bits}
use open_rtdds.Rtps.Trace.{member}
use open_rtdds.Rtps.Recovery.{Requests-advance}
use open_rtdds.Rtps.Recovery.Offered.{receive_all}
use open_rtdds.Rtps.Recovery.Resent.{repairs, Repairable}
use open_rtdds.Dds.Entities.{DdsError, DdsResult}
use open_rtdds.Dds.DataWriter
use open_rtdds.Dds.DataWriter.{DataWriter, settle, blank_heartbeat, build_heartbeat_datagram}
use open_rtdds.Dds.DataReader
use open_rtdds.Dds.DataReader.{DataReader, Replied, acknack_of, settle_heartbeat}
use open_rtdds.Dds.Delivery.Taking.{Matched}
use open_rtdds.Dds.Control.{Announcing, filled, on_heartbeat-build_heartbeat}
use open_rtdds.Dds.Reply.{
  Replying, Replies, settled_none, settle_heartbeat-Replies, on_acknack_valid,
}

-- The writer after the announcement.
abbrev pub announced : DataWriter → DataWriter
announced w = record w {
  reliability = record w.reliability { heartbeat_count = (filled w false).count };
}

announced-IsValid :
    (depth : ℕ) (w : DataWriter)
    → Invariant.IsValid depth w.reliability
    → Invariant.IsValid depth (announced w).reliability
announced-IsValid depth w v = record {
  depth_small = v.depth_small;
  storage = v.storage;
  size_le = v.size_le;
  rising = v.rising;
  within = v.within;
  last_lt = v.last_lt;
  attempts_uint8 = v.attempts_uint8;
}

settle_none :
    (w : DataWriter) (out : ReliabilityError × ReliableWriter × ActionBuffer)
    → (settle w out).0.error ≡ DdsError.none
    → (out.0 ≡ ReliabilityError.none) × ((settle w out).2 ≡ out.2)
settle_none w (ReliabilityError.none, reliability, actions) e = (refl, refl)
settle_none w (_, reliability, actions) e = cc

-- The reply and what the writer makes of it, where the reply is the datagram in `out`.
understood :
    (window capacity : ℕ) (w : DataWriter) (r : DataReader) (now : ℕ) (actions : ActionBuffer)
    (h : Heartbeat) (reliability : ReliableReader) (out : Replied)
    → w.valid ≡ true
    → w.endpoint.remote_guid_prefix ≡ r.participant.guid_prefix
    → (q : Replies window r h reliability out)
    → DataWriter.on_acknack capacity w out.2 out.0.bytes now actions
      ≡ settle w (
          Writer.on_acknack capacity w.reliability
            (record (acknack_of r (response window r.reliability h)) { reader_state = q.state })
            now
            actions)
understood window capacity w r now actions h reliability out valid same q =
    on_acknack_valid capacity w out.2 out.0.bytes now actions _ valid q.parses
      (ap (bytes_eq r.participant.guid_prefix) same ∙ bytes_eq_refl r.participant.guid_prefix)

module _ (window capacity : ℕ) (w : DataWriter) (r : DataReader) (now : ℕ)
    (actions : ActionBuffer) where
  -- The round from the heartbeat on that the writer's reliability state filled in.
  settled_round :
      {depth : ℕ} (memory : BytePointer) (memory_capacity : ℕ)
      → let h = filled w false in
        let reply =
          settle_heartbeat r memory memory_capacity
            (Reader.on_heartbeat window 1 r.reliability h (fresh 1)) in
        let verdict =
          DataWriter.on_acknack capacity (announced w) reply.2 reply.0.bytes now actions in
        w.valid ≡ true
        → w.endpoint.remote_guid_prefix ≡ r.participant.guid_prefix
        → Invariant.IsValid depth w.reliability
        → Replying window r memory memory_capacity
        → Actions.IsValid capacity actions
        → response_required r.reliability h ≡ true
        → h.last_sequence_number ≡ w.reliability.last_sequence_number
        → seen window r.reliability r.reliability.base ≡ false
        → reply.0.error ≡ DdsError.none
        → verdict.0.error ≡ DdsError.none
        → All (Repairable w.reliability.config now) (live w.reliability)
        → ((t : ℕ)
            → r.reliability.base ≤ t
            → t ≤ w.reliability.last_sequence_number
            → seen window r.reliability t ≡ false
            → member t (map sequence_of (live w.reliability)) ≡ true)
        → min (suc w.reliability.last_sequence_number) (r.reliability.base + window)
          ≤ (receive_all window reply.1.reliability (repairs (listed verdict.2))).base
  settled_round {depth} memory memory_capacity valid same state replying room required last missing
        answers accepts ok holds =
      let h = filled w false in
      let out = Reader.on_heartbeat window 1 r.reliability h (fresh 1) in
      let heard = settled_none r memory memory_capacity out answers in
      let q = settle_heartbeat-Replies h replying required heard in
      let a : AckNack = record (acknack_of r (response window r.reliability h)) {
        reader_state = q.state;
      } in
      let reply = settle_heartbeat r memory memory_capacity out in
      let e = understood window capacity (announced w) r now actions h out.1 reply valid same q in
      let taken = Writer.on_acknack capacity (announced w).reliability a now actions in
      let (took, made) = settle_none (announced w) taken (sym (ap (λ o. o.0.error) e) ∙ accepts) in
      let made_all = ap (λ o. o.2) e ∙ made in
      let up =
        Requests-advance now h a (announced-IsValid depth w state) replying.state room
          (fresh-IsValid 1 (omega arith)) missing heard q.requests took ok
          (λ t lo hi f. holds t lo (ground (arith, last)) f) in
      let same_end =
        ap₂
          (λ (x : ReliableReader) (y : ActionBuffer).
            (receive_all window x (repairs (listed y))).base)
          (ap (λ o. o.reliability) q.reader) made_all in
      ground (arith, up, same_end, last)

  -- A round of repair on datagrams in which nothing is lost. A writer that can announce and a reader
  -- that can reply, each with memory for its message, are matched with each other, and the reader
  -- misses the number at its base. The writer builds a HEARTBEAT that asks for a reply, the reader
  -- answers that datagram, and the writer takes in the reply, both without an error. The writer's
  -- history has every number up to its last one that the reader misses, and each of its samples can be
  -- sent again. Once the reader has received what the writer's actions send again, its base has passed
  -- the writer's last number, or all that its window could hold.
  pub on_acknack-on_heartbeat-build_heartbeat :
      (depth : ℕ) (datagram memory : BytePointer) (datagram_capacity memory_capacity : ℕ)
      → let announcement = build_heartbeat_datagram w datagram datagram_capacity false in
        let reply =
          DataReader.on_heartbeat window r announcement.2 announcement.0.bytes memory
            memory_capacity in
        let verdict =
          DataWriter.on_acknack capacity announcement.1 reply.2 reply.0.bytes now actions in
        Matched w r
        → w.endpoint.remote_guid_prefix ≡ r.participant.guid_prefix
        → Announcing depth w datagram datagram_capacity
        → Replying window r memory memory_capacity
        → Actions.IsValid capacity actions
        → seen window r.reliability r.reliability.base ≡ false
        → reply.0.error ≡ DdsError.none
        → verdict.0.error ≡ DdsError.none
        → All (Repairable w.reliability.config now) (live w.reliability)
        → ((t : ℕ)
            → r.reliability.base ≤ t
            → t ≤ w.reliability.last_sequence_number
            → seen window r.reliability t ≡ false
            → member t (map sequence_of (live w.reliability)) ≡ true)
        → min (suc w.reliability.last_sequence_number) (r.reliability.base + window)
          ≤ (receive_all window reply.1.reliability (repairs (listed verdict.2))).base
  on_acknack-on_heartbeat-build_heartbeat depth datagram memory datagram_capacity memory_capacity
        matched same announcing replying room missing answers accepts ok holds =
      let (_, heard, after) =
        on_heartbeat-build_heartbeat depth window w r datagram memory datagram_capacity
          memory_capacity false matched announcing in
      let (_, announces, _) =
        (fill_heartbeat_lem (blank_heartbeat w false) announcing.state).0 announcing.configured in
      let asks_reply : response_required r.reliability (filled w false) ≡ true =
        ground (arith, announces.final_flag) in
      let verdict =
        ap₂
          (λ (x : DataWriter) (y : Replied).
            DataWriter.on_acknack capacity x y.2 y.0.bytes now actions)
          after heard in
      let bound =
        settled_round memory memory_capacity announcing.valid same announcing.state replying room
          asks_reply announces.last missing (sym (ap (λ x. x.0.error) heard) ∙ answers)
          (sym (ap (λ x. x.0.error) verdict) ∙ accepts) ok holds in
      let same_end =
        ap₂
          (λ (x : Replied) (y : DdsResult × DataWriter × ActionBuffer).
            (receive_all window x.1.reliability (repairs (listed y.2))).base)
          heard verdict in
      omega (arith, bound, same_end)
