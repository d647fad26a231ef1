-- ===== src/Rtps/DataMessage/Bounds.antt =====
-- Whatever the bytes are: a payload that is parsed lies in the message.
use open_rtdds.Prelude.{
  subst, ℕ, zero, suc, ◌+◌, ◌-◌, ◌*◌, ◌^◌, ◌%◌, ◌≤◌, ◌<◌, ◌≡◌, refl, sym, ap, ◌∙◌, arith, true,
  ◌||◌, List, [], ◌∷◌, drop, Option, ◌==◌, ◌!=◌, ltb, leb, bit_and, bit_or, BytePointer, Bool-cases,
  inl, inr,
}
use open_rtdds.Rtps.Wire.{pointer_at, read_uint16, read_uint32, supported_version}
use open_rtdds.Rtps.Router.{
  MessageRouteError, RoutedSubmessageView, find_submessage, submessage_id_data,
}
use open_rtdds.Rtps.Router.Bounds.{Routed, ResultIsRouted, find_submessage-Routed}
use open_rtdds.Rtps.DataMessage.{
  DataMessageView, Parsed, supported_serialized_payload, parse_payload, parse_routed, parse_found,
  parse_data_message,
}

drop-nil : (n : ℕ) → drop {A = ℕ} n [] ≡ []
drop-nil zero = refl
drop-nil (suc n) = refl

drop-drop : (xs : List ℕ) (a b : ℕ) → drop b (drop a xs) ≡ drop (a + b) xs
drop-drop xs zero b = ap (λ n. drop n xs) {x = b} {y = 0 + b} (omega arith)
drop-drop [] (suc a) b = drop-nil b ∙ sym (drop-nil (suc a + b))
drop-drop (x ∷ xs) (suc a) b =
    drop-drop xs a b ∙ ap (λ n. drop n (x ∷ xs)) {x = suc (a + b)} {y = suc a + b} (omega arith)

pointer_at-pointer_at :
    (m : BytePointer) (a b : ℕ) → pointer_at (pointer_at m a) b ≡ pointer_at m (a + b)
pointer_at-pointer_at Option.none a b = refl
pointer_at-pointer_at (Option.some xs) a b = ap Option.some (drop-drop xs a b)

-- A view whose payload is part of a message of some size.
pub record Within (m : BytePointer) (size : ℕ) (view : DataMessageView) : Type 0 where
  pub start : ℕ
  pub payload_eq : view.serialized_payload ≡ pointer_at m start
  pub after_fields : 44 ≤ start
  pub fits : start + view.payload_size ≤ size
  pub not_short : 4 ≤ view.payload_size
  pub numbered : 0 < view.sequence_number
  pub supported : supported_version view.version ≡ true
  pub encapsulated : supported_serialized_payload view.serialized_payload view.payload_size ≡ true

abbrev AllWithin : BytePointer → ℕ → Parsed → Type 0
AllWithin m size (Parsed.refused error) = Unit {0}
AllWithin m size (Parsed.parsed view) = Within m size view

parse_payload-Within :
    (m : BytePointer) (size : ℕ) (routed : RoutedSubmessageView) (offset : ℕ)
    → Routed m size submessage_id_data routed
    → 20 ≤ offset
    → AllWithin m size (parse_payload routed offset)
unfolding parse_payload
parse_payload-Within m size routed offset v after =
    let high = read_uint32 routed.content 12 routed.byte_order in
    let number =
      bit_or (high * 2 ^ 32 % 2 ^ 64) (read_uint32 routed.content 16 routed.byte_order) in
    let n = routed.content_size - offset in
    let p = pointer_at routed.content offset in
    elim (Bool-cases (ltb routed.content_size offset || ltb n 4)) [
      | inl out ↦ rw out tt
      | inr inside ↦ rw inside (elim (Bool-cases (leb (2 ^ 31) high)) [
        | inl negative ↦ rw negative tt
        | inr positive ↦ rw positive (elim (Bool-cases (number == 0)) [
          | inl nothing ↦ rw nothing tt
          | inr some ↦ rw some (elim (Bool-cases (supported_serialized_payload p n)) [
            | inr other ↦ rw other tt
            | inl good ↦ rw good (record {
              start = routed.offset + 4 + offset;
              payload_eq =
                  ap (λ c. pointer_at c offset) v.content_eq
                  ∙ pointer_at-pointer_at m (routed.offset + 4) offset;
              after_fields = omega (arith, v.after_header);
              fits = ground (arith, v.fits, inside);
              not_short = ground (arith, inside);
              numbered = ground (arith, some);
              supported = v.supported;
              encapsulated = good;
            })
          ])
        ])
      ])
    ]

parse_routed-Within :
    (m : BytePointer) (size : ℕ) (routed : RoutedSubmessageView)
    → Routed m size submessage_id_data routed
    → AllWithin m size (parse_routed routed)
unfolding parse_routed
parse_routed-Within m size routed v =
    let qos = read_uint16 routed.content 2 routed.byte_order in
    elim (Bool-cases (bit_and routed.flags 0x04 != 0)) [
      | inr no_data ↦ rw no_data tt
      | inl has_data ↦
          rw has_data (elim (Bool-cases (bit_and routed.flags (0x02 + 0x08 + 0x10) != 0)) [
            | inl feature ↦ rw feature tt
            | inr plain ↦ rw plain (elim (Bool-cases (ltb routed.content_size 24)) [
              | inl short ↦ rw short tt
              | inr long ↦
                  rw long (elim (Bool-cases (read_uint16 routed.content 0 routed.byte_order != 0)) [
                    | inl extra ↦ rw extra tt
                    | inr none ↦ rw none (elim (Bool-cases (ltb qos 16)) [
                      | inl small ↦ rw small tt
                      | inr after ↦
                          rw after
                            (parse_payload-Within m size routed (4 + qos) v (ground (arith, after)))
                    ])
                  ])
            ])
          ])
    ]

-- For any bytes: where a DATA message is parsed, its payload is a part of the message that begins
-- after the fixed fields and ends before the message does, has four bytes or more and a supported
-- encapsulation, its sequence number is not 0 and its protocol version is supported.
pub parse_data_message-Within :
    (m : BytePointer) (size : ℕ) (view : DataMessageView)
    → parse_data_message m size ≡ Parsed.parsed view
    → Within m size view
unfolding parse_data_message
parse_data_message-Within m size view e = subst (AllWithin m size) e (
    go (find_submessage m size submessage_id_data 0)
      (find_submessage-Routed m size submessage_id_data 0))
  where
    go :
        (r : MessageRouteError × Option RoutedSubmessageView)
        → ResultIsRouted m size submessage_id_data r
        → AllWithin m size (parse_found r)
    go (error, Option.none) h = tt
    go (error, Option.some routed) h = parse_routed-Within m size routed h.1
