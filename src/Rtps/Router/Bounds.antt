-- ===== src/Rtps/Router/Bounds.antt =====
-- Whatever the bytes are: the walk stays in the message, and ends.
use open_rtdds.Prelude.{
  ℕ, zero, suc, ◌+◌, ◌-◌, ◌≤◌, ◌≡◌, ◌≢◌, refl, arith, Bool, true, false, ◌&&◌, Option, ltb, ◌==◌,
  ◌!=◌, if◌then◌else◌, bit_and, BytePointer, Bool-cases, inl, inr,
}
use open_rtdds.Core.History.{is_null}
use open_rtdds.Rtps.Types.{ByteOrder}
use open_rtdds.Serialization.Cdr.{byte_at}
use open_rtdds.Rtps.Wire.{pointer_at, supported_version, read_uint16}
use open_rtdds.Rtps.Router.{
  MessageRouteError, RoutedSubmessageView, RouteContext, WalkState, Step, apply_info, order_of,
  advance, noted, visit, step_with, step, extends, finish, resume, walk, start_state, is_rtps,
  version_at, routed_view, apply_source, apply_destination, apply_timestamp, find_submessage,
  submessage_id_info_destination, submessage_id_info_source, submessage_id_info_timestamp,
}

-- A view of a submessage that lies in the message.
pub record Routed (m : BytePointer) (size wanted : ℕ) (view : RoutedSubmessageView) : Type 0 where
  pub id_eq : view.id ≡ wanted
  pub id_at : byte_at m view.offset ≡ view.id
  pub flags_at : byte_at m (view.offset + 1) ≡ view.flags
  pub order_eq : view.byte_order ≡ order_of view.flags
  pub content_eq : view.content ≡ pointer_at m (view.offset + 4)
  pub after_header : 20 ≤ view.offset
  pub fits : view.offset + 4 + view.content_size ≤ size
  pub supported : supported_version view.version ≡ true

abbrev pub AllRouted : BytePointer → ℕ → ℕ → Option RoutedSubmessageView → Type 0
AllRouted m size wanted Option.none = Unit {0}
AllRouted m size wanted (Option.some view) = Routed m size wanted view

-- Between two rounds.
pub record IsValid (m : BytePointer) (size wanted : ℕ) (s : WalkState) : Type 0 where
  pub after_header : 20 ≤ s.offset
  pub within : s.offset ≤ size
  pub supported : supported_version s.context.version ≡ true
  pub candidate : AllRouted m size wanted s.candidate

abbrev pub StepIsValid : BytePointer → ℕ → ℕ → ℕ → Step → Type 0
StepIsValid m size wanted offset (Step.failed error) = error ≢ MessageRouteError.none
StepIsValid m size wanted offset (Step.stopped s) = IsValid m size wanted s
StepIsValid m size wanted offset (Step.continued s) =
    IsValid m size wanted s × (offset + 4 ≤ s.offset)

-- An INFO submessage that is accepted leaves a version that is supported.
abbrev Keeps : MessageRouteError × RouteContext → Type 0
Keeps (MessageRouteError.none, c) = supported_version c.version ≡ true
Keeps (_, c) = Unit {0}

apply_source-Keeps :
    (content : BytePointer) (size : ℕ) (c : RouteContext) → Keeps (apply_source content size c)
apply_source-Keeps content size c = elim (Bool-cases (size != 20)) [
  | inl other ↦ rw other tt
  | inr same ↦ rw same (elim (Bool-cases (supported_version (version_at content 4))) [
    | inl good ↦ rw good good
    | inr bad ↦ rw bad tt
  ])
]

apply_destination-Keeps :
    (content : BytePointer) (size : ℕ) (c : RouteContext)
    → supported_version c.version ≡ true
    → Keeps (apply_destination content size c)
apply_destination-Keeps content size c h = elim (Bool-cases (size != 12)) [
  | inl other ↦ rw other tt
  | inr same ↦ rw same h
]

apply_timestamp-Keeps :
    (flags : ℕ) (order : ByteOrder) (content : BytePointer) (size : ℕ) (c : RouteContext)
    → supported_version c.version ≡ true
    → Keeps (apply_timestamp flags order content size c)
apply_timestamp-Keeps flags order content size c h = elim (Bool-cases (bit_and flags 2 != 0)) [
  | inl invalidates ↦
      rw invalidates
        (elim (Bool-cases (size != 0)) [ inl other ↦ rw other tt | inr same ↦ rw same h ])
  | inr sets ↦
      rw sets (elim (Bool-cases (size != 8)) [ inl other ↦ rw other tt | inr same ↦ rw same h ])
]

apply_info-Keeps :
    (id flags : ℕ) (order : ByteOrder) (content : BytePointer) (size : ℕ) (c : RouteContext)
    → supported_version c.version ≡ true
    → Keeps (apply_info id flags order content size c)
unfolding apply_info
apply_info-Keeps id flags order content size c h =
    elim (Bool-cases (id == submessage_id_info_destination)) [
      | inl e ↦ rw e (apply_destination-Keeps content size c h)
      | inr n ↦ rw n (elim (Bool-cases (id == submessage_id_info_source)) [
        | inl e ↦ rw e (apply_source-Keeps content size c)
        | inr n2 ↦ rw n2 (elim (Bool-cases (id == submessage_id_info_timestamp)) [
          | inl e ↦ rw e (apply_timestamp-Keeps flags order content size c h)
          | inr n3 ↦ rw n3 h
        ])
      ])
    ]

advance-StepIsValid :
    (m : BytePointer) (size wanted offset next : ℕ) (extends_to_end : Bool) (s : WalkState)
    (p : MessageRouteError × RouteContext)
    → Keeps p
    → AllRouted m size wanted s.candidate
    → 20 ≤ offset
    → offset + 4 ≤ next
    → next ≤ size
    → StepIsValid m size wanted offset (advance extends_to_end s next p)
advance-StepIsValid m size wanted offset next true s (MessageRouteError.none, c) k v a b d =
    record { after_header = omega arith; within = d; supported = k; candidate = v }
advance-StepIsValid m size wanted offset next false s (MessageRouteError.none, c) k v a b d =
    (record { after_header = omega arith; within = d; supported = k; candidate = v }, b)
advance-StepIsValid m size wanted offset next x s (MessageRouteError.invalid_argument, c) k v a b
      d =
    cc
advance-StepIsValid m size wanted offset next x s (MessageRouteError.truncated, c) k v a b d = cc
advance-StepIsValid m size wanted offset next x s (MessageRouteError.invalid_protocol, c) k v a b
      d =
    cc
advance-StepIsValid m size wanted offset next x s (MessageRouteError.unsupported_version, c) k v a b
      d =
    cc
advance-StepIsValid m size wanted offset next x s (MessageRouteError.malformed_submessage, c) k v a
      b d =
    cc
advance-StepIsValid m size wanted offset next x s (MessageRouteError.invalid_info_submessage, c) k v
      a b d =
    cc
advance-StepIsValid m size wanted offset next x s (MessageRouteError.submessage_not_found, c) k v a
      b d =
    cc

visit-StepIsValid :
    (m : BytePointer) (size wanted occurrence content_size : ℕ) (x : Bool) (s : WalkState)
    → IsValid m size wanted s
    → s.offset + 4 + content_size ≤ size
    → StepIsValid m size wanted s.offset (
        visit m wanted occurrence
          (byte_at m s.offset)
          (byte_at m (s.offset + 1))
          (order_of (byte_at m (s.offset + 1)))
          content_size
          x
          s)
unfolding visit
visit-StepIsValid m size wanted occurrence content_size x s v fits =
    advance-StepIsValid m size wanted s.offset (s.offset + 4 + content_size) x
      (noted m wanted occurrence id flags (order_of flags) content_size s)
      (apply_info id flags (order_of flags) content content_size s.context)
      (apply_info-Keeps id flags (order_of flags) content content_size s.context v.supported)
      (chosen (id == wanted && s.occurrence == occurrence) refl) v.after_header (omega arith) fits
  where
    id : ℕ
    id = byte_at m s.offset

    flags : ℕ
    flags = byte_at m (s.offset + 1)

    content : BytePointer
    content = pointer_at m (s.offset + 4)

    chosen :
        (b : Bool)
        → (id == wanted && s.occurrence == occurrence) ≡ b
        → AllRouted m size wanted (
            if b
            then Option.some
                (routed_view s.context id flags (order_of flags) content content_size s.offset)
            else s.candidate)
    chosen false e = v.candidate
    chosen true e = record {
      id_eq = ground (arith, e);
      id_at = refl;
      flags_at = refl;
      order_eq = refl;
      content_eq = refl;
      after_header = v.after_header;
      fits = fits;
      supported = v.supported;
    }

pub step-StepIsValid :
    (m : BytePointer) (size wanted occurrence : ℕ) (s : WalkState)
    → IsValid m size wanted s
    → StepIsValid m size wanted s.offset (step m size wanted occurrence s)
unfolding step step_with
step-StepIsValid m size wanted occurrence s v = elim (Bool-cases (ltb (size - s.offset) 4)) [
  | inl short ↦ rw short (cc)
  | inr room ↦ rw room (sized (read_uint16 m (s.offset + 2) (order_of flags)) (ground arith))
]
  where
    flags : ℕ
    flags = byte_at m (s.offset + 1)

    sized :
        (declared : ℕ)
        → s.offset + 4 ≤ size
        → StepIsValid m size wanted s.offset (
            step_with m size wanted occurrence s
              (byte_at m s.offset)
              flags
              (order_of flags)
              declared)
    sized declared room =
        let available = size - (s.offset + 4) in
        let x = extends (byte_at m s.offset) declared in
        let content_size = if x then available else declared in
        elim (Bool-cases (ltb available content_size)) [
          | inl out ↦ rw out (cc)
          | inr fits ↦
              rw fits (
                visit-StepIsValid m size wanted occurrence content_size x s v
                  (ground (arith, fits)))
        ]

abbrev pub ResultIsRouted :
    BytePointer → ℕ → ℕ → MessageRouteError × Option RoutedSubmessageView → Type 0
ResultIsRouted m size wanted (error, Option.none) = error ≢ MessageRouteError.none
ResultIsRouted m size wanted (error, Option.some view) =
    (error ≡ MessageRouteError.none) × Routed m size wanted view

finish-Routed :
    (m : BytePointer) (size wanted : ℕ) (s : WalkState)
    → IsValid m size wanted s
    → ResultIsRouted m size wanted (finish size s)
finish-Routed m size wanted s v = elim (Bool-cases (s.offset != size)) [
  | inl past ↦ rw past (cc)
  | inr there ↦ rw there (go s.candidate v.candidate)
]
  where
    go :
        (c : Option RoutedSubmessageView)
        → AllRouted m size wanted c
        → ResultIsRouted m size wanted (elim c [
          | Option.none ↦ (MessageRouteError.submessage_not_found, Option.none)
          | Option.some view ↦ (MessageRouteError.none, Option.some view)
        ])
    go Option.none h = cc
    go (Option.some view) h = (refl, h)

walk-Routed :
    (fuel : ℕ) (m : BytePointer) (size wanted occurrence : ℕ) (s : WalkState)
    → IsValid m size wanted s
    → ResultIsRouted m size wanted (walk fuel m size wanted occurrence s)
unfolding walk
walk-Routed zero m size wanted occurrence s v = finish-Routed m size wanted s v
walk-Routed (suc fuel) m size wanted occurrence s v = elim (Bool-cases (ltb s.offset size)) [
  | inr done ↦ rw done (finish-Routed m size wanted s v)
  | inl more ↦ rw more (
      go (λ t. walk-Routed fuel m size wanted occurrence t) (step m size wanted occurrence s)
        (step-StepIsValid m size wanted occurrence s v))
]
  where
    go :
        ((t : WalkState)
          → IsValid m size wanted t
          → ResultIsRouted m size wanted (walk fuel m size wanted occurrence t))
        → (p : Step) → StepIsValid m size wanted s.offset p
        → ResultIsRouted m size wanted (resume (walk fuel m size wanted occurrence) size p)
    go recur (Step.failed error) h = h
    go recur (Step.stopped t) h = finish-Routed m size wanted t h
    go recur (Step.continued t) h = recur t h.0

-- For any bytes: the answer is `none` exactly if a view is written, and then the view is of a
-- submessage with the wanted identifier that lies in the message, after the header and with its
-- content before the message's end, and the version in force there is supported.
pub find_submessage-Routed :
    (m : BytePointer) (size wanted occurrence : ℕ)
    → ResultIsRouted m size wanted (find_submessage m size wanted occurrence)
unfolding find_submessage
find_submessage-Routed m size wanted occurrence = elim (Bool-cases (is_null m && size != 0)) [
  | inl null ↦ rw null (cc)
  | inr pointed ↦ rw pointed (elim (Bool-cases (ltb size 20)) [
    | inl short ↦ rw short (cc)
    | inr long ↦ rw long (elim (Bool-cases (is_rtps m)) [
      | inr other ↦ rw other (cc)
      | inl rtps ↦ rw rtps (elim (Bool-cases (supported_version (version_at m 4))) [
        | inr old ↦ rw old (cc)
        | inl good ↦ rw good (
            walk-Routed (suc size) m size wanted occurrence (start_state m) (record {
              after_header = omega arith;
              within = ground (arith, long);
              supported = good;
              candidate = tt;
            }))
      ])
    ])
  ])
]
