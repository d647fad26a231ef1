-- ===== src/Rtps/Router/Carried.antt =====
-- An independent description of the walk: over the list of submessages that a message carries.
use open_rtdds.Prelude.{
  ℕ, zero, suc, ◌+◌, ◌-◌, ◌*◌, ◌%◌, ◌^◌, ◌≤◌, ◌<◌, ◌≡◌, refl, ap, ap₂, ◌∙◌, arith, Bool, true,
  false, ◌&&◌, List, [], ◌∷◌, length, ◌==◌, ◌!=◌, if◌then◌else◌, Option, BytePointer, Bool-cases,
  inl, inr, bit_or,
}
use open_rtdds.Rtps.Types.{ByteOrder}
use open_rtdds.Prelude.Shift.{shift_left64}
use open_rtdds.Serialization.Cdr.{byte_at}
use open_rtdds.Serialization.Integral.{load_loop, load_integral, shift_index}
use open_rtdds.Serialization.Reader.{bytes_from}
use open_rtdds.Rtps.Wire.{pointer_at, vendor_at, prefix_at, read_uint16, read_uint32}
use open_rtdds.Rtps.Wire.Holds.{Holds}
use open_rtdds.Rtps.Router.{
  MessageRouteError, RouteContext, RoutedSubmessageView, apply_info, order_of, set_source,
  set_destination, apply_destination, apply_source, apply_timestamp, extends, version_at,
  routed_view,
}

-- `open_ended` is a last submessage that declares no size and goes on to the message's end.
pub record Submessage : Type 0 where
  pub id : ℕ
  pub flags : ℕ
  pub body : List ℕ
  pub open_ended : Bool

-- The submessage stands at an offset.
pub record Stands (m : BytePointer) (size offset : ℕ) (sub : Submessage) : Type 0 where
  pub id_at : byte_at m offset ≡ sub.id
  pub flags_at : byte_at m (offset + 1) ≡ sub.flags
  pub declared :
      read_uint16 m (offset + 2) (order_of sub.flags)
      ≡ (if sub.open_ended then 0 else length sub.body)
  pub extends_eq : extends sub.id (if sub.open_ended then 0 else length sub.body) ≡ sub.open_ended
  pub body_at : Holds m (offset + 4) sub.body
  pub fits : offset + 4 + length sub.body ≤ size
  pub last : sub.open_ended ≡ true → offset + 4 + length sub.body ≡ size

-- From an offset to its end the message is a list of submessages.
abbrev pub Carries : BytePointer → ℕ → ℕ → List Submessage → Type 0
Carries m size offset [] = offset ≡ size
Carries m size offset (sub ∷ subs) =
    Stands m size offset sub × Carries m size (offset + 4 + length sub.body) subs

-- What an INFO submessage makes of the context, by its body alone.
abbrev pub informed : Submessage → RouteContext → MessageRouteError × RouteContext
informed sub context =
    apply_info sub.id sub.flags (order_of sub.flags) (Option.some sub.body) (length sub.body)
      context

abbrev pub is_none : MessageRouteError → Bool
is_none MessageRouteError.none = true
is_none _ = false

-- The first error of the INFO submessages, taken in order.
abbrev pub info_error : List Submessage → RouteContext → MessageRouteError
info_error [] context = MessageRouteError.none
info_error (sub ∷ subs) context =
    if is_none (informed sub context).0
    then info_error subs (informed sub context).1
    else (informed sub context).0

-- The view of the wanted occurrence, counted from 0, in the context of what stands before it.
abbrev pub select :
    BytePointer → ℕ → ℕ → List Submessage → RouteContext → ℕ → Option RoutedSubmessageView
select m wanted occurrence [] context offset = Option.none
select m wanted occurrence (sub ∷ subs) context offset =
    if sub.id == wanted && occurrence == 0
    then Option.some (
        routed_view context sub.id sub.flags (order_of sub.flags) (pointer_at m (offset + 4))
          (length sub.body) offset)
    else select m wanted (if sub.id == wanted then occurrence - 1 else occurrence) subs
        (informed sub context).1 (offset + 4 + length sub.body)

abbrev pub found : Option RoutedSubmessageView → MessageRouteError × Option RoutedSubmessageView
found Option.none = (MessageRouteError.submessage_not_found, Option.none)
found (Option.some view) = (MessageRouteError.none, Option.some view)

abbrev pub answer :
    MessageRouteError
    → Option RoutedSubmessageView
    → MessageRouteError × Option RoutedSubmessageView
answer error view = if is_none error then found view else (error, Option.none)

-- `apply_info` reads only the body.
module _ (b c : BytePointer) where
  abbrev pub AgreesTo : ℕ → Type 0
  AgreesTo n = (i : ℕ) → i < n → byte_at b i ≡ byte_at c i

  bytes_from_agree :
      (n start end : ℕ)
      → AgreesTo end
      → start + n ≤ end
      → bytes_from b start n ≡ bytes_from c start n
  bytes_from_agree zero start end h le = refl
  bytes_from_agree (suc n) start end h le =
      ap₂ ◌∷◌ (h start (omega arith)) (bytes_from_agree n (suc start) end h (omega arith))

  load_loop_agree :
      (order : ByteOrder) (rounds index start value end : ℕ)
      → AgreesTo end
      → start + index + rounds ≤ end
      → load_loop order 4 rounds index start b value ≡ load_loop order 4 rounds index start c value
  unfolding load_loop
  load_loop_agree order zero index start value end h le = refl
  load_loop_agree order (suc rounds) index start value end h le =
      ap
        (λ x.
          load_loop order 4 rounds (suc index) start b
            (bit_or value (shift_left64 x (shift_index order 4 index * 8))))
        (h (start + index) (omega arith))
      ∙ load_loop_agree order rounds (suc index) start
          (bit_or value (shift_left64 (byte_at c (start + index)) (shift_index order 4 index * 8)))
          end h (omega arith)

  read_uint32_agree :
      (order : ByteOrder) (start end : ℕ)
      → AgreesTo end
      → start + 4 ≤ end
      → read_uint32 b start order ≡ read_uint32 c start order
  unfolding read_uint32 load_integral
  read_uint32_agree order start end h le =
      ap (λ x. x % 2 ^ 32) (load_loop_agree order 4 0 start 0 end h (omega arith))

  version_at_agree : (end : ℕ) → AgreesTo end → 6 ≤ end → version_at b 4 ≡ version_at c 4
  version_at_agree end h le =
      ap₂ (λ x y. record { major = x; minor = y }) (h 4 (omega arith)) (h 5 (omega arith))

  apply_source_agree :
      (size : ℕ) (context : RouteContext)
      → AgreesTo size
      → apply_source b size context ≡ apply_source c size context
  apply_source_agree size context h = elim (Bool-cases (size != 20)) [
    | inl other ↦ rw other
    | inr same ↦
        let n : size ≡ 20 = ground (arith, same) in
        ap (λ v. set_source size v (vendor_at b 6) (prefix_at b 8) context)
          (version_at_agree size h (omega arith))
        ∙ ap₂ (λ v w. set_source size (version_at c 4) v w context)
            (ap₂ (λ x y. record { v0 = x; v1 = y }) (h 6 (omega arith)) (h 7 (omega arith)))
            (bytes_from_agree 12 8 size h (omega arith))
  ]

  apply_destination_agree :
      (size : ℕ) (context : RouteContext)
      → AgreesTo size
      → apply_destination b size context ≡ apply_destination c size context
  apply_destination_agree size context h = elim (Bool-cases (size != 12)) [
    | inl other ↦ rw other
    | inr same ↦
        ap (λ p. set_destination size p context)
          (bytes_from_agree 12 0 size h (ground (arith, same)))
  ]

  apply_timestamp_agree :
      (flags : ℕ) (order : ByteOrder) (size : ℕ) (context : RouteContext)
      → AgreesTo size
      → apply_timestamp flags order b size context ≡ apply_timestamp flags order c size context
  apply_timestamp_agree flags order size context h = elim (Bool-cases (size != 8)) [
    | inl other ↦ rw other
    | inr same ↦ rw (
      same,
      read_uint32_agree order 0 size h (ground (arith, same)),
      read_uint32_agree order 4 size h (ground (arith, same)),
    )
  ]

  pub apply_info_agree :
      (id flags : ℕ) (order : ByteOrder) (size : ℕ) (context : RouteContext)
      → AgreesTo size
      → apply_info id flags order b size context ≡ apply_info id flags order c size context
  unfolding apply_info
  apply_info_agree id flags order size context h = rw (
    apply_destination_agree size context h,
    apply_source_agree size context h,
    apply_timestamp_agree flags order size context h,
  )
