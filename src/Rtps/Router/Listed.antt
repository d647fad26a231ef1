-- ===== src/Rtps/Router/Listed.antt =====
-- The walk over the bytes agrees with the description over the list of submessages.
use open_rtdds.Prelude.{
  ℕ, zero, suc, ◌+◌, ◌-◌, ◌≤◌, ◌<◌, ◌≡◌, ◌⊎◌, refl, sym, ap, ◌∙◌, arith, Bool, true, false, ◌&&◌,
  List, [], ◌∷◌, length, ltb, ◌==◌, ◌!=◌, if◌then◌else◌, Option, BytePointer, Bool-cases, inl, inr,
}
use open_rtdds.Core.History.{is_null}
use open_rtdds.Rtps.Wire.{pointer_at, supported_version}
use open_rtdds.Rtps.Wire.Holds.{byte_at-pointer_at}
use open_rtdds.Rtps.Router.{
  MessageRouteError, RouteContext, RoutedSubmessageView, WalkState, Step, apply_info, order_of,
  advance, noted, visit, step_with, step, finish, walk, start_state, start_context, is_rtps,
  version_at, routed_view, find_submessage,
}
use open_rtdds.Rtps.Router.Carried.{
  Submessage, Stands, Carries, informed, is_none, info_error, select, found, answer,
  apply_info_agree,
}

abbrev noted_sub : BytePointer → ℕ → ℕ → Submessage → WalkState → WalkState
noted_sub m wanted occurrence sub s =
    noted m wanted occurrence sub.id sub.flags (order_of sub.flags) (length sub.body) s

-- One round over a submessage that stands at the offset.
step-Stands :
    (m : BytePointer) (size wanted occurrence : ℕ) (sub : Submessage) (s : WalkState)
    → Stands m size s.offset sub
    → step m size wanted occurrence s
      ≡ advance sub.open_ended
          (noted_sub m wanted occurrence sub s)
          (s.offset + 4 + length sub.body)
          (informed sub s.context)
unfolding step step_with visit
step-Stands m size wanted occurrence sub s v =
    let room : ltb (size - s.offset) 4 ≡ false = ground (arith, v.fits) in
    rw (room, v.id_at, v.flags_at, v.declared, v.extends_eq)
      (elim (Bool-cases sub.open_ended) [
        | inl whole ↦
            let all : size - (s.offset + 4) ≡ length sub.body = omega (arith, v.last whole) in
            let fits : ltb (length sub.body) (length sub.body) ≡ false = ground arith in
            rw (whole, all, fits) (go true)
        | inr bounded ↦
            let fits : ltb (size - (s.offset + 4)) (length sub.body) ≡ false =
              ground (arith, v.fits) in
            rw (bounded, fits) (go false)
      ])
  where
    go :
        (x : Bool)
        → advance x (noted_sub m wanted occurrence sub s) (s.offset + 4 + length sub.body) (
            apply_info sub.id sub.flags
              (order_of sub.flags)
              (pointer_at m (s.offset + 4))
              (length sub.body)
              s.context)
          ≡ advance x
              (noted_sub m wanted occurrence sub s)
              (s.offset + 4 + length sub.body)
              (informed sub s.context)
    go x = ap (advance x (noted_sub m wanted occurrence sub s) (s.offset + 4 + length sub.body)) (
        apply_info_agree (pointer_at m (s.offset + 4)) (Option.some sub.body) sub.id sub.flags
          (order_of sub.flags) (length sub.body) s.context
          (λ i lt. byte_at-pointer_at m (s.offset + 4) i ∙ v.body_at i lt))

-- A round's end, by the answer of `apply_info`.
advanced :
    (x : Bool) (s : WalkState) (next : ℕ) (p : MessageRouteError × RouteContext)
    → advance x s next p ≡ (
        if is_none p.0
        then (if x
            then Step.stopped (record s { context = p.1; offset = next })
            else Step.continued (record s { context = p.1; offset = next }))
        else Step.failed p.0)
advanced x s next (MessageRouteError.none, c) = refl
advanced x s next (MessageRouteError.invalid_argument, c) = refl
advanced x s next (MessageRouteError.truncated, c) = refl
advanced x s next (MessageRouteError.invalid_protocol, c) = refl
advanced x s next (MessageRouteError.unsupported_version, c) = refl
advanced x s next (MessageRouteError.malformed_submessage, c) = refl
advanced x s next (MessageRouteError.invalid_info_submessage, c) = refl
advanced x s next (MessageRouteError.submessage_not_found, c) = refl

-- The variables after a submessage whose INFO is accepted.
abbrev after : BytePointer → ℕ → ℕ → Submessage → WalkState → WalkState
after m wanted occurrence sub s = record (noted_sub m wanted occurrence sub s) {
  context = (informed sub s.context).1;
  offset = s.offset + 4 + length sub.body;
}

finish_at :
    (fuel : ℕ) (m : BytePointer) (size wanted occurrence : ℕ) (s : WalkState)
    → s.offset ≡ size
    → walk fuel m size wanted occurrence s ≡ finish size s
unfolding walk
finish_at zero m size wanted occurrence s h = refl
finish_at (suc fuel) m size wanted occurrence s h =
    let done : ltb s.offset size ≡ false = ground (arith, h) in rw done

found_at : (size : ℕ) (s : WalkState) → s.offset ≡ size → finish size s ≡ found s.candidate
found_at size s h =
    let there : (s.offset != size) ≡ false = ground (arith, h) in rw there (go s.candidate)
  where
    go :
        (c : Option RoutedSubmessageView)
        → (elim c [
          | Option.none ↦ (MessageRouteError.submessage_not_found, Option.none)
          | Option.some view ↦ (MessageRouteError.none, Option.some view)
        ])
          ≡ found c
    go Option.none = refl
    go (Option.some view) = refl

-- A round of the loop, and the rest of it.
walk_round :
    (fuel : ℕ) (m : BytePointer) (size wanted occurrence : ℕ) (sub : Submessage)
    (subs : List Submessage) (s : WalkState)
    → Stands m size s.offset sub
    → Carries m size (s.offset + 4 + length sub.body) subs
    → walk (suc fuel) m size wanted occurrence s ≡ (
        if is_none (informed sub s.context).0
        then walk fuel m size wanted occurrence (after m wanted occurrence sub s)
        else ((informed sub s.context).0, Option.none))
unfolding walk
walk_round fuel m size wanted occurrence sub subs s v rest =
    let more : ltb s.offset size ≡ true = ground (arith, v.fits) in
    rw
      (
        more,
        step-Stands m size wanted occurrence sub s v,
        advanced sub.open_ended (noted_sub m wanted occurrence sub s)
            (s.offset + 4 + length sub.body) (informed sub s.context),
      )
      (elim (Bool-cases (is_none (informed sub s.context).0)) [
        | inr bad ↦ rw bad
        | inl good ↦ rw good (elim (Bool-cases sub.open_ended) [
          | inr bounded ↦ rw bounded
          | inl whole ↦ rw whole (
              sym (
                finish_at fuel m size wanted occurrence (after m wanted occurrence sub s)
                  (v.last whole)))
        ])
      ])

-- Once the wanted occurrence is passed, only the INFO submessages matter.
walk_found :
    (fuel : ℕ) (m : BytePointer) (size wanted occurrence : ℕ) (subs : List Submessage)
    (s : WalkState) (view : RoutedSubmessageView)
    → Carries m size s.offset subs
    → length subs ≤ fuel
    → s.candidate ≡ Option.some view
    → occurrence < s.occurrence
    → walk fuel m size wanted occurrence s ≡ answer (info_error subs s.context) (Option.some view)
walk_found fuel m size wanted occurrence [] s view h le e lt =
    finish_at fuel m size wanted occurrence s h ∙ found_at size s h ∙ ap found e
walk_found zero m size wanted occurrence (sub ∷ subs) s view h le e lt = absurd (omega arith)
walk_found (suc fuel) m size wanted occurrence (sub ∷ subs) s view h le e lt =
    walk_round fuel m size wanted occurrence sub subs s h.0 h.1
    ∙ elim (Bool-cases (is_none (informed sub s.context).0)) [
      | inr bad ↦ rw (bad, bad)
      | inl good ↦ rw good (
          walk_found fuel m size wanted occurrence subs (after m wanted occurrence sub s) view h.1
            (omega arith) (kept (Bool-cases (sub.id == wanted))) (ground (arith, lt)))
    ]
  where
    kept :
        ((sub.id == wanted) ≡ true) ⊎ ((sub.id == wanted) ≡ false)
        → (after m wanted occurrence sub s).candidate ≡ Option.some view
    kept c =
        let other : (s.occurrence == occurrence) ≡ false = ground (arith, lt) in
        ground (arith, other, e)

-- Before that, the rest of the walk looks for the occurrence that is left to count.
walk_selects :
    (fuel : ℕ) (m : BytePointer) (size wanted occurrence left : ℕ) (subs : List Submessage)
    (s : WalkState)
    → Carries m size s.offset subs
    → length subs ≤ fuel
    → s.candidate ≡ Option.none
    → s.occurrence + left ≡ occurrence
    → walk fuel m size wanted occurrence s
      ≡ answer (info_error subs s.context) (select m wanted left subs s.context s.offset)
walk_selects fuel m size wanted occurrence left [] s h le e sum =
    finish_at fuel m size wanted occurrence s h ∙ found_at size s h ∙ ap found e
walk_selects zero m size wanted occurrence left (sub ∷ subs) s h le e sum = absurd (omega arith)
walk_selects (suc fuel) m size wanted occurrence left (sub ∷ subs) s h le e sum =
    walk_round fuel m size wanted occurrence sub subs s h.0 h.1
    ∙ elim (Bool-cases (is_none (informed sub s.context).0)) [
      | inr bad ↦ rw (bad, bad)
      | inl good ↦ rw good (elim (Bool-cases (sub.id == wanted && left == 0)) [
        | inl chosen ↦
            let same : (sub.id == wanted) ≡ true = ground (arith, chosen) in
            let now : (s.occurrence == occurrence) ≡ true = ground (arith, chosen) in
            rw chosen (
              walk_found fuel m size wanted occurrence subs (after m wanted occurrence sub s)
                (routed_view s.context sub.id sub.flags (order_of sub.flags)
                  (pointer_at m (s.offset + 4)) (length sub.body) s.offset)
                h.1 (omega arith) (rw (same, now)) (ground (arith, same, now)))
        | inr other ↦
            let next = if sub.id == wanted then left - 1 else left in
            let miss : (sub.id == wanted && s.occurrence == occurrence) ≡ false =
              ground (arith, other, sum) in
            rw other (
              walk_selects fuel m size wanted occurrence next subs (after m wanted occurrence sub s)
                h.1 (omega arith) (rw miss e) (ground (arith, other, sum)))
      ])
    ]

-- Every submessage takes four bytes or more.
length-Carries :
    (m : BytePointer) (size offset : ℕ) (subs : List Submessage)
    → Carries m size offset subs
    → offset + length subs ≤ size
length-Carries m size offset [] h = omega arith
length-Carries m size offset (sub ∷ subs) h =
    omega (arith, length-Carries m size (offset + 4 + length sub.body) subs h.1)

-- The fixed header of a message.
pub record HasHeader (m : BytePointer) (size : ℕ) : Type 0 where
  pub long : 20 ≤ size
  pub pointed : is_null m ≡ false
  pub rtps : is_rtps m ≡ true
  pub supported : supported_version (version_at m 4) ≡ true

pub find_submessage-select :
    (m : BytePointer) (size wanted occurrence : ℕ) (subs : List Submessage)
    → HasHeader m size
    → Carries m size 20 subs
    → find_submessage m size wanted occurrence
      ≡ answer
          (info_error subs (start_context m))
          (select m wanted occurrence subs (start_context m) 20)
unfolding find_submessage
find_submessage-select m size wanted occurrence subs v h =
    let long : ltb size 20 ≡ false = ground (arith, v.long) in
    rw (v.pointed, long, v.rtps, v.supported)
      (walk_selects (suc size) m size wanted occurrence occurrence subs (start_state m) h
        (omega (arith, length-Carries m size 20 subs h)) refl (omega arith))
