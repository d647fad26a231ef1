-- ===== src/Rtps/Router/Walk.antt =====
-- The loop's rounds: each moves on by four bytes or more, so that the loop ends within the fuel.
use open_rtdds.Prelude.{
  ℕ, zero, suc, ◌+◌, ◌-◌, ◌*◌, Option, ◌≤◌, ◌<◌, ◌≡◌, refl, arith, Bool, true, false, ltb,
  if◌then◌else◌, BytePointer, Bool-cases, inl, inr,
}
use open_rtdds.Serialization.Cdr.{byte_at}
use open_rtdds.Rtps.Wire.{pointer_at, read_uint16}
use open_rtdds.Rtps.Router.{
  MessageRouteError, RoutedSubmessageView, RouteContext, finish, WalkState, Step, apply_info,
  order_of, advance, noted, visit, step_with, step, extends, resume, walk, start_state,
}

abbrev Progress : ℕ → Step → Type 0
Progress offset (Step.failed error) = Unit {0}
Progress offset (Step.stopped s) = Unit {0}
Progress offset (Step.continued s) = offset + 4 ≤ s.offset

advance-Progress :
    (offset next : ℕ) (x : Bool) (s : WalkState) (p : MessageRouteError × RouteContext)
    → offset + 4 ≤ next
    → Progress offset (advance x s next p)
advance-Progress offset next true s (MessageRouteError.none, c) h = tt
advance-Progress offset next false s (MessageRouteError.none, c) h = h
advance-Progress offset next x s (MessageRouteError.invalid_argument, c) h = tt
advance-Progress offset next x s (MessageRouteError.truncated, c) h = tt
advance-Progress offset next x s (MessageRouteError.invalid_protocol, c) h = tt
advance-Progress offset next x s (MessageRouteError.unsupported_version, c) h = tt
advance-Progress offset next x s (MessageRouteError.malformed_submessage, c) h = tt
advance-Progress offset next x s (MessageRouteError.invalid_info_submessage, c) h = tt
advance-Progress offset next x s (MessageRouteError.submessage_not_found, c) h = tt

step-Progress :
    (m : BytePointer) (size wanted occurrence : ℕ) (s : WalkState)
    → Progress s.offset (step m size wanted occurrence s)
unfolding step step_with visit
step-Progress m size wanted occurrence s = elim (Bool-cases (ltb (size - s.offset) 4)) [
  | inl short ↦ rw short tt
  | inr room ↦ rw room (sized (read_uint16 m (s.offset + 2) (order_of flags)))
]
  where
    id : ℕ
    id = byte_at m s.offset

    flags : ℕ
    flags = byte_at m (s.offset + 1)

    sized :
        (declared : ℕ)
        → Progress s.offset
            (step_with m size wanted occurrence s id flags (order_of flags) declared)
    sized declared =
        let content_size = if extends id declared then size - (s.offset + 4) else declared in
        elim (Bool-cases (ltb (size - (s.offset + 4)) content_size)) [
          | inl out ↦ rw out tt
          | inr fits ↦ rw fits (
              advance-Progress s.offset (s.offset + 4 + content_size) (extends id declared)
                (noted m wanted occurrence id flags (order_of flags) content_size s)
                (apply_info id flags (order_of flags) (pointer_at m (s.offset + 4)) content_size
                  s.context)
                (omega arith))
        ]

-- The loop itself, which has no fuel: it ends after some rounds with an answer.
pub data Loop (m : BytePointer) (size wanted occurrence : ℕ)
    : WalkState → ℕ → MessageRouteError × Option RoutedSubmessageView → Type 0 where
  left :
      {s : WalkState}
      → ltb s.offset size ≡ false
      → Loop m size wanted occurrence s 0 (finish size s)
  failing :
      {s : WalkState} (error : MessageRouteError)
      → ltb s.offset size ≡ true
      → step m size wanted occurrence s ≡ Step.failed error
      → Loop m size wanted occurrence s 1 (error, Option.none)
  stopping :
      {s : WalkState} (t : WalkState)
      → ltb s.offset size ≡ true
      → step m size wanted occurrence s ≡ Step.stopped t
      → Loop m size wanted occurrence s 1 (finish size t)
  going :
      {s t : WalkState} {rounds : ℕ} {out : MessageRouteError × Option RoutedSubmessageView}
      → ltb s.offset size ≡ true
      → step m size wanted occurrence s ≡ Step.continued t
      → Loop m size wanted occurrence t rounds out
      → Loop m size wanted occurrence s (suc rounds) out

module _ (m : BytePointer) (size wanted occurrence : ℕ) where
  -- The answer is that of the loop, after so many rounds that four bytes were left for each.
  abbrev Ends : WalkState → MessageRouteError × Option RoutedSubmessageView → Type 0
  Ends s out =
      (rounds : ℕ) × (4 * rounds < size - s.offset + 4) × Loop m size wanted occurrence s rounds out

  walk-Ends :
      (fuel : ℕ) (s : WalkState)
      → size - s.offset < fuel
      → Ends s (walk fuel m size wanted occurrence s)
  unfolding walk
  walk-Ends zero s h = absurd (omega arith)
  walk-Ends (suc fuel) s h = elim (Bool-cases (ltb s.offset size)) [
    | inr done ↦ rw done (0, omega arith, Loop.left done)
    | inl inside ↦ rw inside (
        round inside (λ t move. walk-Ends fuel t (ground (arith, inside, move, h)))
          (step m size wanted occurrence s) refl (step-Progress m size wanted occurrence s))
  ]
    where
      round :
          ltb s.offset size ≡ true
          → ((t : WalkState)
              → s.offset + 4 ≤ t.offset
              → Ends t (walk fuel m size wanted occurrence t))
          → (p : Step) → step m size wanted occurrence s ≡ p
          → Progress s.offset p
          → Ends s (resume (walk fuel m size wanted occurrence) size p)
      round inside later (Step.failed error) e move =
          (1, ground (arith, inside), Loop.failing error inside e)
      round inside later (Step.stopped t) e move =
          (1, ground (arith, inside), Loop.stopping t inside e)
      round inside later (Step.continued t) e move =
          let before : s.offset < size = ground (arith, inside) in
          let (rounds, few, loop) = later t move in
          (suc rounds, omega (arith, before, move, few), Loop.going inside e loop)

-- The loop over the submessages of a message of any bytes ends, after so many rounds that there are
-- four bytes behind the header for each, the last one excepted. Its answer is the one that `walk`
-- gives with one round more than the message has bytes.
pub walk_total :
    (m : BytePointer) (size wanted occurrence : ℕ)
    → (rounds : ℕ) × (4 * rounds < size - 20 + 4)
      × Loop m size wanted occurrence
          (start_state m)
          rounds
          (walk (suc size) m size wanted occurrence (start_state m))
walk_total m size wanted occurrence =
    walk-Ends m size wanted occurrence (suc size) (start_state m) (omega arith)
