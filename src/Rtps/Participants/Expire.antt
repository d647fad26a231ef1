-- ===== src/Rtps/Participants/Expire.antt =====
-- DiscoveredParticipantTable::expire: exactly the leases that have ended go.
use open_rtdds.Prelude.{
  ◌+◌, ◌<◌, ◌^◌, ◌⊎◌, ◌↔◌, true, if◌then◌else◌, ℕ, suc, ◌≤◌, ◌≡◌, ◌≢◌, refl, ap, ◌∙◌, Bool, false,
  ◌&&◌, ◌!=◌, not, List, [], ◌∷◌, Option, arith, length, inl, inr, Bool-cases, ltb,
}
use open_rtdds.Rtps.Types.{GuidPrefix}
use open_rtdds.Rtps.Participants.{
  SpdpError, DiscoveredParticipant, DiscoveredParticipantTable, holds, find, is_due, count_due,
  no_entry, expire_entries, expire,
}

-- A lease that has ended, and an entry that stays.
abbrev pub Ended : ℕ → DiscoveredParticipant → Type 0
Ended now e = (e.occupied ≡ true) × (e.expires_at_ns ≤ now)

abbrev pub Stays : ℕ → DiscoveredParticipant → Type 0
Stays now e = (e.occupied ≡ false) ⊎ (now < e.expires_at_ns)

-- The entries before and after, and the prefixes of those that go, in order.
pub data Expiry (now : ℕ)
    : List DiscoveredParticipant → List DiscoveredParticipant → List GuidPrefix → Type 0 where
  nothing : Expiry now [] [] []
  removed :
      {es kept : List DiscoveredParticipant} {gone : List GuidPrefix} (e : DiscoveredParticipant)
      → Ended now e
      → Expiry now es kept gone
      → Expiry now (e ∷ es) (no_entry ∷ kept) (e.participant.guid_prefix ∷ gone)
  left :
      {es kept : List DiscoveredParticipant} {gone : List GuidPrefix} (e : DiscoveredParticipant)
      → Stays now e
      → Expiry now es kept gone
      → Expiry now (e ∷ es) (e ∷ kept) gone

expire_entries-Expiry :
    (now : ℕ) (es : List DiscoveredParticipant)
    → Expiry now es (expire_entries now es).0 (expire_entries now es).1
expire_entries-Expiry now [] = Expiry.nothing
expire_entries-Expiry now (e ∷ es) = elim (Bool-cases (is_due now e)) [
  | inl due ↦
      rw due
        (Expiry.removed e (ground (arith, due), ground (arith, due)) (expire_entries-Expiry now es))
  | inr kept ↦ rw kept (Expiry.left e (stays kept) (expire_entries-Expiry now es))
]
  where
    stays : is_due now e ≡ false → Stays now e
    stays kept = elim (Bool-cases e.occupied) [
      | inl used ↦ inr (ground (arith, kept, used))
      | inr free ↦ inl free
    ]

length-expire_entries :
    (now : ℕ) (es : List DiscoveredParticipant)
    → length (expire_entries now es).1 ≡ count_due now es
length-expire_entries now [] = refl
length-expire_entries now (e ∷ es) = elim (Bool-cases (is_due now e)) [
  | inl due ↦ rw due (ap suc (length-expire_entries now es))
  | inr kept ↦ rw kept (length-expire_entries now es)
]

-- The number of occupied entries, as the table counts them.
abbrev pub count_occupied : List DiscoveredParticipant → ℕ
count_occupied [] = 0
count_occupied (e ∷ es) = if e.occupied then suc (count_occupied es) else count_occupied es

count_occupied-expire_entries :
    (now : ℕ) (es : List DiscoveredParticipant)
    → count_occupied (expire_entries now es).0 + count_due now es ≡ count_occupied es
count_occupied-expire_entries now [] = refl
count_occupied-expire_entries now (e ∷ es) =
    let rest = count_occupied-expire_entries now es in
    elim (Bool-cases (is_due now e)) [
      | inl due ↦ ground (arith, due, rest)
      | inr kept ↦ ground (arith, kept, rest)
    ]

-- A participant that is found and whose lease has not ended is still found.
find-expire_entries :
    (now : ℕ) (prefix : List ℕ) (es : List DiscoveredParticipant) (e : DiscoveredParticipant)
    → find prefix es ≡ Option.some e
    → is_due now e ≡ false
    → find prefix (expire_entries now es).0 ≡ Option.some e
find-expire_entries now prefix [] e f k = cc
find-expire_entries now prefix (x ∷ es) e f k = elim (Bool-cases (holds prefix x)) [
  | inl h ↦
      let same : x ≡ e = ground (arith, f, h) in
      let live : is_due now x ≡ false = ap (is_due now) same ∙ k in
      rw live (ground (arith, h, same))
  | inr h ↦
      let rest = find-expire_entries now prefix es e (ground (arith, f, h)) k in
      elim (Bool-cases (is_due now x)) [
        | inl due ↦ rw due rest
        | inr kept ↦ rw kept (ground (arith, h, rest))
      ]
]

-- When a call of `expire` succeeds, with the prefixes that it has to hand out.
pub record Accepts (t : DiscoveredParticipantTable) (now : ℕ) (present : Bool) (capacity : ℕ)
    (gone : List GuidPrefix) : Type 0 where
  pub forward : t.last_time_ns ≤ now
  pub there : (length gone ≡ 0) ⊎ (present ≡ true)
  pub fits : length gone ≤ capacity

-- What a call of `expire` that succeeds does.
pub record Expired (t : DiscoveredParticipantTable) (now : ℕ)
    (out : SpdpError × DiscoveredParticipantTable × List GuidPrefix) : Type 0 where
  pub entries : Expiry now t.entries out.1.entries out.2
  pub counted : out.1.size ≡ count_occupied out.1.entries
  pub clock : out.1.last_time_ns ≡ now
  pub kept :
      (prefix : List ℕ) (e : DiscoveredParticipant)
      → find prefix t.entries ≡ Option.some e
      → now < e.expires_at_ns
      → find prefix out.1.entries ≡ Option.some e

-- In a table that counts its occupied entries, `expire` either fails and changes nothing, or removes
-- exactly the participants whose lease ends by now, hands out their prefixes in the order of the
-- entries, sets the clock, and still counts the entries that are left. A participant that is found and
-- whose lease ends later is still found. It succeeds exactly when the clock does not go back, the
-- output is there unless nothing is handed out, and it holds the prefixes of all the leases that end.
pub expire_lem :
    (t : DiscoveredParticipantTable) (now : ℕ) (present : Bool) (capacity : ℕ)
    → t.size ≡ count_occupied t.entries
    → t.size < 2 ^ 64
    → let out = expire t now present capacity in
      ((kept : List DiscoveredParticipant) × ((gone : List GuidPrefix) × Expiry now t.entries kept
            gone
          × ((out.0 ≡ SpdpError.none) ↔ Accepts t now present capacity gone)))
      × (out.0 ≡ SpdpError.none → Expired t now out)
      × (out.0 ≢ SpdpError.none → (out.1 ≡ t) × (out.2 ≡ []))
unfolding expire
expire_lem t now present capacity counted small =
    let len = length-expire_entries now t.entries in
    let sum = count_occupied-expire_entries now t.entries in
    let spec = expire_entries-Expiry now t.entries in
    elim (Bool-cases (ltb now t.last_time_ns)) [
      | inl back ↦ rw back (
        (_, (_, spec, (λ q. cc, λ a. absurd (ground (arith, back, a.forward))))),
        λ q. cc,
        λ q. (refl, refl),
      )
      | inr on ↦ elim (Bool-cases (count_due now t.entries != 0 && not present)) [
        | inl missing ↦
            rw (on, missing)
              (
                (_, (_, spec, (λ q. cc, λ a. absurd (absent missing len a.there)))),
                λ q. cc,
                λ q. (refl, refl),
              )
        | inr there ↦ elim (Bool-cases (ltb capacity (count_due now t.entries))) [
          | inl full ↦
              rw (on, there, full)
                (
                  (_, (_, spec, (λ q. cc, λ a. absurd (ground (arith, full, len, a.fits))))),
                  λ q. cc,
                  λ q. (refl, refl),
                )
          | inr fits ↦
              rw (on, there, fits)
                (
                  (
                    _,
                    (
                      _,
                      spec,
                      (
                        λ q. record {
                          forward = ground (arith, on);
                          there = needed there len;
                          fits = ground (arith, fits, len);
                        },
                        λ a. refl,
                      ),
                    ),
                  ),
                  λ q. record {
                    entries = spec;
                    counted = omega (arith, counted, small, sum);
                    clock = refl;
                    kept = λ prefix e f later.
                        find-expire_entries now prefix t.entries e f (ground (arith, later));
                  },
                  λ q. absurd (q refl),
                )
        ]
      ]
    ]
  where
    absent :
        (count_due now t.entries != 0 && not present) ≡ true
        → length (expire_entries now t.entries).1 ≡ count_due now t.entries
        → (length (expire_entries now t.entries).1 ≡ 0) ⊎ (present ≡ true)
        → ⊥
    absent missing len (inl none) = ground (arith, missing, len, none)
    absent missing len (inr there) = ground (arith, missing, there)

    needed :
        (count_due now t.entries != 0 && not present) ≡ false
        → length (expire_entries now t.entries).1 ≡ count_due now t.entries
        → (length (expire_entries now t.entries).1 ≡ 0) ⊎ (present ≡ true)
    needed there len = elim (Bool-cases present) [
      | inl p ↦ inr p
      | inr p ↦ inl (ground (arith, there, len, p))
    ]
