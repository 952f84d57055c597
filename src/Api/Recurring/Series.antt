-- ===== src/Api/Recurring/Series.antt =====
-- What a series of bookings is, and that it is made as a whole or not at all.
use slot_booking.Base.{
  ℕ, zero, suc, ◌+◌, ◌-◌, max, ◌≡◌, refl, sym, ap, ◌∙◌, Bool, Bool-cases, List, [], ◌∷◌, length,
  none, arith, inl, inr, Option, All, any, subst, true, ◌&&◌, ◌==◌,
}
use slot_booking.Models.{Database, Slot, Booking}
use slot_booking.Effects.{
  Services, World, ok, err, Error, Result, continue, continue_ok, Action, utcnow, commit,
  continue_err, ◌>>=◌, ◌>>◌, pure,
}
use slot_booking.Booking.Quote.{BookingQuoteResult, build_booking_quote, discount_of}
use slot_booking.Booking.Hold.{get_slot_hold_owner, release_slot_hold}
use slot_booking.Booking.Validate.{
  SlotBookingContext, validate_slot_booking_request, check_ownership, check_schedule, check_holder,
}
use slot_booking.Booking.Create.{
  create_or_get_idempotent_booking, create_booking_rows, hold_expiry, insert_booking,
}
use slot_booking.Api.Recurring.Stored.{IsStored, book_slots_stores}
use slot_booking.Api.Recurring.{
  RecurringBookingRequest, target_start, matching_slots, next_slot, next_slots, series_booking,
  book_slot, book_slots, commit_series, series_from, create_recurring_bookings,
}

module _ {s : Services} where
  check_ownership_saved :
      (slot : Slot) (resource : _) (a b c : ℕ) (w : World s)
      → (check_ownership slot resource a b c w).1.saved ≡ w.saved
  unfolding check_ownership
  check_ownership_saved slot resource a b c w = ground arith

  validate_slot_booking_request_saved :
      (slot_id resource_id provider_id tenant_id user : ℕ) (w : World s)
      → (validate_slot_booking_request slot_id resource_id provider_id tenant_id user w).1.saved
        ≡ w.saved
  unfolding validate_slot_booking_request check_ownership check_schedule check_holder
      get_slot_hold_owner
  validate_slot_booking_request_saved slot_id resource_id provider_id tenant_id user w =
      ground arith

  build_booking_quote_saved :
      (tenant_id resource_id : ℕ) (code : Option _) (size : ℕ) (w : World s)
      → (build_booking_quote tenant_id resource_id code size w).1.saved ≡ w.saved
  unfolding build_booking_quote discount_of
  build_booking_quote_saved tenant_id resource_id code size w = ground arith

  create_or_get_idempotent_booking_saved :
      (booking : Booking) (slot : Slot) (m : ℕ) (w : World s)
      → (create_or_get_idempotent_booking booking slot m w).1.saved ≡ w.saved
  unfolding create_or_get_idempotent_booking create_booking_rows hold_expiry insert_booking
      release_slot_hold
  create_or_get_idempotent_booking_saved booking slot m w = ground arith

  continue_saved :
      {A B : Type 0} (r : Result A × World s) (f : A → Action (World s) B) (w : World s)
      → r.1.saved ≡ w.saved
      → ((a : A) (v : World s) → (f a v).1.saved ≡ v.saved)
      → (continue r f).1.saved ≡ w.saved
  continue_saved (ok a, v) f w h k = k a v ∙ h
  continue_saved (err e, v) f w h k = h

  next_slot_saved :
      (p : RecurringBookingRequest) (user : ℕ) (base : Slot) (index : ℕ) (w : World s)
      → (next_slot p user base index w).1.saved ≡ w.saved
  unfolding next_slot
  next_slot_saved p user base index w =
      let starts = target_start base p.interval_days index in
      by_rows (matching_slots p.resource_id starts (starts + (base.ends_at - base.starts_at)) w.db)
        refl
    where
      by_rows :
          (rows : List Slot)
          → matching_slots p.resource_id
              (target_start base p.interval_days index)
              (target_start base p.interval_days index + (base.ends_at - base.starts_at))
              w.db
            ≡ rows
          → (next_slot p user base index w).1.saved ≡ w.saved
      by_rows [] e = ground arith
      by_rows (m ∷ []) e = ground (
        arith,
        validate_slot_booking_request_saved m.id p.resource_id p.provider_id p.tenant_id user w,
      )
      by_rows (m ∷ n ∷ rest) e = ground arith

  next_slots_saved :
      (p : RecurringBookingRequest) (user : ℕ) (base : Slot) (left index : ℕ) (w : World s)
      → (next_slots p user base left index w).1.saved ≡ w.saved
  unfolding next_slots
  next_slots_saved p user base zero index w = refl
  next_slots_saved p user base (suc left) index w =
      continue_saved (next_slot p user base index w)
        (λ slot. next_slots p user base left (suc index) >>= λ rest. pure (slot ∷ rest)) w
        (next_slot_saved p user base index w)
        (λ slot v.
          continue_saved (next_slots p user base left (suc index) v) (λ rest. pure (slot ∷ rest)) v
            (next_slots_saved p user base left (suc index) v) (λ rest u. refl))

  book_slot_saved :
      (p : RecurringBookingRequest) (user : ℕ) (slot : Slot) (index : ℕ) (w : World s)
      → (book_slot p user slot index w).1.saved ≡ w.saved
  unfolding book_slot
  book_slot_saved p user slot index w =
      continue_saved (build_booking_quote p.tenant_id p.resource_id none 1 w)
        (λ (q : BookingQuoteResult). utcnow >>= λ created. utcnow >>= λ updated.
          create_or_get_idempotent_booking (series_booking p user slot index q created updated) slot
            10)
        w (build_booking_quote_saved p.tenant_id p.resource_id none 1 w)
        (λ q v.
          create_or_get_idempotent_booking_saved
            (series_booking p user slot index q (v.clock v.reads) (v.clock (suc v.reads))) slot 10
            (record v { reads = suc (suc v.reads) }))

  book_slots_saved :
      (p : RecurringBookingRequest) (user : ℕ) (slots : List Slot) (index : ℕ) (w : World s)
      → (book_slots p user slots index w).1.saved ≡ w.saved
  unfolding book_slots
  book_slots_saved p user [] index w = refl
  book_slots_saved p user (slot ∷ slots) index w =
      continue_saved (book_slot p user slot index w)
        (λ b. book_slots p user slots (suc index) >>= λ rest. pure (b.id ∷ rest)) w
        (book_slot_saved p user slot index w)
        (λ b v.
          continue_saved (book_slots p user slots (suc index) v) (λ rest. pure (b.id ∷ rest)) v
            (book_slots_saved p user slots (suc index) v) (λ rest u. refl))

  next_slots-length :
      (p : RecurringBookingRequest) (user : ℕ) (base : Slot) (left index : ℕ) (w w' : World s)
      (slots : List Slot)
      → next_slots p user base left index w ≡ (ok slots, w')
      → length slots ≡ left
  unfolding next_slots
  next_slots-length p user base zero index w w' slots h = ground arith
  next_slots-length p user base (suc left) index w w' slots h =
      let v = (next_slot p user base index w).1 in
      let rest =
        continue_ok (next_slot p user base index w)
          (λ slot. next_slots p user base left (suc index) >>= λ rest. pure (slot ∷ rest)) slots w'
          h in
      let tail =
        continue_ok (next_slots p user base left (suc index) v) (λ rest'. pure (rest.0 ∷ rest'))
          slots w' rest.2 in
      ground (arith, next_slots-length p user base left (suc index) v _ tail.0 tail.1, tail.2)

  book_slots-length :
      (p : RecurringBookingRequest) (user : ℕ) (slots : List Slot) (index : ℕ) (w w' : World s)
      (ids : List ℕ)
      → book_slots p user slots index w ≡ (ok ids, w')
      → length ids ≡ length slots
  unfolding book_slots
  book_slots-length p user [] index w w' ids h = ground arith
  book_slots-length p user (slot ∷ slots) index w w' ids h =
      let v = (book_slot p user slot index w).1 in
      let rest =
        continue_ok (book_slot p user slot index w)
          (λ b. book_slots p user slots (suc index) >>= λ rest. pure (b.id ∷ rest)) ids w' h in
      let tail =
        continue_ok (book_slots p user slots (suc index) v) (λ rest'. pure (rest.0.id ∷ rest')) ids
          w' rest.2 in
      ground (arith, book_slots-length p user slots (suc index) v _ tail.0 tail.1, tail.2)

  commit_series_ok :
      (p : RecurringBookingRequest) (user : ℕ) (slots : List Slot) (w w' : World s) (ids : List ℕ)
      → commit_series p user slots w ≡ (ok ids, w')
      → (length ids ≡ length slots) × All (IsStored user w'.saved.bookings) ids × (w'.saved ≡ w'.db)
  unfolding commit_series
  commit_series_ok p user slots w w' ids h =
      let (made, booked, rest) =
        continue_ok (book_slots p user slots 0 w) (λ (x : List ℕ). commit >> pure x) ids w' h in
      let count = book_slots-length p user slots 0 w (book_slots p user slots 0 w).1 made booked in
      let u = (book_slots p user slots 0 w).1 in
      let there : All (IsStored user u.db.bookings) made =
        (book_slots_stores p user slots 0 w u made booked).0 in
      let same : made ≡ ids = ground arith in
      let kept : u.db ≡ w'.saved = ground arith in
      (
        ground (arith, count),
        subst (All (IsStored user w'.saved.bookings)) same
            (subst (λ (db : Database). All (IsStored user db.bookings) made) kept there),
        ground arith,
      )

  commit_series_err :
      (p : RecurringBookingRequest) (user : ℕ) (slots : List Slot) (w w' : World s) (e : Error)
      → commit_series p user slots w ≡ (err e, w')
      → w'.saved ≡ w.saved
  unfolding commit_series
  commit_series_err p user slots w w' e h =
      elim (continue_err (book_slots p user slots 0 w) (λ (x : List ℕ). commit >> pure x) e w' h) [
        | inl failed ↦ ap (λ x. x.1.saved) (sym failed) ∙ book_slots_saved p user slots 0 w
        | inr (made, booked, rest) ↦ absurd (ground arith)
      ]

-- A recurring booking that succeeds is answered with as many ids as there are repetitions, and at
-- least one, under each of which a booking of the caller is committed; of one that fails nothing is
-- committed.
pub create_recurring_bookings_whole :
    {s : Services} (enabled : Bool) (p : RecurringBookingRequest) (user : ℕ) (w w' : World s)
    → ((ids : List ℕ)
        → create_recurring_bookings enabled p user w ≡ (ok ids, w')
        → (length ids ≡ max p.repeat_count 1)
          × All
              (λ id.
                any (λ (b : Booking). b.id == id && b.user_id == user) w'.saved.bookings ≡ true)
              ids
          × (w'.saved ≡ w'.db))
      × ((e : Error)
          → create_recurring_bookings enabled p user w ≡ (err e, w')
          → w'.saved ≡ w.saved)
unfolding create_recurring_bookings series_from
create_recurring_bookings_whole {s} enabled p user w w' =
    let validated : Result SlotBookingContext × World s =
      validate_slot_booking_request p.slot_id p.resource_id p.provider_id p.tenant_id user w in
    let kept =
      validate_slot_booking_request_saved p.slot_id p.resource_id p.provider_id p.tenant_id user
        w in
    let slots_of : (base : Slot) → Result (List Slot) × World s =
      λ base. next_slots p user base (p.repeat_count - 1) 1 validated.1 in
    (
      λ ids h.
          let (context, e, h1) = continue_ok validated (series_from p user) ids w' (ground arith) in
          let (slots, f, h2) =
            continue_ok (slots_of context.slot)
              (λ slots. commit_series p user (context.slot ∷ slots)) ids w' h1 in
          let done =
            commit_series_ok p user (context.slot ∷ slots) (slots_of context.slot).1 w' ids h2 in
          let count =
            next_slots-length p user context.slot (p.repeat_count - 1) 1 validated.1 _ slots f in
          (ground (arith, done.0, count), done.1, done.2),
      λ e h. elim (Bool-cases enabled) [
        | inr off ↦ ground arith
        | inl on ↦ elim (continue_err validated (series_from p user) e w' (ground arith)) [
          | inl failed ↦ ap (λ x. x.1.saved) (sym failed) ∙ kept
          | inr (context, f, h1) ↦
              elim (continue_err (slots_of context.slot)
                (λ slots. commit_series p user (context.slot ∷ slots)) e w' h1) [
                  | inl failed ↦
                      ap (λ x. x.1.saved) (sym failed)
                      ∙ next_slots_saved p user context.slot (p.repeat_count - 1) 1 validated.1
                      ∙ kept
                  | inr (slots, g, h2) ↦
                      commit_series_err p user (context.slot ∷ slots) (slots_of context.slot).1 w' e
                        h2
                      ∙ next_slots_saved p user context.slot (p.repeat_count - 1) 1 validated.1
                      ∙ kept
                ]
        ]
      ],
    )
