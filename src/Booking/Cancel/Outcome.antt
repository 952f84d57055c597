-- ===== src/Booking/Cancel/Outcome.antt =====
-- What a cancellation does to the booking, the refunds and the slots.
use slot_booking.Base.{
  ◌∙◌, ℕ, suc, ◌≡◌, ◌≢◌, refl, ◌++◌, Bool-cases, inl, inr, ◌==◌, List, [], ◌∷◌, some, true, false,
  map, arith, select, length, ◌≤◌, ◌↔◌, ◌⊎◌, ap, sym, subst,
}
use slot_booking.Models.{
  Database, Slot, Booking, BookingStatus, PaymentStatus, RefundStatus, RefundRecord, is_paid,
  is_cancellable, get_booking, put_booking, put_slot, add_audit,
}
use slot_booking.Models.Laws.{get_row-put_row_self, get_row-key}
use slot_booking.Effects.{
  Services, World, Action, write, pure, ◌>>◌, continue, continue_ok, ok, err, http,
  booking_not_cancellable, multiple_results_found, run_request,
}
use slot_booking.Booking.Policy.{calculate_refund_amount}
use slot_booking.Booking.Validate.{reopened}
use slot_booking.Booking.Waitlist.{wants, promote_waitlist_entries_for_slots}
use slot_booking.Booking.Waitlist.Frame.{Grows, Grown, promote_waitlist_entries_for_slots-Grown}
use slot_booking.Booking.Waitlist.Promotion.{promote_slot_ambiguous}
use slot_booking.Booking.Cancel.{
  booking_slots_of, release_slots, refund_of, cancelled_row, add_refund, cancelled_event,
  cancel_booking,
}

-- Releasing slots touches no other table.
release_slots_bookings :
    (slots : List Slot) (db : _)
    → ((release_slots slots db).bookings ≡ db.bookings)
      × ((release_slots slots db).refunds ≡ db.refunds)
      × ((release_slots slots db).waitlist ≡ db.waitlist)
release_slots_bookings [] db = (refl, refl, refl)
release_slots_bookings (slot ∷ slots) db =
    release_slots_bookings slots (put_slot (reopened slot) db)

-- A booking that is neither pending nor confirmed is not cancelled, and nothing changes.
pub cancel_booking_refused :
    {s : Services} (booking_id actor : ℕ) (w : World s) (b : Booking)
    → get_booking booking_id w.db ≡ some b
    → is_cancellable b.status ≡ false
    → cancel_booking booking_id actor w ≡ (err (http 409 booking_not_cancellable), w)
unfolding cancel_booking
cancel_booking_refused booking_id actor w b found final = ground arith

-- The new refund, or none, of a booking that is cancelled.
abbrev pub IsRefunded : Booking → Booking → ℕ → List RefundRecord → List RefundRecord → Type 0
IsRefunded b c refund before after =
    ((refund ≡ 0) × (c.refund_status ≡ RefundStatus.none_) × (after ≡ before))
    ⊎ ((1 ≤ refund)
        × (c.refund_status ≡ RefundStatus.pending)
        × (x : RefundRecord) × (after ≡ before ++ x ∷ [])
        × (x.booking_id ≡ b.id)
        × (x.tenant_id ≡ b.tenant_id)
        × (x.amount_minor ≡ refund)
        × (x.currency ≡ b.currency)
        × (x.status ≡ RefundStatus.pending))

-- What a booking is granted: of a paid one, what the policy says; of any other, nothing.
abbrev pub IsGranted : Booking → (starts now refund : ℕ) → Type 0
IsGranted b starts now refund =
    ((b.payment_status ≡ PaymentStatus.completed)
      × (refund ≡ calculate_refund_amount b.amount_minor starts now))
    ⊎ ((b.payment_status ≢ PaymentStatus.completed) × (refund ≡ 0))

refund_of-IsGranted :
    (b : Booking) (starts now : ℕ) → IsGranted b starts now (refund_of b starts now)
refund_of-IsGranted b starts now = elim (Bool-cases (is_paid b.payment_status)) [
  | inl paid ↦ inl (ground arith, ground arith)
  | inr unpaid ↦ inr (λ e. ground arith, ground arith)
]

add_refund-IsRefunded :
    (b : Booking) (refund now : ℕ) (db : Database)
    → IsRefunded b
        (cancelled_row b refund now)
        refund
        db.refunds
        (add_refund (cancelled_row b refund now) refund db).refunds
add_refund-IsRefunded b refund now db = elim (Bool-cases (refund == 0)) [
  | inl nothing ↦ inl (ground arith, ground arith, ground arith)
  | inr some_ ↦ inr (
    ground arith,
    ground arith,
    record {
      tenant_id = b.tenant_id;
      booking_id = b.id;
      amount_minor = refund;
      currency = b.currency;
      status = RefundStatus.pending;
      reason = "policy_cancellation";
    },
    ground arith,
    refl,
    refl,
    refl,
    refl,
    refl,
  )
]

-- The row of a booking that was cancelled.
abbrev pub IsCancelledFrom : Booking → Booking → ℕ → Type 0
IsCancelledFrom b c now =
    (c.id ≡ b.id)
    × (c.user_id ≡ b.user_id)
    × (c.amount_minor ≡ b.amount_minor)
    × (c.status ≡ BookingStatus.cancelled)
    × (c.cancelled_at ≡ some now)

-- A booking counts as refunded where it did, or where all of a positive amount goes back.
abbrev pub CountsAsRefunded : Booking → Booking → ℕ → Type 0
CountsAsRefunded b c refund =
    (c.payment_status ≡ PaymentStatus.refunded)
    ↔ ((b.payment_status ≡ PaymentStatus.refunded) ⊎ ((refund ≡ b.amount_minor) × (1 ≤ refund)))

refunded_when :
    (b : Booking) (refund now : ℕ) → CountsAsRefunded b (cancelled_row b refund now) refund
refunded_when b refund now = ground arith

-- The session before the promotions, and what follows them.
abbrev cancelled_world : {s : Services} → ℕ → Booking → Slot → List Slot → World s → World s
cancelled_world booking_id b slot rest w =
    let now = w.clock w.reads in
    let refund = refund_of b slot.starts_at now in
    record w {
      db =
          add_refund (cancelled_row b refund now) refund
            (put_booking (cancelled_row b refund now) (release_slots (slot ∷ rest) w.db));
      reads = suc w.reads;
    }

abbrev audited :
    {s : Services} → (actor : ℕ) → Booking → (starts now : ℕ) → List ℕ → Action (World s) Booking
audited actor b starts now ids =
    let c = cancelled_row b (refund_of b starts now) now in
    write (add_audit (cancelled_event c actor (refund_of b starts now) ids)) >> pure c

cancel_booking_stages :
    {s : Services} (booking_id actor : ℕ) (w : World s) (b : Booking) (slot : Slot)
    (rest : List Slot)
    → get_booking booking_id w.db ≡ some b
    → is_cancellable b.status ≡ true
    → booking_slots_of booking_id w.db ≡ slot ∷ rest
    → cancel_booking booking_id actor w
      ≡ continue
          (promote_waitlist_entries_for_slots
            (map reopened (slot ∷ rest))
            (cancelled_world booking_id b slot rest w))
          (audited actor b slot.starts_at (w.clock w.reads))
unfolding cancel_booking
cancel_booking_stages booking_id actor w b slot rest found may slots =
    let of_id = get_row-key (λ (r : Booking). r.id) booking_id w.db.bookings {x = b} found in
    let here : booking_slots_of b.id w.db ≡ slot ∷ rest =
      ap (λ k. booking_slots_of k w.db) of_id ∙ slots in
    simp (found, may, here)

-- A cancellation that succeeds, of a booking with a slot, leaves the booking cancelled, with the
-- time. A paid booking is granted what the policy says for the notice before its first slot, any
-- other nothing; what is granted is added as one pending refund of the booking, in its currency,
-- and where it is nothing no refund is added. The booking counts as refunded exactly when it did
-- before or all of a positive amount goes back.
pub cancel_booking_refunds :
    {s : Services} (booking_id actor : ℕ) (w w' : World s) (b c : Booking) (slot : Slot)
    (rest : List Slot)
    → get_booking booking_id w.db ≡ some b
    → booking_slots_of booking_id w.db ≡ slot ∷ rest
    → cancel_booking booking_id actor w ≡ (ok c, w')
    → let now = w.clock w.reads in
      (is_cancellable b.status ≡ true)
      × (get_booking booking_id w'.db ≡ some c)
      × IsCancelledFrom b c now
      × (refund : ℕ) × IsGranted b slot.starts_at now refund
      × IsRefunded b c refund w.db.refunds w'.db.refunds
      × CountsAsRefunded b c refund
cancel_booking_refunds {s} booking_id actor w w' b c slot rest found slots h =
    elim (Bool-cases (is_cancellable b.status)) [
      | inr final ↦ absurd (ground (arith, cancel_booking_refused booking_id actor w b found final))
      | inl may ↦
          let now = w.clock w.reads in
          let refund = refund_of b slot.starts_at now in
          let started = cancelled_world booking_id b slot rest w in
          let kept = release_slots_bookings (slot ∷ rest) w.db in
          let of_id = get_row-key (λ (r : Booking). r.id) booking_id w.db.bookings {x = b} found in
          let (ids, promoted, ended) =
            continue_ok (promote_waitlist_entries_for_slots (map reopened (slot ∷ rest)) started)
              (audited actor b slot.starts_at now) c w'
              (sym (cancel_booking_stages booking_id actor w b slot rest found may slots) ∙ h) in
          let u = (promote_waitlist_entries_for_slots (map reopened (slot ∷ rest)) started).1 in
          let grown : Grows started.db u.db =
            subst (Grown started.db) promoted
              (promote_waitlist_entries_for_slots-Grown (map reopened (slot ∷ rest)) started) in
          let row : c ≡ cancelled_row b refund now = ground arith in
          let refunds : w'.db.refunds
              ≡ (add_refund (cancelled_row b refund now) refund w.db).refunds =
            ap (λ r. r.1.db.refunds) (sym ended) ∙ grown.refunds ∙ ground (arith, kept.1) in
          let in_place : get_booking booking_id started.db ≡ some (cancelled_row b refund now) =
            ground (
              arith,
              kept.0,
              get_row-put_row_self (λ (r : Booking). r.id) (cancelled_row b refund now) b
                  w.db.bookings,
            ) in
          (
            may,
            ap (λ r. get_booking booking_id r.1.db) (sym ended)
                ∙ grown.bookings booking_id (cancelled_row b refund now) in_place
                ∙ ap some (sym row),
            subst (λ r. IsCancelledFrom b r now) (sym row) (refl, refl, refl, refl, refl),
            refund,
            refund_of-IsGranted b slot.starts_at now,
            subst (λ r. IsRefunded b r refund w.db.refunds w'.db.refunds) (sym row)
                (subst (IsRefunded b (cancelled_row b refund now) refund w.db.refunds) (sym refunds)
                  (add_refund-IsRefunded b refund now w.db)),
            subst (λ r. CountsAsRefunded b r refund) (sym row) (refunded_when b refund now),
          )
    ]

-- Freeing the slots of a booking for which two active waitlist entries wait fails: the request ends
-- in `MultipleResultsFound`, and the database is as it was, the booking not cancelled.
pub cancel_booking_ambiguous :
    {s : Services} (booking_id actor : ℕ) (w : World s) (b : Booking) (slot : Slot)
    (rest : List Slot)
    → get_booking booking_id w.saved ≡ some b
    → is_cancellable b.status ≡ true
    → booking_slots_of booking_id w.saved ≡ slot ∷ rest
    → 2 ≤ length (select (wants slot) w.saved.waitlist)
    → ((run_request (cancel_booking booking_id actor) w).0 ≡ err multiple_results_found)
      × ((run_request (cancel_booking booking_id actor) w).1.db ≡ w.saved)
unfolding cancel_booking run_request promote_waitlist_entries_for_slots
cancel_booking_ambiguous {s} booking_id actor w b slot rest found open_ slots many =
    let now = w.clock w.reads in
    let refund = refund_of b slot.starts_at now in
    let released = release_slots (slot ∷ rest) w.saved in
    let kept = release_slots_bookings (slot ∷ rest) w.saved in
    let cancelled = put_booking (cancelled_row b refund now) released in
    let paid = add_refund (cancelled_row b refund now) refund cancelled in
    let started : World s = record w { db = paid; reads = suc w.reads } in
    let of_id = get_row-key (λ (r : Booking). r.id) booking_id w.saved.bookings {x = b} found in
    let stuck = promote_slot_ambiguous (reopened slot) started (rw kept.2 many) in
    (ground (arith, stuck), ground (arith, stuck))
