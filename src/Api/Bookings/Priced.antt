-- ===== src/Api/Bookings/Priced.antt =====
-- What a booking is that the route creates.
use slot_booking.Base.{
  ℕ, suc, ◌≡◌, refl, sym, ap, ◌∙◌, String, [], ◌∷◌, ◌++◌, Option, some, select, arith, true, subst,
}
use slot_booking.Models.{
  Database, Booking, BookingStatus, PaymentStatus, Slot, Resource, get_slot, get_resource,
}
use slot_booking.Effects.{Services, World, ok, continue_ok}
use slot_booking.Booking.Hold.{hold_owner}
use slot_booking.Booking.Quote.{BookingQuoteResult, build_booking_quote}
use slot_booking.Booking.Quote.Accounting.{build_booking_quote_accounts}
use slot_booking.Booking.Validate.{validate_slot_booking_request}
use slot_booking.Booking.Validate.Rules.{
  IsBookable, after_check, current_slot, validate_slot_booking_request-IsBookable,
}
use slot_booking.Booking.Create.{
  has_key, get_booking_by_idempotency_key, create_booking_rows, create_or_get_idempotent_booking,
}
use slot_booking.Booking.Create.Rows.{create_booking_rows_bookings}
use slot_booking.Booking.Notices.{created_notice}
use slot_booking.Notifications.Inbox.{create_notification_commits}
use slot_booking.Api.Bookings.{
  BookingCreate, requested_booking, create_new_booking, create_booking, quote_and_book,
  book_at_price,
}

-- What is stored at a quoted price, for a key that is new.
book_at_price_lem :
    {s : Services} (p : BookingCreate) (key request_id : String) (user : ℕ) (slot : Slot)
    (q : BookingQuoteResult) (w w' : World s) (b : Booking)
    → book_at_price p key request_id user slot q w ≡ (ok b, w')
    → select (has_key key user) w.db.bookings ≡ []
    → (p.amount_minor ≡ q.final_amount_minor)
      × (b.amount_minor ≡ q.final_amount_minor)
      × (b.user_id ≡ user)
      × (b.status ≡ BookingStatus.pending)
      × (b.payment_status ≡ PaymentStatus.pending)
      × (b.idempotency_key ≡ key)
      × (w'.saved.bookings ≡ w.db.bookings ++ b ∷ [])
unfolding book_at_price create_or_get_idempotent_booking
book_at_price_lem {s} p key request_id user slot q w w' b h fresh =
    let draft =
      requested_booking p user q key request_id (w.clock w.reads) (w.clock (suc w.reads)) in
    let later = record w { reads = suc (suc w.reads) } in
    let stored = (create_booking_rows draft slot 10 later).1 in
    let row : create_booking_rows draft slot 10 later ≡ (ok b, stored) = ground arith in
    let made = create_booking_rows_bookings draft slot 10 later stored b row in
    let noticed =
      create_notification_commits (created_notice user b.id) true
        (record stored { saved = stored.db }) in
    (
      ground arith,
      rw made.0 refl,
      rw made.0 refl,
      rw made.0 refl,
      rw made.0 refl,
      rw made.0 refl,
      ground (arith, row, noticed, made.1),
    )

-- Under a new key the request goes on to a new booking.
create_booking_unseen :
    {s : Services} (p : BookingCreate) (key request_id : String) (header : Option ℕ) (user : ℕ)
    (w w' : World s) (b : Booking)
    → create_booking p key request_id header user w ≡ (ok b, w')
    → select (has_key key user) w.db.bookings ≡ []
    → create_new_booking p key request_id user w ≡ (ok b, w')
unfolding create_booking get_booking_by_idempotency_key
create_booking_unseen p key request_id header user w w' b h fresh = ground arith

after_check_bookings :
    {s : Services} (w : World s) (slot : Slot) → (after_check w slot).db.bookings ≡ w.db.bookings
after_check_bookings w slot = ground arith

-- A booking that a new request gets: the slot meets the rules, the price is the quoted one that the
-- request names, and the booking is pending, unpaid, the caller's, and committed.
pub create_booking_priced :
    {s : Services} (p : BookingCreate) (key request_id : String) (header : Option ℕ) (user : ℕ)
    (w w' : World s) (b : Booking)
    → create_booking p key request_id header user w ≡ (ok b, w')
    → select (has_key key user) w.db.bookings ≡ []
    → (slot : Slot) × (resource : Resource) × (q : BookingQuoteResult) × (get_slot p.slot_id w.db
        ≡ some slot)
      × (get_resource slot.resource_id w.db ≡ some resource)
      × IsBookable
          (current_slot slot (w.clock w.reads))
          resource
          p.resource_id
          p.provider_id
          p.tenant_id
          user
          (w.clock w.reads)
          (hold_owner s w.cache (w.clock (suc w.reads)) p.slot_id)
      × ((build_booking_quote p.tenant_id resource.id p.promo_code p.group_size
            (after_check w slot)).0
          ≡ ok q)
      × (p.amount_minor ≡ q.final_amount_minor)
      × (b.amount_minor ≡ p.amount_minor)
      × (b.user_id ≡ user)
      × (b.status ≡ BookingStatus.pending)
      × (b.payment_status ≡ PaymentStatus.pending)
      × (b.idempotency_key ≡ key)
      × (w'.saved.bookings ≡ w.db.bookings ++ b ∷ [])
unfolding create_new_booking quote_and_book
create_booking_priced {s} p key request_id header user w w' b h fresh =
    let new : create_new_booking p key request_id user w ≡ (ok b, w') =
      create_booking_unseen p key request_id header user w w' b h fresh in
    let checked =
      continue_ok
        (validate_slot_booking_request p.slot_id p.resource_id p.provider_id p.tenant_id user w)
        (quote_and_book p key request_id user) b w' new in
    let c = checked.0 in
    let v =
      (validate_slot_booking_request p.slot_id p.resource_id p.provider_id p.tenant_id user w).1 in
    let bookable =
      validate_slot_booking_request-IsBookable p.slot_id p.resource_id p.provider_id p.tenant_id
        user w v c checked.1 in
    let quoted =
      continue_ok (build_booking_quote p.tenant_id c.resource.id p.promo_code p.group_size v)
        (book_at_price p key request_id user c.slot) b w' checked.2 in
    let q = quoted.0 in
    let u = (build_booking_quote p.tenant_id c.resource.id p.promo_code p.group_size v).1 in
    let accounts =
      build_booking_quote_accounts p.tenant_id c.resource.id p.promo_code p.group_size v u q
        quoted.1 in
    let same : u.db.bookings ≡ w.db.bookings =
      ap (λ (d : Database). d.bookings) accounts.5
      ∙ ap (λ (x : World s). x.db.bookings) bookable.4
      ∙ after_check_bookings w bookable.0 in
    let booked = book_at_price_lem p key request_id user c.slot q u w' b quoted.2 (rw same fresh) in
    (
      bookable.0,
      c.resource,
      q,
      bookable.1,
      bookable.2,
      subst
          (λ (x : Slot).
            IsBookable x c.resource p.resource_id p.provider_id p.tenant_id user (w.clock w.reads)
              (hold_owner s w.cache (w.clock (suc w.reads)) p.slot_id))
          bookable.3 bookable.5,
      ap
            (λ (x : World s).
              (build_booking_quote p.tenant_id c.resource.id p.promo_code p.group_size x).0)
            (sym bookable.4)
          ∙ ap (λ x. x.0) quoted.1,
      booked.0,
      booked.1 ∙ sym booked.0,
      booked.2,
      booked.3,
      booked.4,
      booked.5,
      booked.6 ∙ ap (λ rows. rows ++ b ∷ []) same,
    )
