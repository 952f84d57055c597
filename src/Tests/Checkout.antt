-- ===== src/Tests/Checkout.antt =====
-- The list of bookings and the checkout at concrete inputs: user 40 has three bookings, of which one
-- is paid, and pays for another.
use slot_booking.Base.{ℕ, ◌≡◌, refl, none, some, [], ◌∷◌, arith}
use slot_booking.Models.{Booking, BookingStatus, PaymentStatus, PaymentProvider, TransactionStatus}
use slot_booking.Effects.{World, Action, ok}
use slot_booking.Api.Bookings.Lists.{list_bookings, newest_first}
use slot_booking.Api.Bookings.Lists.Newest.{IsNewestFirst, HasBookingIds}
use slot_booking.Api.Bookings.Lists.Cursor.{follow_cursor, own_bookings, list_bookings_covers}
use slot_booking.Api.Bookings.Checkout.{
  BookingCheckoutRequest, InitiatePaymentRequest, InitiatePaymentResponse, checkout_booking,
}
use slot_booking.Api.Bookings.Checkout.Frame.{SameBut, checkout_booking_frame}
use slot_booking.Tests.Demo.{services, world_of, database, paid_booking}

abbrev unpaid : ℕ → Booking
unpaid id = record paid_booking {
  id = id;
  status = BookingStatus.pending;
  payment_status = PaymentStatus.pending;
}

abbrev booked : World services
booked = world_of (record database { bookings = paid_booking ∷ unpaid 12 ∷ unpaid 11 ∷ [] })

ids : HasBookingIds booked.db.bookings
ids = (
  (λ e. absurd (ground arith), (λ e. absurd (ground arith), tt)),
  ((λ e. absurd (ground arith), tt), (tt, tt)),
)

list_example :
    (follow_cursor (λ cursor. list_bookings (some 1) cursor 1 40) 4 none booked
      ≡ (ok (newest_first (own_bookings 40 (some 1) booked)), booked))
    × IsNewestFirst (newest_first (own_bookings 40 (some 1) booked))
list_example = list_bookings_covers (some 1) 0 40 booked ids

-- A provider that answers without storing anything.
abbrev initiate_at :
    PaymentProvider → InitiatePaymentRequest → Action (World services) InitiatePaymentResponse
initiate_at q r w = (
  ok (record {
    transaction_id = 5;
    status = TransactionStatus.initiated;
    payment_url = some "https://pay";
    provider_pidx = some "pidx";
  }),
  w,
)

abbrev payload : BookingCheckoutRequest
payload = record {
  provider = "khalti";
  return_url = "https://back";
  website_url = "";
  customer_name = none;
  customer_email = none;
  customer_phone = none;
}

checkout_example :
    SameBut 40 12 12 (unpaid 12) (checkout_booking initiate_at 12 payload 40 booked).1.db
checkout_example =
    checkout_booking_frame initiate_at (λ q r w. refl) 12 40 12 payload (unpaid 12) booked refl
