-- ===== src/Tests/Payments.antt =====
-- Payments at concrete inputs: the callback of a booking that was cancelled meanwhile.
use slot_booking.Base.{◌≡◌, refl, none, some, ◌∷◌, []}
use slot_booking.Base.Text.{str_ne}
use slot_booking.Models.{
  Booking, BookingStatus, PaymentStatus, Payout, PaymentProvider, TransactionStatus,
  PaymentTransaction, get_booking,
}
use slot_booking.Effects.{World, Action, ok, pure}
use slot_booking.Finance.{
  VerifyPaymentRequest, VerifyPaymentResponse, stored_response, verify_payment,
}
use slot_booking.Finance.Verified.{
  IsConfirmed, IsPayoutOf, verify_payment_confirms, verify_payment_once,
}
use slot_booking.Tests.Demo.{services, world_of, database, paid_booking}

abbrev transaction : PaymentTransaction
transaction = record {
  id = 11;
  provider = PaymentProvider.stripe;
  amount = 2001;
  status = TransactionStatus.completed;
  booking_id = some 9;
  provider_transaction_id = some "pi_1";
}

abbrev cancelled : Booking
cancelled = record paid_booking {
  status = BookingStatus.cancelled;
  payment_status = PaymentStatus.pending;
}

abbrev late : World services
late = world_of (record database { bookings = cancelled ∷ []; transactions = transaction ∷ [] })

abbrev says_paid : Action (World services) VerifyPaymentResponse
says_paid = pure (stored_response transaction)

abbrev callback : VerifyPaymentRequest
callback = record { provider = PaymentProvider.stripe; raw = "{}" }

confirms_example :
    let w' = (verify_payment (some says_paid) callback none late).1 in
    ((c : Booking) × (get_booking 9 w'.saved ≡ some c) × IsConfirmed cancelled c)
    × ((x : Payout) × (w'.saved.payouts ≡ x ∷ []) × IsPayoutOf cancelled x)
confirms_example =
    let p =
      verify_payment_confirms says_paid callback none late late (stored_response transaction)
        cancelled refl refl refl refl in
    (p.1, p.2)

abbrev settled : World services
settled = world_of (verify_payment (some says_paid) callback (some "key-of-pi_1") late).1.saved

once_example :
    verify_payment none callback (some "key-of-pi_1") settled
    ≡ (ok (stored_response transaction), settled)
once_example =
    verify_payment_once says_paid none callback callback "key-of-pi_1" late late settled
      (stored_response transaction) transaction (str_ne "key-of-pi_1" "" refl) refl refl refl refl
      refl
