-- ===== src/Api/Bookings/Checkout.antt =====
-- `checkout_booking` of backend/src/apps/booking/api/v1/bookings.py. A provider's own initiation,
-- which asks the provider and stores a transaction, is an argument.
pub mod Frame
use slot_booking.Base.{
  ℕ, String, Bool, true, false, not, ◌||◌, Option, none, some, ◌==◌, if◌then◌else◌,
}
use slot_booking.Base.Text.{str_eq, str, ◌+++◌}
use slot_booking.Models.{
  Database, Booking, BookingStatus, PaymentStatus, PaymentProvider, TransactionStatus, get_booking,
  put_booking, is_cancelled, is_paid,
}
use slot_booking.Effects.{
  Services, World, Action, http, value_error, booking_not_found, already_cancelled, already_paid,
  unsupported_provider, ◌>>=◌, ◌>>◌, pure, or_raise, raise_if, query, write, commit,
}

pub record BookingCheckoutRequest : Type 0 where
  pub provider : String
  pub return_url : String
  pub website_url : String
  pub customer_name : Option String
  pub customer_email : Option String
  pub customer_phone : Option String

-- backend/src/apps/finance/schemas/payment.py
pub record InitiatePaymentRequest : Type 0 where
  pub provider : PaymentProvider
  pub amount : ℕ
  pub purchase_order_id : String
  pub purchase_order_name : String
  pub booking_id : Option ℕ
  pub tenant_id : Option ℕ
  pub provider_id : Option ℕ
  pub return_url : String
  pub website_url : String
  pub customer_name : Option String
  pub customer_email : Option String
  pub customer_phone : Option String

pub record InitiatePaymentResponse : Type 0 where
  pub transaction_id : ℕ
  pub status : TransactionStatus
  pub payment_url : Option String
  pub provider_pidx : Option String

pub record BookingCheckoutResponse : Type 0 where
  pub booking_id : ℕ
  pub transaction_id : String
  pub payment_url : Option String
  pub provider_pidx : Option String
  pub status : TransactionStatus

-- `PaymentProvider(payload.provider)`
abbrev pub provider_of : String → Option PaymentProvider
provider_of text =
    if str_eq text "khalti"
    then some PaymentProvider.khalti
    else if str_eq text "esewa"
    then some PaymentProvider.esewa
    else if str_eq text "stripe"
    then some PaymentProvider.stripe
    else if str_eq text "paypal"
    then some PaymentProvider.paypal
    else none

abbrev pub payment_request :
    BookingCheckoutRequest → PaymentProvider → Booking → InitiatePaymentRequest
payment_request payload provider b = record {
  provider = provider;
  amount = b.amount_minor;
  purchase_order_id = "booking:" +++ str b.id;
  purchase_order_name = "Booking #" +++ str b.id;
  booking_id = some b.id;
  tenant_id = some b.tenant_id;
  provider_id = some b.provider_id;
  return_url = payload.return_url;
  website_url = payload.website_url;
  customer_name = payload.customer_name;
  customer_email = payload.customer_email;
  customer_phone = payload.customer_phone;
}

-- `str(payment_response.provider_pidx or payment_response.transaction_id)`
abbrev pub payment_id : InitiatePaymentResponse → String
payment_id r = elim r.provider_pidx [
  | none ↦ str r.transaction_id
  | some pidx ↦ if str_eq pidx "" then str r.transaction_id else pidx
]

-- The row of the session, to which the provider's commit may have come first.
abbrev pub set_payment_id : ℕ → String → Database → Database
set_payment_id k text db = elim (get_booking k db) [
  | none ↦ db
  | some b ↦ put_booking (record b { external_payment_id = some text }) db
]

module _ {s : Services}
    (initiate : PaymentProvider
      → InitiatePaymentRequest
      → Action (World s) InitiatePaymentResponse) where
  -- What follows the checks; an amount of 0 fails the request's validator.
  unfoldable pub initiate_checkout :
      ℕ
      → BookingCheckoutRequest
      → PaymentProvider
      → Booking
      → Action (World s) BookingCheckoutResponse
  initiate_checkout booking_id payload provider b = do
    raise_if (b.amount_minor == 0) value_error
    answer ← initiate provider (payment_request payload provider b)
    write (set_payment_id booking_id (payment_id answer))
    commit
    pure (record {
      booking_id = booking_id;
      transaction_id = str answer.transaction_id;
      payment_url = answer.payment_url;
      provider_pidx = answer.provider_pidx;
      status = answer.status;
    })

  unfoldable pub checkout_booking :
      ℕ → BookingCheckoutRequest → ℕ → Action (World s) BookingCheckoutResponse
  checkout_booking booking_id payload user = do
    b ← or_raise (← query (get_booking booking_id)) (http 404 booking_not_found)
    raise_if (not (b.user_id == user)) (http 404 booking_not_found)
    raise_if (is_cancelled b.status) (http 409 already_cancelled)
    raise_if (is_paid b.payment_status) (http 409 already_paid)
    provider ← or_raise (provider_of payload.provider) (http 400 unsupported_provider)
    initiate_checkout booking_id payload provider b
