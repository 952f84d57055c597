-- ===== src/Api/Bookings.antt =====
-- backend/src/apps/booking/api/v1/bookings.py.
pub mod Priced
pub mod Replay
pub mod Lists
pub mod Checkout
use Prim.Native.Char.{code}
use slot_booking.Base.{
  ℕ, suc, ◌+◌, String, Bool, true, false, not, ◌&&◌, ◌||◌, List, [], ◌∷◌, Option, none, some, leb,
  ◌==◌, if◌then◌else◌,
}
use slot_booking.Base.Strip.{strip}
use slot_booking.Base.Text.{str_eq, str, ◌+++◌}
use slot_booking.Models.{
  Database, Booking, BookingStatus, PaymentStatus, RefundStatus, Slot, get_booking,
}
use slot_booking.Effects.{
  Services, World, Action, http, tenant_mismatch, quote_changed, group_disabled, booking_not_found,
  ◌>>=◌, ◌>>◌, pure, or_raise, raise_if, utcnow, query, commit,
}
use slot_booking.Booking.Quote.{BookingQuoteResult, build_booking_quote}
use slot_booking.Booking.Validate.{SlotBookingContext, validate_slot_booking_request}
use slot_booking.Booking.Create.{get_booking_by_idempotency_key, create_or_get_idempotent_booking}
use slot_booking.Booking.Cancel.{cancel_booking}
use slot_booking.Booking.Notices.{notify_booking_created, notify_booking_cancelled}

-- backend/src/apps/booking/schemas/booking.py, the ids decoded.
pub record BookingCreate : Type 0 where
  pub tenant_id : ℕ
  pub provider_id : ℕ
  pub resource_id : ℕ
  pub slot_id : ℕ
  pub amount_minor : ℕ
  pub currency : String
  pub promo_code : Option String
  pub group_size : ℕ
  pub notes : String

pub record GroupBookingRequest : Type 0 where
  pub tenant_id : ℕ
  pub provider_id : ℕ
  pub resource_id : ℕ
  -- `payload.slot_id` as it was sent, and decoded
  pub slot_text : String
  pub slot_id : ℕ
  pub amount_minor : ℕ
  pub currency : String
  pub participants : ℕ

-- A `Booking` before it is stored: the fields that a route names, the others by default.
abbrev pub draft_booking : ℕ → ℕ → ℕ → ℕ → ℕ → String → String → String → ℕ → ℕ → Booking
draft_booking tenant_id provider_id resource_id user_id amount currency key notes created updated =
    record {
      id = 0;
      tenant_id = tenant_id;
      provider_id = provider_id;
      resource_id = resource_id;
      user_id = user_id;
      status = BookingStatus.pending;
      payment_status = PaymentStatus.pending;
      refund_status = RefundStatus.none_;
      amount_minor = amount;
      currency = currency;
      promo_code = none;
      promo_discount_minor = 0;
      idempotency_key = key;
      external_payment_id = none;
      notes = notes;
      created_at = created;
      updated_at = updated;
      cancelled_at = none;
    }

abbrev pub requested_booking :
    BookingCreate → ℕ → BookingQuoteResult → String → String → ℕ → ℕ → Booking
requested_booking p user quote key request_id created updated =
    record (draft_booking p.tenant_id p.provider_id p.resource_id user quote.final_amount_minor
      p.currency key (strip (p.notes +++ "\nrequest_id=" +++ request_id)) created updated) {
        promo_code = p.promo_code;
        promo_discount_minor = quote.promo_discount_minor;
      }

-- `tenant_header and decode_hashid_or_int(tenant_header) != tenant_id`
abbrev pub names_other : Option ℕ → ℕ → Bool
names_other none tenant_id = false
names_other (some header) tenant_id = not (header == tenant_id)

-- What `create_booking` does for a request that it has not seen before, with the price quoted.
unfoldable pub book_at_price :
    {s : Services}
    → BookingCreate
    → String
    → String
    → ℕ
    → Slot
    → BookingQuoteResult
    → Action (World s) Booking
book_at_price p key request_id user slot quote = do
  raise_if (not (p.amount_minor == quote.final_amount_minor)) (http 409 quote_changed)
  created ← utcnow
  updated ← utcnow
  booking ←
      create_or_get_idempotent_booking
        (requested_booking p user quote key request_id created updated) slot 10
  commit
  notify_booking_created user booking.id
  pure booking

-- With the slot validated.
unfoldable pub quote_and_book :
    {s : Services}
    → BookingCreate
    → String
    → String
    → ℕ
    → SlotBookingContext
    → Action (World s) Booking
quote_and_book p key request_id user context = do
  quote ← build_booking_quote p.tenant_id context.resource.id p.promo_code p.group_size
  book_at_price p key request_id user context.slot quote

unfoldable pub create_new_booking :
    {s : Services} → BookingCreate → String → String → ℕ → Action (World s) Booking
create_new_booking p key request_id user = do
  context ← validate_slot_booking_request p.slot_id p.resource_id p.provider_id p.tenant_id user
  quote_and_book p key request_id user context

unfoldable pub create_booking :
    {s : Services} → BookingCreate → String → String → Option ℕ → ℕ → Action (World s) Booking
create_booking p key request_id tenant_header user = do
  raise_if (names_other tenant_header p.tenant_id) (http 400 tenant_mismatch)
  existing ← get_booking_by_idempotency_key key user
  elim existing [ some b ↦ pure b | none ↦ create_new_booking p key request_id user ]

unfoldable pub quote_booking :
    {s : Services} → ℕ → ℕ → Option String → ℕ → Action (World s) BookingQuoteResult
quote_booking tenant_id resource_id promo_code group_size =
    build_booking_quote tenant_id resource_id promo_code group_size

-- `f'group:{current_user.id}:{payload.slot_id}:{payload.participants}'`
abbrev pub group_key : GroupBookingRequest → ℕ → String
group_key p user = "group:" +++ str user +++ ":" +++ p.slot_text +++ ":" +++ str p.participants

-- With `settings.FEATURE_BOOKING_GROUP` as its first argument.
unfoldable pub create_group_booking :
    {s : Services} → Bool → GroupBookingRequest → ℕ → Action (World s) Booking
create_group_booking enabled p user = do
  raise_if (not enabled) (http 404 group_disabled)
  context ← validate_slot_booking_request p.slot_id p.resource_id p.provider_id p.tenant_id user
  quote ← build_booking_quote p.tenant_id p.resource_id none p.participants
  created ← utcnow
  updated ← utcnow
  booking ←
      create_or_get_idempotent_booking
        (draft_booking p.tenant_id p.provider_id p.resource_id user quote.final_amount_minor
          p.currency (group_key p user) ("group booking participants=" +++ str p.participants)
          created updated)
        context.slot 10
  commit
  pure booking

unfoldable pub get_user_booking : {s : Services} → ℕ → ℕ → Action (World s) Booking
get_user_booking booking_id user = do
  booking ← or_raise (← query (get_booking booking_id)) (http 404 booking_not_found)
  raise_if (not (booking.user_id == user)) (http 404 booking_not_found)
  pure booking

unfoldable pub cancel_booking_endpoint : {s : Services} → ℕ → ℕ → Action (World s) Booking
cancel_booking_endpoint booking_id user = do
  booking ← cancel_booking booking_id user
  commit
  notify_booking_cancelled user booking_id
  pure booking
