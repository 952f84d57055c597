-- ===== src/Api/Recurring.antt =====
-- `create_recurring_bookings` of backend/src/apps/booking/api/v1/bookings.py.
pub mod Stored
pub mod Series
use slot_booking.Base.{
  ℕ, zero, suc, ◌+◌, ◌-◌, ◌*◌, String, Bool, true, false, not, ◌&&◌, List, [], ◌∷◌, Option, none,
  some, select, ◌==◌,
}
use slot_booking.Base.Text.{str, ◌+++◌}
use slot_booking.Models.{Database, Booking, Slot}
use slot_booking.Effects.{
  Services, World, Action, http, recurring_disabled, recurring_conflict, ◌>>=◌, ◌>>◌, pure,
  or_raise, raise_if, scalar_one_or_none, utcnow, query, commit, days,
}
use slot_booking.Booking.Quote.{BookingQuoteResult, build_booking_quote}
use slot_booking.Booking.Validate.{SlotBookingContext, validate_slot_booking_request}
use slot_booking.Booking.Create.{create_or_get_idempotent_booking}
use slot_booking.Api.Bookings.{draft_booking}

-- backend/src/apps/booking/schemas/booking.py, the ids decoded.
pub record RecurringBookingRequest : Type 0 where
  pub tenant_id : ℕ
  pub provider_id : ℕ
  pub resource_id : ℕ
  pub slot_id : ℕ
  pub amount_minor : ℕ
  pub currency : String
  pub repeat_count : ℕ
  pub interval_days : ℕ

-- `base_context.slot.starts_at + timedelta(days=index * payload.interval_days)`
abbrev pub target_start : Slot → ℕ → ℕ → ℕ
target_start base interval_days index = base.starts_at + days (index * interval_days)

-- The slots of the resource at the target times.
abbrev pub matching_slots : ℕ → ℕ → ℕ → Database → List Slot
matching_slots resource_id starts ends db =
    select
      (λ (x : Slot). x.resource_id == resource_id && (x.starts_at == starts && x.ends_at == ends))
      db.slots

unfoldable pub next_slot :
    {s : Services} → RecurringBookingRequest → ℕ → Slot → ℕ → Action (World s) Slot
next_slot p user base index = do
  let starts = target_start base p.interval_days index
  found ←
      scalar_one_or_none
        (← query (matching_slots p.resource_id starts (starts + (base.ends_at - base.starts_at))))
  matching ← or_raise found (http 409 recurring_conflict)
  validated ← validate_slot_booking_request matching.id p.resource_id p.provider_id p.tenant_id user
  pure validated.slot

-- `for index in range(1, payload.repeat_count)`: the number of rounds left, and the index.
unfoldable pub next_slots :
    {s : Services} → RecurringBookingRequest → ℕ → Slot → ℕ → ℕ → Action (World s) (List Slot)
next_slots p user base zero index = pure []
next_slots p user base (suc left) index = do
  slot ← next_slot p user base index
  rest ← next_slots p user base left (suc index)
  pure (slot ∷ rest)

abbrev pub series_booking :
    RecurringBookingRequest → ℕ → Slot → ℕ → BookingQuoteResult → ℕ → ℕ → Booking
series_booking p user slot index quote created updated =
    draft_booking p.tenant_id p.provider_id p.resource_id user quote.final_amount_minor p.currency
      ("recurring:" +++ str user +++ ":" +++ str slot.id +++ ":" +++ str index)
      ("recurring interval days=" +++ str p.interval_days) created updated

unfoldable pub book_slot :
    {s : Services} → RecurringBookingRequest → ℕ → Slot → ℕ → Action (World s) Booking
book_slot p user slot index = do
  quote ← build_booking_quote p.tenant_id p.resource_id none 1
  created ← utcnow
  updated ← utcnow
  create_or_get_idempotent_booking (series_booking p user slot index quote created updated) slot 10

-- `for index, slot in enumerate(candidate_slots)`
unfoldable pub book_slots :
    {s : Services} → RecurringBookingRequest → ℕ → List Slot → ℕ → Action (World s) (List ℕ)
book_slots p user [] index = pure []
book_slots p user (slot ∷ slots) index = do
  booking ← book_slot p user slot index
  rest ← book_slots p user slots (suc index)
  pure (booking.id ∷ rest)

-- With the candidate slots known.
unfoldable pub commit_series :
    {s : Services} → RecurringBookingRequest → ℕ → List Slot → Action (World s) (List ℕ)
commit_series p user candidate_slots = do
  created_ids ← book_slots p user candidate_slots 0
  commit
  pure created_ids

-- With the first slot validated.
unfoldable pub series_from :
    {s : Services} → RecurringBookingRequest → ℕ → SlotBookingContext → Action (World s) (List ℕ)
series_from p user context = do
  slots ← next_slots p user context.slot (p.repeat_count - 1) 1
  commit_series p user (context.slot ∷ slots)

-- With `settings.FEATURE_BOOKING_RECURRING` as its first argument.
unfoldable pub create_recurring_bookings :
    {s : Services} → Bool → RecurringBookingRequest → ℕ → Action (World s) (List ℕ)
create_recurring_bookings enabled p user = do
  raise_if (not enabled) (http 404 recurring_disabled)
  context ← validate_slot_booking_request p.slot_id p.resource_id p.provider_id p.tenant_id user
  series_from p user context
