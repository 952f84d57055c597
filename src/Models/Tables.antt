-- ===== src/Models/Tables.antt =====
-- The database as a session sees it: the rows of each table, in the order of insertion. `db.add` of
-- a new row appends it, and a change to a row that is in the session replaces the row of its key.
use slot_booking.Base.{ℕ, List, [], ◌∷◌, ◌++◌, Option, find_by, ◌==◌, if◌then◌else◌, leb}
use slot_booking.Models.Rows.{
  Resource, AvailabilityRule, AvailabilityException, Slot, PromoCode, Booking, BookingSlot,
  WaitlistEntry, RefundRecord, Invoice, BookingAuditEvent, Notification, NotificationPreference,
  NotificationDevice, Review, Dispute, Payout, PaymentTransaction, PaymentWebhook,
}

pub record Database : Type 0 where
  pub resources : List Resource
  pub rules : List AvailabilityRule
  pub exceptions : List AvailabilityException
  pub slots : List Slot
  pub promo_codes : List PromoCode
  pub bookings : List Booking
  pub booking_slots : List BookingSlot
  pub waitlist : List WaitlistEntry
  pub refunds : List RefundRecord
  pub invoices : List Invoice
  pub audit_events : List BookingAuditEvent
  pub notifications : List Notification
  pub preferences : List NotificationPreference
  pub devices : List NotificationDevice
  pub reviews : List Review
  pub disputes : List Dispute
  pub payouts : List Payout
  pub transactions : List PaymentTransaction
  pub webhooks : List PaymentWebhook

-- A change of the row `r`, found by its key, among the rows of its table.
module _ {ℓ} {A : Type ℓ} (key : A → ℕ) where
  abbrev pub get_row : ℕ → List A → Option A
  get_row k rows = find_by (λ r. key r == k) rows

  abbrev pub put_row : A → List A → List A
  put_row r [] = []
  put_row r (x ∷ rows) = (if key x == key r then r else x) ∷ put_row r rows

  -- `await db.delete(row)`
  abbrev pub remove_row : ℕ → List A → List A
  remove_row k [] = []
  remove_row k (x ∷ rows) = if key x == k then remove_row k rows else x ∷ remove_row k rows

  -- `ORDER BY order(row) ASC`, with the order of insertion among equals.
  abbrev pub insert_sorted : A → List A → List A
  insert_sorted r [] = r ∷ []
  insert_sorted r (x ∷ rows) =
      if leb (key r) (key x) then r ∷ x ∷ rows else x ∷ insert_sorted r rows

  abbrev pub order_by : List A → List A
  order_by [] = []
  order_by (x ∷ rows) = insert_sorted x (order_by rows)

abbrev pub get_slot : ℕ → Database → Option Slot
get_slot k db = get_row (λ (s : Slot). s.id) k db.slots

abbrev pub get_resource : ℕ → Database → Option Resource
get_resource k db = get_row (λ (r : Resource). r.id) k db.resources

abbrev pub get_booking : ℕ → Database → Option Booking
get_booking k db = get_row (λ (b : Booking). b.id) k db.bookings

abbrev pub get_entry : ℕ → Database → Option WaitlistEntry
get_entry k db = get_row (λ (e : WaitlistEntry). e.id) k db.waitlist

abbrev pub get_review : ℕ → Database → Option Review
get_review k db = get_row (λ (r : Review). r.id) k db.reviews

abbrev pub get_dispute : ℕ → Database → Option Dispute
get_dispute k db = get_row (λ (d : Dispute). d.id) k db.disputes

abbrev pub get_transaction : ℕ → Database → Option PaymentTransaction
get_transaction k db = get_row (λ (t : PaymentTransaction). t.id) k db.transactions

abbrev pub put_slot : Slot → Database → Database
put_slot s db = record db { slots = put_row (λ (r : Slot). r.id) s db.slots }

abbrev pub put_booking : Booking → Database → Database
put_booking b db = record db { bookings = put_row (λ (r : Booking). r.id) b db.bookings }

abbrev pub put_entry : WaitlistEntry → Database → Database
put_entry e db = record db { waitlist = put_row (λ (r : WaitlistEntry). r.id) e db.waitlist }

abbrev pub add_audit : BookingAuditEvent → Database → Database
add_audit e db = record db { audit_events = db.audit_events ++ e ∷ [] }
