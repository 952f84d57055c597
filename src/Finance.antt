-- ===== src/Finance.antt =====
-- `verify_payment` of backend/src/apps/finance/api/v1/payment.py. A provider's own verification,
-- which asks the provider and updates the transaction, is an argument.
pub mod Verified
use slot_booking.Base.{
  ℕ, String, Bool, true, false, not, ◌&&◌, List, [], ◌∷◌, ◌++◌, Option, none, some, select, find_by,
  ◌==◌,
}
use slot_booking.Base.Text.{str_eq}
use slot_booking.Models.{
  Database, Booking, BookingStatus, BookingSlot, PaymentStatus, PaymentProvider, TransactionStatus,
  PaymentTransaction, PaymentWebhook, Payout, PayoutStatus, Slot, SlotStatus, get_booking, get_slot,
  get_transaction, put_booking, put_slot,
}
use slot_booking.Effects.{
  Services, World, Action, Error, http, value_error, provider_disabled, payment_rejected,
  payment_provider_error, ◌>>=◌, ◌>>◌, pure, or_raise, attempt, query, write, commit,
}

-- backend/src/apps/finance/schemas/payment.py; `raw` is the request's `model_dump_json()`.
pub record VerifyPaymentRequest : Type 0 where
  pub provider : PaymentProvider
  pub raw : String

pub record VerifyPaymentResponse : Type 0 where
  pub transaction_id : ℕ
  pub provider : PaymentProvider
  pub status : TransactionStatus
  pub amount : Option ℕ
  pub provider_transaction_id : Option String

abbrev pub has_webhook_key : String → PaymentWebhook → Bool
has_webhook_key key h = elim h.idempotency_key [ none ↦ false | some k ↦ str_eq k key ]

-- `existing_webhook.transaction_id`, then `db.get(PaymentTransaction, …)`
abbrev pub transaction_of : Option PaymentWebhook → Database → Option PaymentTransaction
transaction_of none db = none
transaction_of (some h) db = elim h.transaction_id [ none ↦ none | some t ↦ get_transaction t db ]

-- The transaction of an earlier call under the key; `if webhook_idempotency_key:` takes neither
-- `None` nor the empty text.
abbrev pub seen_transaction : Option String → Database → Option PaymentTransaction
seen_transaction none db = none
seen_transaction (some key) db = elim (str_eq key "") [
  | true ↦ none
  | false ↦ transaction_of (find_by (has_webhook_key key) db.webhooks) db
]

abbrev pub stored_response : PaymentTransaction → VerifyPaymentResponse
stored_response t = record {
  transaction_id = t.id;
  provider = t.provider;
  status = t.status;
  amount = some t.amount;
  provider_transaction_id = t.provider_transaction_id;
}

abbrev pub paid_row : Booking → Booking
paid_row b = record b { payment_status = PaymentStatus.completed; status = BookingStatus.confirmed }

abbrev pub failed_row : Booking → Booking
failed_row b = record b { payment_status = PaymentStatus.failed }

abbrev pub booked_row : Slot → Slot
booked_row slot = record slot { status = SlotStatus.booked; hold_expires_at = none }

abbrev pub links_of : ℕ → Database → List BookingSlot
links_of booking_id db = select (λ (l : BookingSlot). l.booking_id == booking_id) db.booking_slots

-- `if slot is not None:`
abbrev pub book_found : Option Slot → Database → Database
book_found none db = db
book_found (some slot) db = put_slot (booked_row slot) db

-- The loop over the booking's slots.
unfoldable pub book_links : List BookingSlot → Database → Database
book_links [] db = db
book_links (l ∷ links) db = book_links links (book_found (get_slot l.slot_id db) db)

abbrev pub pending_payout : Booking → Payout
pending_payout b = record {
  tenant_id = b.tenant_id;
  provider_id = b.provider_id;
  booking_id = b.id;
  amount_minor = b.amount_minor;
  currency = b.currency;
  status = PayoutStatus.pending;
}

abbrev pub confirm : Booking → Database → Database
confirm b db =
    let paid = book_links (links_of b.id db) (put_booking (paid_row b) db) in
    record paid { payouts = paid.payouts ++ pending_payout b ∷ [] }

-- What the transaction's outcome does to its booking.
abbrev pub settle_booking : TransactionStatus → Option Booking → Database → Database
settle_booking status none db = db
settle_booking TransactionStatus.completed (some b) db = confirm b db
settle_booking TransactionStatus.failed (some b) db = put_booking (failed_row b) db
settle_booking TransactionStatus.pending (some b) db = db
settle_booking TransactionStatus.initiated (some b) db = db
settle_booking TransactionStatus.refunded (some b) db = db
settle_booking TransactionStatus.cancelled (some b) db = db

-- `booking_transaction and booking_transaction.booking_id`, then `db.get(Booking, …)`
abbrev pub booking_of : ℕ → Database → Option Booking
booking_of transaction_id db = elim (get_transaction transaction_id db) [
  | none ↦ none
  | some t ↦ elim t.booking_id [ none ↦ none | some b ↦ get_booking b db ]
]

abbrev pub event_of : TransactionStatus → String
event_of TransactionStatus.completed = "payment_completed"
event_of _ = "payment_failed"

abbrev pub webhook_of :
    VerifyPaymentRequest → Option String → VerifyPaymentResponse → PaymentWebhook
webhook_of p key r = record {
  provider = p.provider;
  event_type = event_of r.status;
  transaction_id = some r.transaction_id;
  raw_payload = p.raw;
  is_verified = true;
  idempotency_key = key;
}

-- The body of the `try`.
unfoldable pub settle :
    {s : Services}
    → VerifyPaymentRequest
    → Option String
    → Action (World s) VerifyPaymentResponse
    → Action (World s) VerifyPaymentResponse
settle p key verify = do
  result ← verify
  write (λ db. settle_booking result.status (booking_of result.transaction_id db) db)
  write (λ db. record db { webhooks = db.webhooks ++ webhook_of p key result ∷ [] })
  commit
  pure result

-- `except ValueError` and `except Exception`
abbrev pub caught : Error → Error
caught value_error = http 400 payment_rejected
caught _ = http 502 payment_provider_error

-- With the provider of the registry, which is missing where it is disabled.
unfoldable pub verify_payment :
    {s : Services}
    → Option (Action (World s) VerifyPaymentResponse)
    → VerifyPaymentRequest
    → Option String
    → Action (World s) VerifyPaymentResponse
verify_payment provider p key = do
  seen ← query (seen_transaction key)
  elim seen [
    | some t ↦ pure (stored_response t)
    | none ↦ do
      verify ← or_raise provider (http 503 provider_disabled)
      attempt caught (settle p key verify)
  ]
