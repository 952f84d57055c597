-- ===== src/Models/Status.antt =====
-- The enumerations of backend/src/apps/booking/models/booking.py, with the tests `==` and `in`
-- that the source makes of them.
use slot_booking.Base.{Bool, true, false}

pub data ProviderStatus : Type 0 where
  pending approved suspended : ProviderStatus

pub data SlotStatus : Type 0 where
  open_ held booked blocked : SlotStatus

pub data BookingStatus : Type 0 where
  pending confirmed cancelled completed no_show : BookingStatus

pub data ReviewStatus : Type 0 where
  published hidden : ReviewStatus

pub data DisputeStatus : Type 0 where
  open_ investigating resolved rejected : DisputeStatus

pub data RefundStatus : Type 0 where
  none_ pending refunded partial failed : RefundStatus

pub data PayoutStatus : Type 0 where
  pending processing paid failed : PayoutStatus

pub data PaymentStatus : Type 0 where
  pending completed failed refunded : PaymentStatus

pub data InvoiceStatus : Type 0 where
  draft issued paid void : InvoiceStatus

-- backend/src/apps/finance/models/payment.py: `PaymentProvider`, and the `PaymentStatus` of a
-- transaction, named apart from that of a booking.
pub data PaymentProvider : Type 0 where
  khalti esewa stripe paypal : PaymentProvider

pub data TransactionStatus : Type 0 where
  pending initiated completed failed refunded cancelled : TransactionStatus

-- backend/src/apps/notification/models/notification.py
pub data NotificationType : Type 0 where
  info success warning error payment auth system : NotificationType

-- `slot.status == SlotStatus.X`
abbrev pub is_open : SlotStatus → Bool
is_open SlotStatus.open_ = true
is_open _ = false

abbrev pub is_held : SlotStatus → Bool
is_held SlotStatus.held = true
is_held _ = false

abbrev pub is_booked : SlotStatus → Bool
is_booked SlotStatus.booked = true
is_booked _ = false

abbrev pub is_blocked : SlotStatus → Bool
is_blocked SlotStatus.blocked = true
is_blocked _ = false

-- `status in {SlotStatus.BOOKED, SlotStatus.BLOCKED}`
abbrev pub is_unavailable : SlotStatus → Bool
is_unavailable SlotStatus.booked = true
is_unavailable SlotStatus.blocked = true
is_unavailable _ = false

-- `booking.status in {BookingStatus.PENDING, BookingStatus.CONFIRMED}`
abbrev pub is_cancellable : BookingStatus → Bool
is_cancellable BookingStatus.pending = true
is_cancellable BookingStatus.confirmed = true
is_cancellable _ = false

abbrev pub is_pending : BookingStatus → Bool
is_pending BookingStatus.pending = true
is_pending _ = false

abbrev pub is_confirmed : BookingStatus → Bool
is_confirmed BookingStatus.confirmed = true
is_confirmed _ = false

abbrev pub is_cancelled : BookingStatus → Bool
is_cancelled BookingStatus.cancelled = true
is_cancelled _ = false

-- `booking.payment_status == PaymentStatus.COMPLETED`
abbrev pub is_paid : PaymentStatus → Bool
is_paid PaymentStatus.completed = true
is_paid _ = false
