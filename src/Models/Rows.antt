-- ===== src/Models/Rows.antt =====
-- The rows of backend/src/apps/booking/models/booking.py that the booking services read and write.
-- Left out are surrogate keys that no query names and creation times that no code reads.
use slot_booking.Base.{ℕ, String, Bool, Option}
use slot_booking.Models.Status.{
  SlotStatus, ReviewStatus, DisputeStatus, BookingStatus, RefundStatus, PaymentStatus,
  InvoiceStatus, NotificationType, PayoutStatus, PaymentProvider, TransactionStatus,
}

pub record Resource : Type 0 where
  pub id : ℕ
  pub provider_id : ℕ
  pub tenant_id : ℕ
  pub timezone : String
  pub base_price_minor : ℕ
  pub currency : String
  pub is_active : Bool

-- `day_of_week` is 0 on Monday.
pub record AvailabilityRule : Type 0 where
  pub id : ℕ
  pub resource_id : ℕ
  pub tenant_id : ℕ
  pub day_of_week : ℕ
  pub start_minute : ℕ
  pub end_minute : ℕ
  pub slot_duration_min : ℕ
  pub valid_from : Option ℕ
  pub valid_to : Option ℕ
  pub is_active : Bool

pub record AvailabilityException : Type 0 where
  pub id : ℕ
  pub resource_id : ℕ
  pub tenant_id : ℕ
  pub starts_at : ℕ
  pub ends_at : ℕ
  pub is_available : Bool
  pub reason : String

pub record Slot : Type 0 where
  pub id : ℕ
  pub resource_id : ℕ
  pub tenant_id : ℕ
  pub starts_at : ℕ
  pub ends_at : ℕ
  pub status : SlotStatus
  pub hold_expires_at : Option ℕ

-- `percentage_off` is the bit pattern of the float, which only a parameter of the model reads.
pub record PromoCode : Type 0 where
  pub tenant_id : ℕ
  pub code : String
  pub percentage_off : ℕ
  pub fixed_off_minor : ℕ
  pub max_redemptions : Option ℕ
  pub redeemed_count : ℕ
  pub starts_at : Option ℕ
  pub ends_at : Option ℕ
  pub is_active : Bool

pub record Booking : Type 0 where
  pub id : ℕ
  pub tenant_id : ℕ
  pub provider_id : ℕ
  pub resource_id : ℕ
  pub user_id : ℕ
  pub status : BookingStatus
  pub payment_status : PaymentStatus
  pub refund_status : RefundStatus
  pub amount_minor : ℕ
  pub currency : String
  pub promo_code : Option String
  pub promo_discount_minor : ℕ
  pub idempotency_key : String
  pub external_payment_id : Option String
  pub notes : String
  pub created_at : ℕ
  pub updated_at : ℕ
  pub cancelled_at : Option ℕ

pub record BookingSlot : Type 0 where
  pub booking_id : ℕ
  pub slot_id : ℕ

pub record WaitlistEntry : Type 0 where
  pub id : ℕ
  pub tenant_id : ℕ
  pub resource_id : ℕ
  pub user_id : ℕ
  pub desired_start_at : ℕ
  pub desired_end_at : ℕ
  pub is_active : Bool
  pub created_at : ℕ

pub record RefundRecord : Type 0 where
  pub tenant_id : ℕ
  pub booking_id : ℕ
  pub amount_minor : ℕ
  pub currency : String
  pub status : RefundStatus
  pub reason : String

pub record Invoice : Type 0 where
  pub tenant_id : ℕ
  pub booking_id : ℕ
  pub invoice_no : String
  pub status : InvoiceStatus
  pub subtotal_minor : ℕ
  pub discount_minor : ℕ
  pub tax_minor : ℕ
  pub total_minor : ℕ
  pub issued_at : Option ℕ

pub record BookingAuditEvent : Type 0 where
  pub tenant_id : ℕ
  pub booking_id : ℕ
  pub event_type : String
  pub actor_user_id : Option ℕ
  pub payload_json : String

pub record Review : Type 0 where
  pub id : ℕ
  pub tenant_id : ℕ
  pub booking_id : ℕ
  pub resource_id : ℕ
  pub user_id : ℕ
  pub rating : ℕ
  pub comment : String
  pub status : ReviewStatus

pub record Dispute : Type 0 where
  pub id : ℕ
  pub tenant_id : ℕ
  pub booking_id : ℕ
  pub opened_by_user_id : ℕ
  pub reason : String
  pub status : DisputeStatus
  pub resolution_note : String

pub record Payout : Type 0 where
  pub tenant_id : ℕ
  pub provider_id : ℕ
  pub booking_id : ℕ
  pub amount_minor : ℕ
  pub currency : String
  pub status : PayoutStatus

-- The columns of backend/src/apps/finance/models/payment.py that the verification reads or writes.
pub record PaymentTransaction : Type 0 where
  pub id : ℕ
  pub provider : PaymentProvider
  pub amount : ℕ
  pub status : TransactionStatus
  pub booking_id : Option ℕ
  pub provider_transaction_id : Option String

pub record PaymentWebhook : Type 0 where
  pub provider : PaymentProvider
  pub event_type : String
  pub transaction_id : Option ℕ
  pub raw_payload : String
  pub is_verified : Bool
  pub idempotency_key : Option String

-- backend/src/apps/notification/models/notification.py, with the parts of `extra_data` that the
-- booking code writes.
pub record Notification : Type 0 where
  pub id : ℕ
  pub user_id : ℕ
  pub title : String
  pub body : String
  pub type : NotificationType
  pub is_read : Bool
  pub booking_id : ℕ
  pub slot_id : Option ℕ
  pub event : String

-- backend/src/apps/notification/models/notification_preference.py
pub record NotificationPreference : Type 0 where
  pub user_id : ℕ
  pub websocket_enabled : Bool
  pub email_enabled : Bool
  pub push_enabled : Bool
  pub sms_enabled : Bool
  pub push_endpoint : Option String
  pub push_p256dh : Option String
  pub push_auth : Option String

-- backend/src/apps/notification/models/notification_device.py; the metadata as its JSON text.
pub data DeviceProvider : Type 0 where
  webpush fcm onesignal : DeviceProvider

pub data DevicePlatform : Type 0 where
  web android ios : DevicePlatform

pub record NotificationDevice : Type 0 where
  pub id : ℕ
  pub user_id : ℕ
  pub provider : DeviceProvider
  pub platform : DevicePlatform
  pub token : Option String
  pub endpoint : Option String
  pub p256dh : Option String
  pub auth : Option String
  pub subscription_id : Option String
  pub device_metadata : Option String
  pub is_active : Bool
  pub last_seen_at : ℕ
  pub created_at : ℕ
  pub updated_at : ℕ
