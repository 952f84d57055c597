-- ===== src/Tests/Demo.antt =====
-- A cache, a sequence and a clock by which the programs run, and a small database.
use slot_booking.Base.{
  ◌-◌, ℕ, suc, ◌+◌, ◌*◌, ◌/◌, String, Bool, true, false, List, [], ◌∷◌, Option, none, some, max,
  ltb, if◌then◌else◌, arith,
}
use text.Mathlib.TextEquality.{eq_iff}
use slot_booking.Base.Text.{str_eq, str_eq_refl, value}
use slot_booking.Models.{
  Database, Resource, Slot, SlotStatus, PromoCode, Booking, BookingStatus, PaymentStatus,
  RefundStatus, WaitlistEntry,
}
use slot_booking.Effects.{Services, CacheLaws, World, hours, days}

-- A key's value and the time until which it is kept.
abbrev Entries : Type 0
Entries = String → Option (String × ℕ)

abbrev live : Option (String × ℕ) → ℕ → Option String
live none now = none
live (some (v, until)) now = if ltb now until then some v else none

abbrev update : Entries → String → Option (String × ℕ) → Entries
update c k v j = if str_eq j k then v else c j

abbrev set_nx : Entries → ℕ → String → String → ℕ → Entries × Bool
set_nx c now k v ttl = elim (live (c k) now) [
  | none ↦ (update c k (some (v, now + ttl)), true)
  | some _ ↦ (c, false)
]

abbrev above : List ℕ → ℕ
above [] = 1
above (n ∷ ns) = max (suc n) (above ns)

abbrev pub services : Services
services = record {
  Cache = Entries;
  cache_get = λ c now k. live (c k) now;
  cache_set_nx = set_nx;
  cache_delete = λ c k. update c k none;
  percentage_of = λ amount percent. amount * percent / 100;
  new_id = above;
  parse_int = λ text. some (value text);
  to_local = λ zone t. t - hours 5;
  to_utc = λ zone t. t + hours 5;
}

pub cache_laws : CacheLaws services
cache_laws = record {
  set_nx_free = λ c now ttl k v free. ground arith;
  get-set_nx = λ c now ttl t k v free later running. ground (arith, str_eq_refl k);
  set_nx_taken = λ c now ttl k v u taken. ground arith;
  get-delete = λ c t k. ground (arith, str_eq_refl k);
  get-delete_other = λ c t k j ne. ground (arith, eq_iff j k);
}

-- Midnight of a Monday, and a clock that moves on by a second at each reading.
abbrev pub start : ℕ
start = days 730_000 + days 2

abbrev pub room : Resource
room = record {
  id = 7;
  provider_id = 3;
  tenant_id = 1;
  timezone = "UTC";
  base_price_minor = 2001;
  currency = "USD";
  is_active = true;
}

abbrev pub open_slot : Slot
open_slot = record {
  id = 5;
  resource_id = 7;
  tenant_id = 1;
  starts_at = start + hours 30;
  ends_at = start + hours 31;
  status = SlotStatus.open_;
  hold_expires_at = none;
}

abbrev pub promo : PromoCode
promo = record {
  tenant_id = 1;
  code = "SPRING";
  percentage_off = 10;
  fixed_off_minor = 50;
  max_redemptions = some 2;
  redeemed_count = 1;
  starts_at = none;
  ends_at = some (start + days 3);
  is_active = true;
}

abbrev pub paid_booking : Booking
paid_booking = record {
  id = 9;
  tenant_id = 1;
  provider_id = 3;
  resource_id = 7;
  user_id = 40;
  status = BookingStatus.confirmed;
  payment_status = PaymentStatus.completed;
  refund_status = RefundStatus.none_;
  amount_minor = 2001;
  currency = "USD";
  promo_code = none;
  promo_discount_minor = 0;
  idempotency_key = "key-of-40";
  external_payment_id = none;
  notes = "";
  created_at = start;
  updated_at = start;
  cancelled_at = none;
}

-- The paid booking has this slot.
abbrev pub booked_slot : Slot
booked_slot = record open_slot {
  id = 6;
  starts_at = start + hours 34;
  ends_at = start + hours 35;
  status = SlotStatus.booked;
}

abbrev pub entry : WaitlistEntry
entry = record {
  id = 2;
  tenant_id = 1;
  resource_id = 7;
  user_id = 41;
  desired_start_at = start + hours 33;
  desired_end_at = start + hours 36;
  is_active = true;
  created_at = start;
}

abbrev pub database : Database
database = record {
  resources = room ∷ [];
  rules = [];
  exceptions = [];
  slots = open_slot ∷ booked_slot ∷ [];
  promo_codes = promo ∷ [];
  bookings = paid_booking ∷ [];
  booking_slots = record { booking_id = 9; slot_id = 6 } ∷ [];
  waitlist = entry ∷ [];
  refunds = [];
  invoices = [];
  audit_events = [];
  notifications = [];
  preferences = [];
  devices = [];
  reviews = [];
  disputes = [];
  payouts = [];
  transactions = [];
  webhooks = [];
}

abbrev pub world_of : Database → World services
world_of db = record {
  db = db;
  saved = db;
  cache = some (λ k. none);
  clock = λ n. start + n * 1_000_000;
  reads = 0;
  outbox = [];
}

abbrev pub world : World services
world = world_of database
