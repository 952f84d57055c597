-- ===== src/Notifications/Devices.antt =====
-- backend/src/apps/notification/services/notification.py: the devices that take a user's push
-- notifications.
pub mod Push
use slot_booking.Base.{
  ℕ, String, Bool, true, false, not, ◌&&◌, List, [], ◌∷◌, ◌++◌, Option, none, some, map, select,
  find_by, ltb, ◌==◌, if◌then◌else◌,
}
use slot_booking.Base.Text.{str_eq}
use slot_booking.Models.{
  Database, NotificationPreference, NotificationDevice, DeviceProvider, DevicePlatform, get_row,
  put_row,
}
use slot_booking.Effects.{Services, World, Action, ◌>>=◌, ◌>>◌, pure, query, write, commit, utcnow}
use slot_booking.Notifications.{
  is_active_device, insert_latest, latest_first, list_devices, get_or_create_preference,
}

-- backend/src/apps/notification/schemas/notification_device.py
pub record NotificationDeviceCreate : Type 0 where
  pub provider : DeviceProvider
  pub platform : DevicePlatform
  pub token : Option String
  pub endpoint : Option String
  pub p256dh : Option String
  pub auth : Option String
  pub subscription_id : Option String
  pub device_metadata : Option String

abbrev pub device_key : NotificationDevice → ℕ
device_key d = d.id

abbrev pub set_device : NotificationDevice → Database → Database
set_device d db = record db { devices = put_row device_key d db.devices }

abbrev pub set_preference : NotificationPreference → Database → Database
set_preference pref db = record db {
  preferences = put_row (λ (p : NotificationPreference). p.user_id) pref db.preferences;
}

abbrev pub same_provider : DeviceProvider → DeviceProvider → Bool
same_provider DeviceProvider.webpush DeviceProvider.webpush = true
same_provider DeviceProvider.fcm DeviceProvider.fcm = true
same_provider DeviceProvider.onesignal DeviceProvider.onesignal = true
same_provider _ _ = false

-- `column == value` in SQL, where `NULL` is asked for as `IS NULL`.
abbrev pub same_text : Option String → Option String → Bool
same_text none none = true
same_text (some a) (some b) = str_eq a b
same_text _ _ = false

abbrev pub same_address : NotificationDeviceCreate → NotificationDevice → Bool
same_address payload d = elim payload.provider [
  | DeviceProvider.webpush ↦ same_text d.endpoint payload.endpoint
  | DeviceProvider.fcm ↦ same_text d.token payload.token
  | DeviceProvider.onesignal ↦ same_text d.subscription_id payload.subscription_id
]

abbrev pub is_device_for : ℕ → NotificationDeviceCreate → NotificationDevice → Bool
is_device_for user payload d =
    d.user_id == user && (same_provider d.provider payload.provider && same_address payload d)

abbrev pub is_webpush : NotificationDevice → Bool
is_webpush d = same_provider d.provider DeviceProvider.webpush

abbrev pub field_of :
    (NotificationDevice → Option String) → Option NotificationDevice → Option String
field_of f none = none
field_of f (some d) = f d

abbrev pub synced : List NotificationDevice → NotificationPreference → NotificationPreference
synced devices pref =
    let device = find_by is_webpush devices in
    record pref {
      push_endpoint = field_of (λ d. d.endpoint) device;
      push_p256dh = field_of (λ d. d.p256dh) device;
      push_auth = field_of (λ d. d.auth) device;
      push_enabled = elim devices [ [] ↦ false | d ∷ rest ↦ pref.push_enabled ];
    }

abbrev pub retired : ℕ → NotificationDevice → NotificationDevice
retired now d = record d { is_active = false; updated_at = now }

-- `NotificationDevice(user_id=…, provider=…, platform=…)`
abbrev pub new_device :
    ℕ → ℕ → NotificationDeviceCreate → (seen created updated : ℕ) → NotificationDevice
new_device id user payload seen created updated = record {
  id = id;
  user_id = user;
  provider = payload.provider;
  platform = payload.platform;
  token = none;
  endpoint = none;
  p256dh = none;
  auth = none;
  subscription_id = none;
  device_metadata = none;
  is_active = true;
  last_seen_at = seen;
  created_at = created;
  updated_at = updated;
}

abbrev pub filled :
    NotificationDeviceCreate → (seen updated : ℕ) → NotificationDevice → NotificationDevice
filled payload seen updated d = record d {
  token = payload.token;
  endpoint = payload.endpoint;
  p256dh = payload.p256dh;
  auth = payload.auth;
  subscription_id = payload.subscription_id;
  device_metadata = payload.device_metadata;
  is_active = true;
  last_seen_at = seen;
  updated_at = updated;
}

module _ {s : Services} where
  -- `_sync_preference_push_fields`
  unfoldable pub sync_preference : ℕ → Action (World s) NotificationPreference
  sync_preference user = do
    pref ← get_or_create_preference user
    devices ← list_devices user
    write (set_preference (synced devices pref))
    commit
    pure (synced devices pref)

  -- `if not device or device.user_id != user_id: return False`
  unfoldable pub remove_found : ℕ → Option NotificationDevice → Action (World s) Bool
  remove_found user none w = pure false w
  remove_found user (some d) w = elim (d.user_id == user) [
    | false ↦ pure false w
    | true ↦
        (utcnow >>= λ now.
        write (set_device (retired now d)) >> commit >> sync_preference user >> pure true)
          w
  ]

  unfoldable pub remove_device : ℕ → ℕ → Action (World s) Bool
  remove_device user device_id = do
    remove_found user (← query (λ db. get_row device_key device_id db.devices))

  unfoldable pub retire_each : List NotificationDevice → Action (World s) (Unit {0})
  retire_each [] = pure tt
  retire_each (d ∷ devices) = do
    now ← utcnow
    write (set_device (retired now d))
    retire_each devices

  unfoldable pub remove_webpush_subscription : ℕ → Action (World s) (Unit {0})
  remove_webpush_subscription user = do
    devices ←
        query (λ db. select (λ d. d.user_id == user && (is_webpush d && d.is_active)) db.devices)
    retire_each devices
    commit
    sync_preference user
    pure tt

  -- `if device is None:` a new row is added with its values.
  unfoldable pub fill_device :
      ℕ → NotificationDeviceCreate → Option NotificationDevice → Action (World s) NotificationDevice
  fill_device user payload none = do
    first_seen ← utcnow
    created ← utcnow
    first_updated ← utcnow
    seen ← utcnow
    updated ← utcnow
    rows ← query (λ db. db.devices)
    let id = s.new_id (map device_key rows)
    let d =
        filled payload seen updated (new_device id user payload first_seen created first_updated)
    write (λ db. record db { devices = db.devices ++ d ∷ [] })
    pure d
  fill_device user payload (some d) = do
    seen ← utcnow
    updated ← utcnow
    write (set_device (filled payload seen updated d))
    pure (filled payload seen updated d)

  unfoldable pub register_device :
      ℕ → NotificationDeviceCreate → Action (World s) NotificationDevice
  register_device user payload = do
    existing ← query (λ db. find_by (is_device_for user payload) db.devices)
    device ← fill_device user payload existing
    commit
    sync_preference user
    pure device
