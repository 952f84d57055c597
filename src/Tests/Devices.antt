-- ===== src/Tests/Devices.antt =====
-- A device's removal at a concrete input: the only device of user 40.
use slot_booking.Base.{not, ◌&&◌, ◌==◌, ◌≡◌, ◌⊎◌, refl, true, false, none, some, any, [], ◌∷◌}
use slot_booking.Models.{
  NotificationDevice, NotificationPreference, DeviceProvider, DevicePlatform, get_row,
}
use slot_booking.Effects.{World, ok}
use slot_booking.Notifications.{preference_of}
use slot_booking.Notifications.Devices.{device_key, remove_device}
use slot_booking.Notifications.Devices.Push.{remove_device_retires}
use slot_booking.Tests.Demo.{services, world_of, database, start}

abbrev phone : NotificationDevice
phone = record {
  id = 3;
  user_id = 40;
  provider = DeviceProvider.fcm;
  platform = DevicePlatform.android;
  token = some "t";
  endpoint = none;
  p256dh = none;
  auth = none;
  subscription_id = none;
  device_metadata = none;
  is_active = true;
  last_seen_at = 0;
  created_at = 0;
  updated_at = 0;
}

abbrev with_phone : World services
with_phone = world_of (record database { devices = phone ∷ [] })

remove_device_example :
    let (r, w') = remove_device 40 3 with_phone in
    (r ≡ ok true)
    × ((x : NotificationDevice) × (get_row device_key 3 w'.db.devices ≡ some x)
        × (x.is_active ≡ false)
        × (x.updated_at ≡ start)
        × (record x { is_active = true; updated_at = 0 } ≡ phone))
    × (w'.saved ≡ w'.db)
    × (pref : NotificationPreference) × (preference_of 40 w'.db ≡ some pref)
    × ((pref.push_enabled ≡ false)
        ⊎ (any (λ x. not (x.id == 3) && (x.user_id == 40 && x.is_active)) w'.db.devices ≡ true))
remove_device_example = remove_device_retires 3 phone with_phone refl
