-- ===== src/Notifications/Listing.antt =====
-- `list_devices` of backend/src/apps/notification/services/notification.py.
use slot_booking.Base.{ℕ, Bool, ◌&&◌, List, [], ◌∷◌, select, ltb, ◌==◌, if◌then◌else◌}
use slot_booking.Models.{NotificationDevice}
use slot_booking.Effects.{Services, World, Action, query}

abbrev pub is_active_device : ℕ → NotificationDevice → Bool
is_active_device user d = d.user_id == user && d.is_active

-- `order_by(updated_at.desc())`
abbrev pub insert_latest : NotificationDevice → List NotificationDevice → List NotificationDevice
insert_latest d [] = d ∷ []
insert_latest d (x ∷ rows) =
    let rest = insert_latest d rows in
    if ltb d.updated_at x.updated_at then x ∷ rest else d ∷ x ∷ rows

abbrev pub latest_first : List NotificationDevice → List NotificationDevice
latest_first [] = []
latest_first (d ∷ rows) = insert_latest d (latest_first rows)

module _ {s : Services} where
  unfoldable pub list_devices : ℕ → Action (World s) (List NotificationDevice)
  list_devices user = query (λ db. latest_first (select (is_active_device user) db.devices))
