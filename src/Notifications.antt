-- ===== src/Notifications.antt =====
-- backend/src/apps/notification/services/notification.py: notifications and the channels by which
-- they go out.
mod Listing
pub mod Inbox
pub mod Devices
use slot_booking.Base.{
  ℕ, String, Bool, true, false, not, ◌&&◌, List, [], ◌∷◌, ◌++◌, Option, none, some, map, select,
  find_by, length, ◌==◌, if◌then◌else◌,
}
use slot_booking.Models.{
  Database, Notification, NotificationPreference, NotificationDevice, NotificationType, put_row,
  remove_row,
}
use slot_booking.Effects.{
  Services, World, Action, Channel, ◌>>=◌, ◌>>◌, pure, query, write, commit, send,
}
unfoldable pub use Listing.*

-- backend/src/apps/notification/schemas/notification.py: what a notification is made from.
pub record NotificationCreate : Type 0 where
  pub user_id : ℕ
  pub title : String
  pub body : String
  pub type : NotificationType
  pub booking_id : ℕ
  pub event : String

-- `NotificationPreference(user_id=user_id)`: only the websocket is on.
abbrev pub default_preference : ℕ → NotificationPreference
default_preference user_id = record {
  user_id = user_id;
  websocket_enabled = true;
  email_enabled = false;
  push_enabled = false;
  sms_enabled = false;
  push_endpoint = none;
  push_p256dh = none;
  push_auth = none;
}

-- The user's preference, or `None`.
abbrev pub preference_of : ℕ → Database → Option NotificationPreference
preference_of user_id db =
    find_by (λ (p : NotificationPreference). p.user_id == user_id) db.preferences

-- `if pref is None:`
abbrev pub or_create :
    {s : Services} → ℕ → Option NotificationPreference → Action (World s) NotificationPreference
or_create user_id none = do
  write (λ db. record db { preferences = db.preferences ++ default_preference user_id ∷ [] })
  commit
  pure (default_preference user_id)
or_create user_id (some pref) = pure pref

unfoldable pub get_or_create_preference :
    {s : Services} → ℕ → Action (World s) NotificationPreference
get_or_create_preference user_id = do or_create user_id (← query (preference_of user_id))

abbrev pub new_notification : NotificationCreate → ℕ → Notification
new_notification c id = record {
  id = id;
  user_id = c.user_id;
  title = c.title;
  body = c.body;
  type = c.type;
  is_read = false;
  booking_id = c.booking_id;
  slot_id = none;
  event = c.event;
}

-- `if pref.…_enabled: await _push_to_…(…)`
abbrev pub send_if : {s : Services} → Bool → Channel → ℕ → Action (World s) (Unit {0})
send_if enabled channel id = if enabled then send channel id else pure tt

-- `_push_to_devices`: a task for each device.
unfoldable pub send_to_devices :
    {s : Services} → List NotificationDevice → ℕ → Action (World s) (Unit {0})
send_to_devices [] id = pure tt
send_to_devices (d ∷ devices) id = do send Channel.push id; send_to_devices devices id

unfoldable pub push_to_devices : {s : Services} → ℕ → ℕ → Action (World s) (Unit {0})
push_to_devices user id = do devices ← list_devices user; send_to_devices devices id

-- The channels of the user, one after the other.
unfoldable pub dispatch :
    {s : Services} → NotificationPreference → Bool → ℕ → ℕ → Action (World s) (Unit {0})
dispatch pref push_ws user id = do
  send_if (push_ws && pref.websocket_enabled) Channel.websocket id
  send_if pref.email_enabled Channel.email id
  if pref.push_enabled then push_to_devices user id else pure tt
  send_if pref.sms_enabled Channel.sms id

unfoldable pub create_notification :
    {s : Services} → NotificationCreate → Bool → Action (World s) Notification
unfolding get_or_create_preference
create_notification {s} c push_ws = do
  rows ← query (λ db. db.notifications)
  let notification = new_notification c (s.new_id (map (λ (n : Notification). n.id) rows))
  write (λ db. record db { notifications = db.notifications ++ notification ∷ [] })
  commit
  pref ← get_or_create_preference c.user_id
  dispatch pref push_ws c.user_id notification.id
  pure notification

abbrev pub is_of : ℕ → Notification → Bool
is_of user_id n = n.user_id == user_id

abbrev pub is_unread_of : ℕ → Notification → Bool
is_unread_of user_id n = n.user_id == user_id && not n.is_read

abbrev pub as_read : Notification → Notification
as_read n = record n { is_read = true }

abbrev pub set_notification : Notification → Database → Database
set_notification n db = record db {
  notifications = put_row (λ (r : Notification). r.id) n db.notifications;
}

-- `Notification.id == notification_id, Notification.user_id == user_id`, the first.
abbrev pub own_notification : ℕ → ℕ → Database → Option Notification
own_notification id user_id db =
    find_by (λ (n : Notification). n.id == id && n.user_id == user_id) db.notifications

-- `if not notification: return None`
abbrev pub read_found :
    {s : Services} → Option Notification → Action (World s) (Option Notification)
read_found none = pure none
read_found (some n) = do write (set_notification (as_read n)); commit; pure (some (as_read n))

unfoldable pub mark_as_read : {s : Services} → ℕ → ℕ → Action (World s) (Option Notification)
mark_as_read id user_id = do read_found (← query (own_notification id user_id))

abbrev pub read_all : List Notification → Database → Database
read_all [] db = db
read_all (n ∷ notifications) db = read_all notifications (set_notification (as_read n) db)

unfoldable pub mark_all_read : {s : Services} → ℕ → Action (World s) ℕ
mark_all_read user_id = do
  notifications ← query (λ db. select (is_unread_of user_id) db.notifications)
  write (read_all notifications)
  commit
  pure (length notifications)

-- `if not notification: return False`
abbrev pub delete_found : {s : Services} → Option Notification → Action (World s) Bool
delete_found none = pure false
delete_found (some n) = do
  write (λ db. record db {
    notifications = remove_row (λ (r : Notification). r.id) n.id db.notifications;
  })
  commit
  pure true

unfoldable pub delete_notification : {s : Services} → ℕ → ℕ → Action (World s) Bool
delete_notification id user_id = do delete_found (← query (own_notification id user_id))
