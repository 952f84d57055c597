-- ===== src/Notifications/Inbox.antt =====
-- What the notification service does to a user's inbox.
use slot_booking.Base.{
  ℕ, ◌≡◌, ap, if◌then◌else◌, refl, ◌∙◌, Bool, true, false, ◌&&◌, List, [], ◌∷◌, ◌++◌, Option, none,
  some, select, length, map, arith, inl, inr, Option-cases,
}
use mathlib.Core.List.{append-nil, append_assoc, map-append}
use slot_booking.Models.{Database, Notification, NotificationPreference, NotificationDevice}
use slot_booking.Models.Sweep.{sweep, select-sweep}
use slot_booking.Effects.{Services, World, Channel, ok, pure}
use slot_booking.Notifications.{
  NotificationCreate, default_preference, preference_of, create_notification, new_notification,
  is_unread_of, as_read, set_notification, read_all, send_if, send_to_devices, push_to_devices,
  is_active_device, insert_latest, latest_first, list_devices, dispatch, mark_all_read,
}

-- A flag of a user's preference, or what it is for a user without one.
abbrev pub flag : (NotificationPreference → Bool) → Bool → Option NotificationPreference → Bool
flag f default none = default
flag f default (some pref) = f pref

abbrev pub when : Bool → List Channel → List Channel
when true sent = sent
when false sent = []

abbrev pub to_each : List NotificationDevice → List Channel
to_each devices = map (λ d. Channel.push) devices

-- What goes out for a notification: by the websocket and by mail, to each device, and by SMS. Of a
-- user without a preference only the websocket is on.
abbrev pub deliveries :
    Bool → Option NotificationPreference → List NotificationDevice → List Channel
deliveries push_ws pref devices =
    when (push_ws && flag (λ p. p.websocket_enabled) true pref) (Channel.websocket ∷ [])
    ++ (when (flag (λ p. p.email_enabled) false pref) (Channel.email ∷ [])
        ++ (when (flag (λ p. p.push_enabled) false pref) (to_each devices)
            ++ when (flag (λ p. p.sms_enabled) false pref) (Channel.sms ∷ [])))

to_each-insert_latest :
    (d : NotificationDevice) (rows : List NotificationDevice)
    → to_each (insert_latest d rows) ≡ Channel.push ∷ to_each rows
to_each-insert_latest d [] = refl
to_each-insert_latest d (x ∷ rows) = ground (arith, to_each-insert_latest d rows)

to_each-latest_first : (rows : List NotificationDevice) → to_each (latest_first rows) ≡ to_each rows
to_each-latest_first [] = refl
to_each-latest_first (d ∷ rows) =
    to_each-insert_latest d (latest_first rows)
    ∙ ap (λ sent. Channel.push ∷ sent) (to_each-latest_first rows)

module _ {s : Services} where
  -- The world after some sendings.
  abbrev after_sending : List Channel → ℕ → World s → World s
  after_sending sent id w = record w { outbox = w.outbox ++ map (λ c. (c, id)) sent }

  send_if-when :
      (enabled : Bool) (channel : Channel) (id : ℕ) (w : World s)
      → send_if enabled channel id w ≡ (ok tt, after_sending (when enabled (channel ∷ [])) id w)
  send_if-when true channel id w = refl
  send_if-when false channel id w = simp append-nil

  send_to_devices_lem :
      (devices : List NotificationDevice) (id : ℕ) (w : World s)
      → send_to_devices devices id w ≡ (ok tt, after_sending (to_each devices) id w)
  unfolding send_to_devices
  send_to_devices_lem [] id w = simp append-nil
  send_to_devices_lem (d ∷ devices) id w =
      send_to_devices_lem devices id (after_sending (Channel.push ∷ []) id w) ∙ simp append_assoc

  push_if-when :
      (enabled : Bool) (user id : ℕ) (w : World s)
      → (if enabled then push_to_devices user id else pure tt) w ≡ (
        ok tt,
        after_sending (when enabled (to_each (select (is_active_device user) w.db.devices))) id w,
      )
  unfolding push_to_devices list_devices
  push_if-when true user id w =
      send_to_devices_lem (latest_first (select (is_active_device user) w.db.devices)) id w
      ∙ ap (λ sent. (ok tt, after_sending sent id w))
          (to_each-latest_first (select (is_active_device user) w.db.devices))
  push_if-when false user id w = simp append-nil

  dispatch_lem :
      (pref : NotificationPreference) (push_ws : Bool) (user id : ℕ) (w : World s)
      → dispatch pref push_ws user id w ≡ (
        ok tt,
        after_sending
            (deliveries push_ws (some pref) (select (is_active_device user) w.db.devices))
            id
            w,
      )
  unfolding dispatch
  dispatch_lem pref push_ws user id w = simp (send_if-when, push_if-when, append_assoc, map-append)

read_all-sweep :
    (user_id : ℕ) (found : List Notification) (db : Database)
    → select (is_unread_of user_id) (read_all found db).notifications
      ≡ select
          (is_unread_of user_id)
          (sweep (λ (n : Notification). n.id) (is_unread_of user_id) as_read found db.notifications)
read_all-sweep user_id [] db = refl
read_all-sweep user_id (n ∷ found) db =
    read_all-sweep user_id found (set_notification (as_read n) db)

-- Marking all as read counts the user's unread notifications, leaves none, and commits; marking again
-- counts none.
pub mark_all_read_lem :
    {s : Services} (user_id : ℕ) (w : World s)
    → let (r, w') = mark_all_read user_id w in
      (r ≡ ok (length (select (is_unread_of user_id) w.db.notifications)))
      × (select (is_unread_of user_id) w'.db.notifications ≡ [])
      × ((mark_all_read user_id w').0 ≡ ok 0)
      × (w'.saved ≡ w'.db)
unfolding mark_all_read
mark_all_read_lem user_id w =
    let none_left =
      read_all-sweep user_id (select (is_unread_of user_id) w.db.notifications) w.db
      ∙ select-sweep (λ (n : Notification). n.id) (is_unread_of user_id) as_read (λ x. refl)
          (λ x. ground arith) w.db.notifications in
    (refl, none_left, ground (arith, none_left), refl)

-- Creating a notification ends well, with the bookings committed as they were and one
-- notification more.
pub create_notification_commits :
    {s : Services} (c : NotificationCreate) (push_ws : Bool) (w : World s)
    → (n : Notification) × ((create_notification c push_ws w).0 ≡ ok n)
      × ((create_notification c push_ws w).1.saved.bookings ≡ w.db.bookings)
      × ((create_notification c push_ws w).1.db.notifications ≡ w.db.notifications ++ n ∷ [])
unfolding create_notification
create_notification_commits {s} c push_ws w =
    let n = new_notification c (s.new_id (map (λ (x : Notification). x.id) w.db.notifications)) in
    let rows = w.db.notifications ++ n ∷ [] in
    let defaults = w.db.preferences ++ default_preference c.user_id ∷ [] in
    elim (Option-cases (preference_of c.user_id w.db)) [
      | inl e ↦
          let sent = dispatch_lem (default_preference c.user_id) push_ws c.user_id n.id (record w {
            db = record w.db { notifications = rows; preferences = defaults };
            saved = record w.db { notifications = rows; preferences = defaults };
          }) in
          (n, ground (arith, sent), ground (arith, sent), ground (arith, sent))
      | inr (pref, e) ↦
          let sent = dispatch_lem pref push_ws c.user_id n.id (record w {
            db = record w.db { notifications = rows };
            saved = record w.db { notifications = rows };
          }) in
          (n, ground (arith, sent), ground (arith, sent), ground (arith, sent))
    ]
