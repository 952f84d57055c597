-- ===== src/Notifications/Devices/Push.antt =====
-- The devices and the push flag after a device was removed.
use slot_booking.Base.{
  ℕ, not, ◌&&◌, suc, ◌⊎◌, ◌≡◌, inl, inr, refl, sym, ap, ◌∙◌, subst, true, false, ◌++◌, List, [],
  ◌∷◌, some, any, select, Bool-cases, Option-cases, ◌==◌, arith,
}
use slot_booking.Models.{Database, NotificationPreference, NotificationDevice, get_row, put_row}
use slot_booking.Models.Laws.{get_row-key, get_row-put_row_self, get_row-append_new}
use slot_booking.Effects.{Services, World, Result, ok}
use slot_booking.Notifications.{
  is_active_device, latest_first, list_devices, default_preference, preference_of,
  get_or_create_preference,
}
use slot_booking.Notifications.Devices.{
  device_key, set_device, set_preference, synced, retired, sync_preference, remove_found,
  remove_device,
}

latest_first_some :
    (user : ℕ) (rows : List NotificationDevice)
    → any (is_active_device user) rows ≡ false
    → latest_first (select (is_active_device user) rows) ≡ []
latest_first_some user [] none_left = refl
latest_first_some user (d ∷ rows) none_left =
    ground (arith, latest_first_some user rows (ground arith))

set_synced :
    (user : ℕ) (p : NotificationPreference) (db : Database)
    → preference_of user db ≡ some p
    → preference_of user
        (set_preference (synced (latest_first (select (is_active_device user) db.devices)) p) db)
      ≡ some (synced (latest_first (select (is_active_device user) db.devices)) p)
set_synced user p db found =
    let key : NotificationPreference → ℕ = λ p. p.user_id in
    let p' = synced (latest_first (select (is_active_device user) db.devices)) p in
    let at : p.user_id ≡ user = get_row-key key user db.preferences {x = p} found in
    subst (λ i. get_row key i (put_row key p' db.preferences) ≡ some p') at
      (get_row-put_row_self key p' p db.preferences
        (subst (λ i. get_row key i db.preferences ≡ some p) (sym at) found))

push_on_device :
    (user : ℕ) (p : NotificationPreference) (rows : List NotificationDevice)
    → (synced (latest_first (select (is_active_device user) rows)) p).push_enabled ≡ true
    → any (is_active_device user) rows ≡ true
push_on_device user p rows on = elim (Bool-cases (any (is_active_device user) rows)) [
  | inl has ↦ has
  | inr none_left ↦ absurd (ground (arith, latest_first_some user rows none_left))
]

-- After a device was retired, the active ones are others.
any-retired :
    (id user now : ℕ) (d : NotificationDevice)
    → d.id ≡ id
    → (rows : List NotificationDevice)
    → any
        (λ x. not (x.id == id) && (x.user_id == user && x.is_active))
        (put_row device_key (retired now d) rows)
      ≡ any (is_active_device user) (put_row device_key (retired now d) rows)
any-retired id user now d at [] = refl
any-retired id user now d at (x ∷ rows) = elim (Bool-cases (x.id == d.id)) [
  | inl same ↦ ground (arith, any-retired id user now d at rows)
  | inr differs ↦ ground (arith, any-retired id user now d at rows)
]

-- What the last step of each operation leaves.
pub record IsSynced {s : Services} (user : ℕ) (w : World s)
    (r : Result NotificationPreference × World s) : Type 0 where
  pub pref : NotificationPreference
  pub ends : r.0 ≡ ok pref
  pub stored : preference_of user r.1.db ≡ some pref
  pub on_device : pref.push_enabled ≡ true → any (is_active_device user) r.1.db.devices ≡ true
  pub devices : r.1.db.devices ≡ w.db.devices
  pub committed : r.1.saved ≡ r.1.db

module _ {s : Services} where
  sync_preference-IsSynced : (user : ℕ) (w : World s) → IsSynced user w (sync_preference user w)
  unfolding sync_preference get_or_create_preference list_devices
  sync_preference-IsSynced user w = elim (Option-cases (preference_of user w.db)) [
    | inr (p, found) ↦ record {
      pref = synced (latest_first (select (is_active_device user) w.db.devices)) p;
      ends = ground (arith, found);
      stored = ground (arith, found, set_synced user p w.db found);
      on_device = λ on. ground (arith, found, push_on_device user p w.db.devices on);
      devices = ground (arith, found);
      committed = ground (arith, found);
    }
    | inl absent ↦
        let p = default_preference user in
        let db = record w.db { preferences = w.db.preferences ++ p ∷ [] } in
        let found : preference_of user db ≡ some p =
          get_row-append_new (λ (p : NotificationPreference). p.user_id) w.db.preferences p
            absent in
        record {
          pref = synced (latest_first (select (is_active_device user) w.db.devices)) p;
          ends = ground (arith, absent);
          stored = ground (arith, absent, set_synced user p db found);
          on_device = λ on. ground (arith, absent, push_on_device user p w.db.devices on);
          devices = ground (arith, absent);
          committed = ground (arith, absent);
        }
  ]

  -- A device that its user removes is answered with true; it is inactive from then on, with the time
  -- and otherwise as it was, and that is committed. Push is on afterwards only if the user has an
  -- active device, and that is another one.
  pub remove_device_retires :
      (id : ℕ) (d : NotificationDevice) (w : World s)
      → get_row device_key id w.db.devices ≡ some d
      → let (r, w') = remove_device d.user_id id w in
        (r ≡ ok true)
        × ((x : NotificationDevice) × (get_row device_key id w'.db.devices ≡ some x)
            × (x.is_active ≡ false)
            × (x.updated_at ≡ w.clock w.reads)
            × (record x { is_active = d.is_active; updated_at = d.updated_at } ≡ d))
        × (w'.saved ≡ w'.db)
        × (pref : NotificationPreference) × (preference_of d.user_id w'.db ≡ some pref)
        × ((pref.push_enabled ≡ false)
            ⊎ (any (λ x. not (x.id == id) && (x.user_id == d.user_id && x.is_active)) w'.db.devices
                ≡ true))
  unfolding remove_device remove_found
  remove_device_retires id d w found =
      let own : (d.user_id == d.user_id) ≡ true = ground arith in
      let d' = retired (w.clock w.reads) d in
      let db = set_device d' w.db in
      let v = record w { db = db; saved = db; reads = suc w.reads } in
      let last = sync_preference-IsSynced d.user_id v in
      let at : d.id ≡ id = get_row-key device_key id w.db.devices {x = d} found in
      let row : get_row device_key id db.devices ≡ some d' =
        subst (λ i. get_row device_key i db.devices ≡ some d') at
          (get_row-put_row_self device_key d' d w.db.devices
            (subst (λ i. get_row device_key i w.db.devices ≡ some d) (sym at) found)) in
      let same : (remove_device d.user_id id w).1 ≡ (sync_preference d.user_id v).1 =
        ground (arith, found, own, last.ends) in
      let devices : (remove_device d.user_id id w).1.db.devices ≡ db.devices =
        ap (λ x. x.db.devices) same ∙ last.devices in
      (
        ground (arith, found, own, last.ends),
        (d', ap (get_row device_key id) devices ∙ row, refl, refl, refl),
        ap (λ x. x.saved) same ∙ last.committed ∙ ap (λ x. x.db) (sym same),
        last.pref,
        ap (λ x. preference_of d.user_id x.db) same ∙ last.stored,
        elim (Bool-cases last.pref.push_enabled) [
          | inr off ↦ inl off
          | inl on ↦ inr (
              ap (any (λ x. not (x.id == id) && (x.user_id == d.user_id && x.is_active))) devices
              ∙ any-retired id d.user_id (w.clock w.reads) d at w.db.devices
              ∙ ap (any (is_active_device d.user_id)) (sym last.devices)
              ∙ last.on_device on)
        ],
      )
