-- ===== src/Api/Waitlist/Own.antt =====
-- A user's calls leave the waitlist entries of others alone.
use slot_booking.Base.{ℕ, ◌≡◌, ◌≢◌, some, arith, inl, inr, Option-cases}
use slot_booking.Models.{WaitlistEntry, get_entry}
use slot_booking.Models.Laws.{
  get_row-key, get_row-put_row_ne, get_row-remove_row_ne, get_row-append,
}
use slot_booking.Effects.{Services, World}
use slot_booking.Api.Waitlist.{
  WaitlistCreate, WaitlistUpdate, updated_entry, create_waitlist_entry, delete_waitlist_entry,
  update_waitlist_entry,
}

-- Whatever entry a user creates, updates or deletes, the entry of another user is there afterwards
-- as it was.
pub waitlist_entry_kept :
    {s : Services} (user entry_id k : ℕ) (p : WaitlistCreate) (q : WaitlistUpdate) (w : World s)
    (entry : WaitlistEntry)
    → get_entry k w.db ≡ some entry
    → entry.user_id ≢ user
    → (get_entry k (create_waitlist_entry p user w).1.db ≡ some entry)
      × (get_entry k (update_waitlist_entry entry_id q user w).1.db ≡ some entry)
      × (get_entry k (delete_waitlist_entry entry_id user w).1.db ≡ some entry)
unfolding create_waitlist_entry update_waitlist_entry delete_waitlist_entry
waitlist_entry_kept {s} user entry_id k p q w entry there others =
    let key : WaitlistEntry → ℕ = λ e. e.id in
    let of_k = get_row-key key k w.db.waitlist {x = entry} there in
    (
      get_row-append key k w.db.waitlist _ there,
      elim (Option-cases (get_entry entry_id w.db)) [
        | inl e ↦ ground arith
        | inr (x, e) ↦
            let of_id = get_row-key key entry_id w.db.waitlist {x = x} e in
            ground (arith, get_row-put_row_ne key k (updated_entry x q) w.db.waitlist)
      ],
      elim (Option-cases (get_entry entry_id w.db)) [
        | inl e ↦ ground arith
        | inr (x, e) ↦
            let of_id = get_row-key key entry_id w.db.waitlist {x = x} e in
            ground (arith, get_row-remove_row_ne key k x.id w.db.waitlist)
      ],
    )
