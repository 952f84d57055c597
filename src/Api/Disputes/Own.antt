-- ===== src/Api/Disputes/Own.antt =====
-- A user's calls leave the disputes of others alone.
use slot_booking.Base.{ℕ, ◌≡◌, ◌≢◌, some, arith, inl, inr, Option-cases}
use slot_booking.Models.{Dispute, get_dispute}
use slot_booking.Models.Laws.{get_row-key, get_row-put_row_ne, get_row-append}
use slot_booking.Effects.{Services, World}
use slot_booking.Api.Disputes.{
  DisputeCreate, DisputeUpdate, updated_dispute, create_dispute, update_dispute,
}

-- Whatever dispute a user opens or updates, the dispute of another user is there afterwards as it
-- was.
pub dispute_kept :
    {s : Services} (user dispute_id k : ℕ) (p : DisputeCreate) (q : DisputeUpdate) (w : World s)
    (dispute : Dispute)
    → get_dispute k w.db ≡ some dispute
    → dispute.opened_by_user_id ≢ user
    → (get_dispute k (create_dispute p user w).1.db ≡ some dispute)
      × (get_dispute k (update_dispute dispute_id q user w).1.db ≡ some dispute)
unfolding create_dispute update_dispute
dispute_kept {s} user dispute_id k p q w dispute there others =
    let key : Dispute → ℕ = λ d. d.id in
    let of_k = get_row-key key k w.db.disputes {x = dispute} there in
    (
      get_row-append key k w.db.disputes _ there,
      elim (Option-cases (get_dispute dispute_id w.db)) [
        | inl e ↦ ground arith
        | inr (x, e) ↦
            let of_id = get_row-key key dispute_id w.db.disputes {x = x} e in
            ground (arith, get_row-put_row_ne key k (updated_dispute x q) w.db.disputes)
      ],
    )
