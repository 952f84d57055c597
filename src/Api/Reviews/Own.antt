-- ===== src/Api/Reviews/Own.antt =====
-- A user's calls leave the reviews of others alone.
use slot_booking.Base.{ℕ, ap, ◌∙◌, ◌≡◌, ◌≢◌, some, arith, inl, inr, Bool-cases, Option-cases, any}
use slot_booking.Models.{Review, get_review, get_row}
use slot_booking.Models.Laws.{
  get_row-key, get_row-put_row_ne, get_row-remove_row_ne, get_row-append,
}
use slot_booking.Effects.{Services, World}
use slot_booking.Api.Reviews.{
  ReviewCreate, ReviewUpdate, is_review_of, updated_review, create_review, delete_review,
  update_review,
}

-- Whatever review a user creates, updates or deletes, the review of another user is there afterwards
-- as it was; in a session whose reviews are the committed ones.
pub review_kept :
    {s : Services} (user review_id k : ℕ) (p : ReviewCreate) (q : ReviewUpdate) (w : World s)
    (review : Review)
    → get_review k w.db ≡ some review
    → w.saved.reviews ≡ w.db.reviews
    → review.user_id ≢ user
    → (get_review k (create_review p user w).1.db ≡ some review)
      × (get_review k (update_review review_id q user w).1.db ≡ some review)
      × (get_review k (delete_review review_id user w).1.db ≡ some review)
unfolding create_review update_review delete_review
review_kept {s} user review_id k p q w review there clean others =
    let key : Review → ℕ = λ r. r.id in
    let of_k = get_row-key key k w.db.reviews {x = review} there in
    (
      elim (Bool-cases (any (is_review_of p.booking_id user) w.db.reviews)) [
        | inl e ↦ rw e (ap (get_row key k) clean ∙ there)
        | inr e ↦ rw e (get_row-append key k w.db.reviews _ there)
      ],
      elim (Option-cases (get_review review_id w.db)) [
        | inl e ↦ ground arith
        | inr (x, e) ↦
            let of_id = get_row-key key review_id w.db.reviews {x = x} e in
            ground (arith, get_row-put_row_ne key k (updated_review x q) w.db.reviews)
      ],
      elim (Option-cases (get_review review_id w.db)) [
        | inl e ↦ ground arith
        | inr (x, e) ↦
            let of_id = get_row-key key review_id w.db.reviews {x = x} e in
            ground (arith, get_row-remove_row_ne key k x.id w.db.reviews)
      ],
    )
