-- ===== src/Api/Reviews.antt =====
-- backend/src/apps/booking/api/v1/reviews.py.
pub mod Own
use mathlib.Core.List.{reverse}
use slot_booking.Base.{
  ℕ, String, Bool, true, false, not, ◌&&◌, List, [], ◌∷◌, ◌++◌, Option, none, some, map, any, ◌==◌,
}
use slot_booking.Models.{Database, Review, ReviewStatus, get_review, put_row, remove_row, order_by}
use slot_booking.Effects.{
  Services, World, Action, http, flush_unless, review_not_found, review_not_yours, ◌>>=◌, ◌>>◌,
  pure, or_raise, raise_if, query, write, commit,
}
use slot_booking.Api.Availability.{or_old}

pub record ReviewCreate : Type 0 where
  pub tenant_id : ℕ
  pub booking_id : ℕ
  pub resource_id : ℕ
  pub rating : ℕ
  pub comment : String

pub record ReviewUpdate : Type 0 where
  pub rating : Option ℕ
  pub comment : Option String
  pub status : Option ReviewStatus

unfoldable pub list_reviews : {s : Services} → Action (World s) (List Review)
list_reviews = query (λ db. reverse (order_by (λ (r : Review). r.id) db.reviews))

abbrev pub new_review : ReviewCreate → ℕ → ℕ → Review
new_review p user id = record {
  id = id;
  tenant_id = p.tenant_id;
  booking_id = p.booking_id;
  resource_id = p.resource_id;
  user_id = user;
  rating = p.rating;
  comment = p.comment;
  status = ReviewStatus.published;
}

-- `uq_review_booking_user`: one review of a booking by a user.
abbrev pub is_review_of : ℕ → ℕ → Review → Bool
is_review_of booking_id user r = r.booking_id == booking_id && r.user_id == user

unfoldable pub create_review : {s : Services} → ReviewCreate → ℕ → Action (World s) Review
create_review {s} p user = do
  rows ← query (λ db. db.reviews)
  flush_unless (any (is_review_of p.booking_id user) rows)
  let review = new_review p user (s.new_id (map (λ (r : Review). r.id) rows))
  write (λ db. record db { reviews = db.reviews ++ review ∷ [] })
  commit
  pure review

unfoldable pub show_review : {s : Services} → ℕ → Action (World s) Review
show_review review_id = do or_raise (← query (get_review review_id)) (http 404 review_not_found)

abbrev pub updated_review : Review → ReviewUpdate → Review
updated_review review p = record review {
  rating = or_old p.rating review.rating;
  comment = or_old p.comment review.comment;
  status = or_old p.status review.status;
}

unfoldable pub update_review : {s : Services} → ℕ → ReviewUpdate → ℕ → Action (World s) Review
update_review review_id p user = do
  review ← or_raise (← query (get_review review_id)) (http 404 review_not_found)
  raise_if (not (review.user_id == user)) (http 403 review_not_yours)
  write (λ db. record db {
    reviews = put_row (λ (r : Review). r.id) (updated_review review p) db.reviews;
  })
  commit
  pure (updated_review review p)

unfoldable pub delete_review : {s : Services} → ℕ → ℕ → Action (World s) (Unit {0})
delete_review review_id user = do
  review ← or_raise (← query (get_review review_id)) (http 404 review_not_found)
  raise_if (not (review.user_id == user)) (http 403 review_not_yours)
  write (λ db. record db { reviews = remove_row (λ (r : Review). r.id) review.id db.reviews })
  commit
