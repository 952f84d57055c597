-- ===== src/Api/Disputes.antt =====
-- backend/src/apps/booking/api/v1/disputes.py. The texts of a dispute are as the schema lets them.
pub mod Own
use mathlib.Core.List.{reverse}
use slot_booking.Base.{
  ℕ, String, Bool, true, false, not, List, [], ◌∷◌, ◌++◌, Option, none, some, map, select, ◌==◌,
}
use slot_booking.Models.{Database, Dispute, DisputeStatus, get_dispute, put_row, order_by}
use slot_booking.Effects.{
  Services, World, Action, http, dispute_not_found, ◌>>=◌, ◌>>◌, pure, or_raise, raise_if, query,
  write, commit,
}
use slot_booking.Api.Availability.{or_old}

pub record DisputeCreate : Type 0 where
  pub tenant_id : ℕ
  pub booking_id : ℕ
  pub reason : String

pub record DisputeUpdate : Type 0 where
  pub reason : Option String
  pub status : Option DisputeStatus
  pub resolution_note : Option String

unfoldable pub list_disputes : {s : Services} → ℕ → Action (World s) (List Dispute)
list_disputes user = query (λ db. reverse (
    order_by (λ (d : Dispute). d.id)
      (select (λ (d : Dispute). d.opened_by_user_id == user) db.disputes)))

abbrev pub new_dispute : DisputeCreate → ℕ → ℕ → Dispute
new_dispute p user id = record {
  id = id;
  tenant_id = p.tenant_id;
  booking_id = p.booking_id;
  opened_by_user_id = user;
  reason = p.reason;
  status = DisputeStatus.open_;
  resolution_note = "";
}

unfoldable pub create_dispute : {s : Services} → DisputeCreate → ℕ → Action (World s) Dispute
create_dispute {s} p user = do
  rows ← query (λ db. db.disputes)
  let dispute = new_dispute p user (s.new_id (map (λ (d : Dispute). d.id) rows))
  write (λ db. record db { disputes = db.disputes ++ dispute ∷ [] })
  commit
  pure dispute

unfoldable pub show_dispute : {s : Services} → ℕ → ℕ → Action (World s) Dispute
show_dispute dispute_id user = do
  dispute ← or_raise (← query (get_dispute dispute_id)) (http 404 dispute_not_found)
  raise_if (not (dispute.opened_by_user_id == user)) (http 404 dispute_not_found)
  pure dispute

abbrev pub updated_dispute : Dispute → DisputeUpdate → Dispute
updated_dispute dispute p = record dispute {
  reason = or_old p.reason dispute.reason;
  status = or_old p.status dispute.status;
  resolution_note = or_old p.resolution_note dispute.resolution_note;
}

unfoldable pub update_dispute : {s : Services} → ℕ → DisputeUpdate → ℕ → Action (World s) Dispute
update_dispute dispute_id p user = do
  dispute ← or_raise (← query (get_dispute dispute_id)) (http 404 dispute_not_found)
  raise_if (not (dispute.opened_by_user_id == user)) (http 404 dispute_not_found)
  write (λ db. record db {
    disputes = put_row (λ (d : Dispute). d.id) (updated_dispute dispute p) db.disputes;
  })
  commit
  pure (updated_dispute dispute p)
