-- ===== src/Booking/Generate/Added.antt =====
-- The slots that `generate_slots_for_resource` adds, in UTC.
use slot_booking.Base.{
  ℕ, ◌≤◌, ◌<◌, ◌≡◌, ap, false, inl, inr, List, [], ◌∷◌, ◌++◌, ◌⊎◌, String, All-map, none, some,
  length, select, any, ltb, ◌==◌, All, Bool-cases, arith,
}
use slot_booking.Models.{Database, AvailabilityException, Resource, Slot, SlotStatus, get_resource}
use slot_booking.Models.Windows.{IsRule}
use slot_booking.Effects.{Services, World, ok}
use slot_booking.Booking.Generate.{blocks, window_of, generate_slots_for_resource}
use slot_booking.Booking.Generate.Pieces.{IsCut, generate_slots_for_resource-Cuts}

-- The zone's clock is not changed within a span of time: later wall-clock times of the span are
-- later in UTC, and its ends are converted back as they were.
pub record HasNoClockChange (s : Services) (zone : String) (from until : ℕ) : Type 0 where
  pub ordered :
      (a b : ℕ)
      → s.to_local zone from ≤ a
      → a < b
      → b ≤ s.to_local zone until
      → s.to_utc zone a < s.to_utc zone b
  pub from_back : s.to_utc zone (s.to_local zone from) ≡ from
  pub until_back : s.to_utc zone (s.to_local zone until) ≡ until

-- An open slot of the resource, within a span of UTC times, over which no closing exception of the
-- resource lies.
pub record IsOpenSlot (r : Resource) (resource_id : ℕ) (exceptions : List AvailabilityException)
    (from until : ℕ) (x : Slot) : Type 0 where
  pub after_start : from ≤ x.starts_at
  pub lasts : x.starts_at < x.ends_at
  pub before_end : x.ends_at ≤ until
  pub unblocked :
      All
        (λ (e : AvailabilityException).
          e.resource_id ≡ resource_id
          → e.is_available ≡ false
          → (x.ends_at ≤ e.starts_at) ⊎ (e.ends_at ≤ x.starts_at))
        exceptions
  pub is_open : (x.status ≡ SlotStatus.open_) × (x.hold_expires_at ≡ none)
  pub of_resource : x.resource_id ≡ r.id
  pub of_tenant : x.tenant_id ≡ r.tenant_id

unblocked-All :
    (resource_id starts ends : ℕ) (exceptions : List AvailabilityException)
    → any
        (blocks starts ends)
        (select (λ (e : AvailabilityException). e.resource_id == resource_id) exceptions)
      ≡ false
    → All
        (λ (e : AvailabilityException).
          e.resource_id ≡ resource_id
          → e.is_available ≡ false
          → (ends ≤ e.starts_at) ⊎ (e.ends_at ≤ starts))
        exceptions
unblocked-All resource_id starts ends [] h = tt
unblocked-All resource_id starts ends (e ∷ exceptions) h = (
  λ of_resource closes. elim (Bool-cases (ltb e.starts_at ends)) [
    | inr before ↦ inl (ground arith)
    | inl begun ↦ inr (ground arith)
  ],
  unblocked-All resource_id starts ends exceptions (ground arith),
)

IsCut-IsOpenSlot :
    {s : Services} (r : Resource) (resource_id window_start window_end : ℕ) (db : Database)
    (x : Slot)
    → HasNoClockChange s r.timezone window_start window_end
    → IsCut s (window_of s r resource_id db window_start window_end) x
    → IsOpenSlot r resource_id db.exceptions window_start window_end x
IsCut-IsOpenSlot {s} r resource_id window_start window_end db x clock cut =
    let zone = r.timezone in
    let low = s.to_local zone window_start in
    let high = s.to_local zone window_end in
    record {
      after_start = elim (Bool-cases (ltb low cut.from)) [
        | inl later ↦ omega (
          arith,
          clock.ordered low cut.from (omega arith) (ground arith)
              (omega (arith, cut.lasts, cut.before_end)),
          clock.from_back,
          cut.starts,
        )
        | inr not_later ↦
            let at : cut.from ≡ low = ground (arith, cut.after_start) in
            omega (arith, ap (s.to_utc zone) at, clock.from_back, cut.starts)
      ];
      lasts = omega (
        arith,
        clock.ordered cut.from cut.until cut.after_start cut.lasts cut.before_end,
        cut.starts,
        cut.ends,
      );
      before_end = elim (Bool-cases (ltb cut.until high)) [
        | inl sooner ↦ omega (
          arith,
          clock.ordered cut.until high (omega (arith, cut.lasts, cut.after_start)) (ground arith)
              (omega arith),
          clock.until_back,
          cut.ends,
        )
        | inr not_sooner ↦
            let at : cut.until ≡ high = ground (arith, cut.before_end) in
            omega (arith, ap (s.to_utc zone) at, clock.until_back, cut.ends)
      ];
      unblocked = unblocked-All resource_id x.starts_at x.ends_at db.exceptions cut.unblocked;
      is_open = (cut.is_open, cut.not_held);
      of_resource = cut.of_resource;
      of_tenant = cut.of_tenant;
    }

-- Where generating slots ends well, with rules as the availability routes leave them and for a span
-- in which the clock of the resource's zone is not changed, it adds to the session as many slots as
-- it counts and changes nothing else: each open, of the resource and its tenant, positive in length
-- and inside the span in UTC, and touched by no exception of the resource that closes.
pub generate_slots_for_resource-Added :
    {s : Services} (resource_id window_start window_end : ℕ) (w w' : World s) (n : ℕ)
    → All IsRule w.db.rules
    → ((r : Resource)
        → get_resource resource_id w.db ≡ some r
        → HasNoClockChange s r.timezone window_start window_end)
    → generate_slots_for_resource resource_id window_start window_end w ≡ (ok (some n), w')
    → (r : Resource) × (get_resource resource_id w.db ≡ some r)
      × (more : List Slot) × (w' ≡ record w { db = record w.db { slots = w.db.slots ++ more } })
      × (length more ≡ n)
      × All (IsOpenSlot r resource_id w.db.exceptions window_start window_end) more
generate_slots_for_resource-Added {s} resource_id window_start window_end w w' n valid clock h =
    let (r, found, (more, same, count, cuts)) =
      generate_slots_for_resource-Cuts resource_id window_start window_end w w' n valid h in
    (
      r,
      found,
      more,
      same,
      count,
      All-map (IsCut s (window_of s r resource_id w.db window_start window_end))
          (IsOpenSlot r resource_id w.db.exceptions window_start window_end)
          (λ x cut.
            IsCut-IsOpenSlot r resource_id window_start window_end w.db x (clock r found) cut)
          more cuts,
    )
