-- ===== src/Finance/Verified.antt =====
-- What a verified payment does to the booking and its slots.
use slot_booking.Base.{
  ℕ, ◌≡◌, ◌≢◌, refl, ap, ◌∙◌, String, Bool, true, inl, inr, List, [], ◌∷◌, ◌++◌, Option, none, some,
  any, find_by, Bool-cases, Option-cases, arith, ◌==◌,
}
use text.Mathlib.TextEquality.{eq_iff}
use slot_booking.Base.Text.{str_eq_refl}
use slot_booking.Models.{
  Database, Booking, BookingStatus, PaymentStatus, Payout, PayoutStatus, BookingSlot,
  TransactionStatus, PaymentTransaction, Slot, SlotStatus, get_booking, get_slot, get_transaction,
  put_booking,
}
use slot_booking.Models.Laws.{get_row-put_row_self, get_row-put_row_ne, get_row-key}
use slot_booking.Effects.{Services, World, Action, ok}
use slot_booking.Finance.{
  VerifyPaymentRequest, VerifyPaymentResponse, has_webhook_key, seen_transaction, stored_response,
  paid_row, booked_row, links_of, book_found, book_links, pending_payout, settle_booking,
  booking_of, webhook_of, settle, verify_payment,
}

-- A slot that is booked, with no hold.
abbrev pub IsBooked : ℕ → Database → Type 0
IsBooked id db =
    (slot : Slot) × (get_slot id db ≡ some slot)
    × (slot.status ≡ SlotStatus.booked)
    × (slot.hold_expires_at ≡ none)

book_found-IsBooked :
    (id k : ℕ) (db : Database) → IsBooked id db → IsBooked id (book_found (get_slot k db) db)
book_found-IsBooked id k db (slot, e, f, g) = elim (Option-cases (get_slot k db)) [
  | inl none_ ↦ rw none_ (slot, e, f, g)
  | inr (x, there) ↦
      let of_id = get_row-key (λ (r : Slot). r.id) k db.slots {x = x} there in
      elim (Bool-cases (id == k)) [
        | inl same ↦ (
          booked_row x,
          ground (arith, get_row-put_row_self (λ (r : Slot). r.id) (booked_row x) x db.slots),
          refl,
          refl,
        )
        | inr differs ↦ (
          slot,
          ground (arith, get_row-put_row_ne (λ (r : Slot). r.id) id (booked_row x) db.slots),
          f,
          g,
        )
      ]
]

book_links-IsBooked :
    (id : ℕ) (links : List BookingSlot) (db : Database)
    → IsBooked id db
    → IsBooked id (book_links links db)
unfolding book_links
book_links-IsBooked id [] db h = h
book_links-IsBooked id (l ∷ links) db h =
    book_links-IsBooked id links (book_found (get_slot l.slot_id db) db)
      (book_found-IsBooked id l.slot_id db h)

-- Every slot that a link names and that exists is booked.
book_links_all :
    (id : ℕ) (links : List BookingSlot) (db : Database) (slot : Slot)
    → any (λ (l : BookingSlot). l.slot_id == id) links ≡ true
    → get_slot id db ≡ some slot
    → IsBooked id (book_links links db)
unfolding book_links
book_links_all id [] db slot h e = absurd (ground arith)
book_links_all id (l ∷ links) db slot h e = elim (Bool-cases (l.slot_id == id)) [
  | inl same ↦ book_links-IsBooked id links (book_found (get_slot l.slot_id db) db) (
    booked_row slot,
    ground (
      arith,
      get_row-key (λ (r : Slot). r.id) id db.slots {x = slot} e,
      get_row-put_row_self (λ (r : Slot). r.id) (booked_row slot) slot db.slots,
    ),
    refl,
    refl,
  )
  | inr differs ↦
      book_links_all id links (book_found (get_slot l.slot_id db) db) slot (ground arith)
        (elim (Option-cases (get_slot l.slot_id db)) [
          | inl none_ ↦ rw none_ e
          | inr (x, there) ↦ ground (
            arith,
            get_row-key (λ (r : Slot). r.id) l.slot_id db.slots {x = x} there,
            get_row-put_row_ne (λ (r : Slot). r.id) id (booked_row x) db.slots,
          )
        ])
]

-- The loop changes slots alone.
book_links_rest :
    (links : List BookingSlot) (db : Database)
    → ((book_links links db).bookings ≡ db.bookings)
      × ((book_links links db).payouts ≡ db.payouts)
      × ((book_links links db).webhooks ≡ db.webhooks)
      × ((book_links links db).transactions ≡ db.transactions)
unfolding book_links
book_links_rest [] db = (refl, refl, refl, refl)
book_links_rest (l ∷ links) db =
    let rest = book_links_rest links (book_found (get_slot l.slot_id db) db) in
    elim (Option-cases (get_slot l.slot_id db)) [
      | inl e ↦ (rest.0 ∙ rw e refl, rest.1 ∙ rw e refl, rest.2 ∙ rw e refl, rest.3 ∙ rw e refl)
      | inr (x, e) ↦
          (rest.0 ∙ rw e refl, rest.1 ∙ rw e refl, rest.2 ∙ rw e refl, rest.3 ∙ rw e refl)
    ]

booking_of_found :
    (transaction_id : ℕ) (db : Database) (b : Booking)
    → booking_of transaction_id db ≡ some b
    → get_booking b.id db ≡ some b
booking_of_found transaction_id db b h = elim (Option-cases (get_transaction transaction_id db)) [
  | inl e ↦ absurd (ground arith)
  | inr (t, e) ↦ elim (Option-cases t.booking_id) [
    | inl f ↦ absurd (ground arith)
    | inr (k, f) ↦
        let here : get_booking k db ≡ some b = ground arith in
        ap (λ n. get_booking n db) (get_row-key (λ (x : Booking). x.id) k db.bookings {x = b} here)
        ∙ here
  ]
]

-- The booking's row, paid and confirmed, its other fields as they were.
abbrev pub IsConfirmed : Booking → Booking → Type 0
IsConfirmed b c =
    (c.payment_status ≡ PaymentStatus.completed)
    × (c.status ≡ BookingStatus.confirmed)
    × (record c { payment_status = b.payment_status; status = b.status } ≡ b)

-- A pending payout over the booking's amount, to its provider.
abbrev pub IsPayoutOf : Booking → Payout → Type 0
IsPayoutOf b x =
    (x.booking_id ≡ b.id)
    × (x.amount_minor ≡ b.amount_minor)
    × (x.currency ≡ b.currency)
    × (x.provider_id ≡ b.provider_id)
    × (x.tenant_id ≡ b.tenant_id)
    × (x.status ≡ PayoutStatus.pending)

-- A payment that its provider reports as completed, under a key that is new, is answered and
-- committed: its booking is paid and confirmed, whatever it was before, a cancelled one included;
-- each slot that the booking has and that exists is booked, whoever holds it by then; and one
-- pending payout is added, over the booking's amount and to its provider.
pub verify_payment_confirms :
    {s : Services} (verify : Action (World s) VerifyPaymentResponse) (p : VerifyPaymentRequest)
    (key : Option String) (w v : World s) (r : VerifyPaymentResponse) (b : Booking)
    → seen_transaction key w.db ≡ none
    → verify w ≡ (ok r, v)
    → r.status ≡ TransactionStatus.completed
    → booking_of r.transaction_id v.db ≡ some b
    → let (result, w') = verify_payment (some verify) p key w in
      (result ≡ ok r)
      × ((c : Booking) × (get_booking b.id w'.saved ≡ some c) × IsConfirmed b c)
      × ((x : Payout) × (w'.saved.payouts ≡ v.db.payouts ++ x ∷ []) × IsPayoutOf b x)
      × ((id : ℕ) (slot : Slot)
          → any (λ (l : BookingSlot). l.slot_id == id) (links_of b.id v.db) ≡ true
          → get_slot id v.db ≡ some slot
          → IsBooked id w'.saved)
unfolding verify_payment settle
verify_payment_confirms {s} verify p key w v r b new done completed owner =
    let found = booking_of_found r.transaction_id v.db b owner in
    let paid = put_booking (paid_row b) v.db in
    let rest = book_links_rest (links_of b.id v.db) paid in
    let row = get_row-put_row_self (λ (x : Booking). x.id) (paid_row b) b v.db.bookings found in
    (
      ground (arith, done, completed),
      (paid_row b, ground (arith, done, rest, row), (refl, refl, refl)),
      (pending_payout b, ground (arith, done, rest), (refl, refl, refl, refl, refl, refl)),
      λ id slot linked there.
          let (y, e, f, g) = book_links_all id (links_of b.id v.db) paid slot linked there in
          (y, ground (arith, done, e), f, g),
    )

find_by-append {ℓ} :
    {A : Type ℓ} (q : A → Bool) (xs : List A) (y : A)
    → find_by q xs ≡ none
    → q y ≡ true
    → find_by q (xs ++ y ∷ []) ≡ some y
find_by-append q [] y e h = ground arith
find_by-append q (x ∷ xs) y e h = ground (arith, find_by-append q xs y)

-- Settling keeps the transactions and adds one webhook.
settle_booking_keeps :
    (status : TransactionStatus) (owner : Option Booking) (db : Database)
    → ((settle_booking status owner db).webhooks ≡ db.webhooks)
      × ((settle_booking status owner db).transactions ≡ db.transactions)
settle_booking_keeps status none db = (refl, refl)
settle_booking_keeps TransactionStatus.completed (some b) db =
    let rest = book_links_rest (links_of b.id db) (put_booking (paid_row b) db) in (rest.2, rest.3)
settle_booking_keeps TransactionStatus.failed (some b) db = (refl, refl)
settle_booking_keeps TransactionStatus.pending (some b) db = (refl, refl)
settle_booking_keeps TransactionStatus.initiated (some b) db = (refl, refl)
settle_booking_keeps TransactionStatus.refunded (some b) db = (refl, refl)
settle_booking_keeps TransactionStatus.cancelled (some b) db = (refl, refl)

-- A callback that was settled under a key, sent again under that key to a session over what was
-- committed, is answered from the stored transaction and changes nothing, whatever the provider
-- would say now, so that nothing is paid out twice; where no webhook had the key before and the
-- provider's verification, which stored the transaction, added none.
pub verify_payment_once :
    {s : Services} (verify : Action (World s) VerifyPaymentResponse)
    (again : Option (Action (World s) VerifyPaymentResponse)) (p q : VerifyPaymentRequest)
    (key : String) (w v u : World s) (r : VerifyPaymentResponse) (t : PaymentTransaction)
    → key ≢ ""
    → find_by (has_webhook_key key) w.db.webhooks ≡ none
    → verify w ≡ (ok r, v)
    → v.db.webhooks ≡ w.db.webhooks
    → get_transaction r.transaction_id v.db ≡ some t
    → u.db ≡ (verify_payment (some verify) p (some key) w).1.saved
    → verify_payment again q (some key) u ≡ (ok (stored_response t), u)
unfolding verify_payment settle
verify_payment_once {s} verify again p q key w v u r t named new done kept stored same =
    let keeps = settle_booking_keeps r.status (booking_of r.transaction_id v.db) v.db in
    let there =
      find_by-append (has_webhook_key key) w.db.webhooks (webhook_of p (some key) r) new
        (str_eq_refl key) in
    let settled = (verify_payment (some verify) p (some key) w).1.saved in
    let webhooks : settled.webhooks ≡ w.db.webhooks ++ webhook_of p (some key) r ∷ [] =
      ground (arith, done, keeps, kept, new) in
    let transactions : settled.transactions ≡ v.db.transactions =
      ground (arith, done, keeps, new) in
    let hooks : u.db.webhooks ≡ w.db.webhooks ++ webhook_of p (some key) r ∷ [] =
      ap (λ (d : Database). d.webhooks) same ∙ webhooks in
    let known : find_by (has_webhook_key key) u.db.webhooks ≡ some (webhook_of p (some key) r) =
      ap (λ hs. find_by (has_webhook_key key) hs) hooks ∙ there in
    let in_db : get_transaction r.transaction_id u.db ≡ some t =
      ap (λ ts. find_by (λ (x : PaymentTransaction). x.id == r.transaction_id) ts)
        (ap (λ (d : Database). d.transactions) same ∙ transactions)
      ∙ stored in
    ground (arith, known, in_db, eq_iff key "")
