-- ===== src/Api/Bookings/Checkout/Frame.antt =====
-- What a checkout may change.
use slot_booking.Base.{
  ℕ, ◌≡◌, ◌⊎◌, inl, inr, refl, sym, ap, ◌∙◌, subst, String, false, some, Bool-cases, Option-cases,
  ◌==◌, arith,
}
use slot_booking.Models.{
  Database, Booking, PaymentProvider, get_booking, get_row, put_booking, is_cancelled, is_paid,
}
use slot_booking.Models.Laws.{get_row-key, get_row-put_row_self, get_row-put_row_ne}
use slot_booking.Effects.{Services, World, Action, Result, ok, err}
use slot_booking.Api.Bookings.Checkout.{
  BookingCheckoutRequest, InitiatePaymentRequest, InitiatePaymentResponse, checkout_booking,
  initiate_checkout, set_payment_id, payment_request, payment_id, provider_of,
}

-- The bookings of two databases, but for the payment id of one.
abbrev pub SameBut : (user k j : ℕ) → Booking → Database → Type 0
SameBut user k j b db =
    (get_booking j db ≡ some b)
    ⊎ ((j ≡ k)
        × (b.user_id ≡ user)
        × (is_cancelled b.status ≡ false)
        × (is_paid b.payment_status ≡ false)
        × (text : String) × (get_booking j db
            ≡ some (record b { external_payment_id = some text })))

set_payment_id_self :
    (k : ℕ) (text : String) (db : Database) (b : Booking)
    → get_booking k db ≡ some b
    → get_booking k (set_payment_id k text db) ≡ some (record b { external_payment_id = some text })
set_payment_id_self k text db b found =
    let key : Booking → ℕ = λ b. b.id in
    let at : b.id ≡ k = get_row-key key k db.bookings {x = b} found in
    let b' = record b { external_payment_id = some text } in
    let put : get_booking k (put_booking b' db) ≡ some b' =
      subst (λ i. get_booking i (put_booking b' db) ≡ some b') at
        (get_row-put_row_self key b' b db.bookings
          (subst (λ i. get_row key i db.bookings ≡ some b) (sym at) found)) in
    ground (arith, found, put)

set_payment_id_ne :
    (k j : ℕ) (text : String) (db : Database)
    → ¬ (j ≡ k)
    → get_booking j (set_payment_id k text db) ≡ get_booking j db
set_payment_id_ne k j text db ne = elim (Option-cases (get_booking k db)) [
  | inl absent ↦ ground arith
  | inr (b, found) ↦
      let key : Booking → ℕ = λ b. b.id in
      let at : b.id ≡ k = get_row-key key k db.bookings {x = b} found in
      let b' = record b { external_payment_id = some text } in
      let put : get_booking j (put_booking b' db) ≡ get_booking j db =
        get_row-put_row_ne key j b' db.bookings (λ e. ne (e ∙ at)) in
      ground (arith, found, put)
]

module _ {s : Services}
    (initiate : PaymentProvider → InitiatePaymentRequest → Action (World s) InitiatePaymentResponse)
    (leaves : (q : PaymentProvider) (r : InitiatePaymentRequest) (w : World s)
      → (initiate q r w).1.db.bookings ≡ w.db.bookings) where
  initiate_checkout_frame :
      (k user j : ℕ) (payload : BookingCheckoutRequest) (q : PaymentProvider) (b c : Booking)
      (w : World s)
      → get_booking j w.db ≡ some b
      → get_booking k w.db ≡ some c
      → c.user_id ≡ user
      → is_cancelled c.status ≡ false
      → is_paid c.payment_status ≡ false
      → SameBut user k j b (initiate_checkout initiate k payload q c w).1.db
  unfolding initiate_checkout
  initiate_checkout_frame k user j payload q b c w there found own still unpaid =
      elim (Bool-cases (c.amount_minor == 0)) [
        | inl free ↦ inl (ground arith)
        | inr dear ↦ after (initiate q (payment_request payload q c) w) refl dear
      ]
    where
      after :
          (r : Result InitiatePaymentResponse × World s)
          → initiate q (payment_request payload q c) w ≡ r
          → (c.amount_minor == 0) ≡ false
          → SameBut user k j b (initiate_checkout initiate k payload q c w).1.db
      after (err d, v) e dear =
          let same : (initiate_checkout initiate k payload q c w).1.db.bookings ≡ w.db.bookings =
            ground (arith, leaves q (payment_request payload q c) w) in
          inl (ap (get_row (λ b. b.id) j) same ∙ there)
      after (ok a, v) e dear =
          let text = payment_id a in
          let result : (initiate_checkout initiate k payload q c w).1.db
              ≡ set_payment_id k text v.db =
            ground arith in
          let same : v.db.bookings ≡ w.db.bookings =
            ap (λ x. x.1.db.bookings) (sym e) ∙ leaves q (payment_request payload q c) w in
          let here = ap (get_row (λ b. b.id) j) same ∙ there in
          subst (SameBut user k j b) (sym result) (elim (Bool-cases (j == k)) [
            | inr differ ↦ inl (set_payment_id_ne k j text v.db (λ at. ground arith) ∙ here)
            | inl at ↦
                let place : j ≡ k = ground arith in
                let row : c ≡ b = ground (arith, ap (λ i. get_booking i w.db) place) in
                inr (
                  place,
                  ap (λ x. x.user_id) (sym row) ∙ own,
                  ap (λ x. is_cancelled x.status) (sym row) ∙ still,
                  ap (λ x. is_paid x.payment_status) (sym row) ∙ unpaid,
                  text,
                  ap (λ i. get_booking i (set_payment_id k text v.db)) place
                      ∙ set_payment_id_self k text v.db b
                          (ap (λ i. get_booking i v.db) (sym place) ∙ here),
                )
          ])

  -- A checkout, whatever it is answered, leaves every booking as it is, but for the external payment
  -- id of the one that is checked out, which is then the caller's, not cancelled and not paid; if the
  -- provider's initiation leaves the bookings alone.
  pub checkout_booking_frame :
      (k user j : ℕ) (payload : BookingCheckoutRequest) (b : Booking) (w : World s)
      → get_booking j w.db ≡ some b
      → SameBut user k j b (checkout_booking initiate k payload user w).1.db
  unfolding checkout_booking initiate_checkout
  checkout_booking_frame k user j payload b w there = elim (Option-cases (get_booking k w.db)) [
    | inl absent ↦ inl (ground arith)
    | inr (c, found) ↦ elim (Bool-cases (c.user_id == user)) [
      | inr foreign ↦ inl (ground arith)
      | inl own ↦ elim (Bool-cases (is_cancelled c.status)) [
        | inl cancelled ↦ inl (ground arith)
        | inr still ↦ elim (Bool-cases (is_paid c.payment_status)) [
          | inl paid ↦ inl (ground arith)
          | inr unpaid ↦ elim (Option-cases (provider_of payload.provider)) [
            | inl unknown ↦ inl (ground arith)
            | inr (q, known) ↦
                let last =
                  initiate_checkout_frame k user j payload q b c w there found (ground arith) still
                    unpaid in
                let same : (initiate_checkout initiate k payload q c w).1.db
                    ≡ (checkout_booking initiate k payload user w).1.db =
                  ground arith in
                subst (SameBut user k j b) same last
          ]
        ]
      ]
    ]
  ]
