-- ===== src/Booking/Put.antt =====
-- What the upsert of a booking does to the bookings.
use finance.Prelude.{
  ◌≤◌, ◌≡◌, refl, arith, Bool, true, not, ◌&&◌, List, [], ◌∷◌, String, str_eq_iff, if◌then◌else◌,
  Bool-cases, inl, inr, ◌==◌, ◌∙◌,
}
use finance.Prelude.Sums.{count}
use finance.Database.{IsClient}
use finance.Close.Create.{Env}
use finance.Booking.{BookingRow, BookingTables}
use finance.Booking.Assign.{AssignManualBookingInput, booking_of, Chosen, booking_row, rebook}
use finance.Booking.Run.{put_booking}

-- The booking is that of the chosen rows, but for its identifier.
abbrev pub IsBooking : Env → AssignManualBookingInput → Chosen → BookingRow → Type 0
IsBooking env input c b = b ≡ record (booking_row env input c) { id = b.id }

pub count-imp {ℓ} :
    {A : Type ℓ} (p q : A → Bool) (xs : List A) → ((x : A) → p x ≡ q x) → count p xs ≡ count q xs
count-imp p q [] h = refl
count-imp p q (x ∷ xs) h = rw (h x, count-imp p q xs h) refl

abbrev pub transaction_id_of : Chosen → String
transaction_id_of c = c.transaction.facts.id

-- What `put_booking` has done.
pub record IsPut (env : Env) (db : BookingTables) (input : AssignManualBookingInput) (c : Chosen)
    (booked : BookingRow × List BookingRow) : Type 0 where
  pub row_booked : IsBooking env input c booked.0
  pub row_alone :
      count (booking_of (transaction_id_of c)) db.bookings ≤ 1
      → count (booking_of (transaction_id_of c)) booked.1 ≡ 1
  pub rest_kept :
      (q : BookingRow → Bool)
      → count (λ b. not (booking_of (transaction_id_of c) b) && q b) booked.1
        ≡ count (λ b. not (booking_of (transaction_id_of c) b) && q b) db.bookings

module _ (env : Env) (lawful : IsClient env.client) (db : BookingTables)
    (input : AssignManualBookingInput) (c : Chosen) where
  abbrev own_booking : BookingRow → Bool
  own_booking = booking_of (transaction_id_of c)

  abbrev renewed : BookingRow → BookingRow
  renewed b = if own_booking b then rebook env input c b else b

  renewed_own : (b : BookingRow) → own_booking (renewed b) ≡ own_booking b
  renewed_own b = elim (Bool-cases (own_booking b)) [
    | inl e ↦ rw (e, e) refl
    | inr e ↦ rw (e, e) refl
  ]

  renewed_other :
      (q : BookingRow → Bool) (b : BookingRow)
      → (not (own_booking (renewed b)) && q (renewed b)) ≡ (not (own_booking b) && q b)
  renewed_other q b = elim (Bool-cases (own_booking b)) [
    | inl e ↦ rw (e, e) refl
    | inr e ↦ rw (e, e) refl
  ]

  IsPut-new : count own_booking db.bookings ≡ 0 → IsPut env db input c (put_booking env db input c)
  unfolding put_booking booking_row
  IsPut-new none_yet =
      let (row_is, counts) =
        lawful.upsert_new own_booking (booking_row env input c) (rebook env input c) db.bookings
          none_yet in
      let own : own_booking (booking_row env input c) ≡ true =
        (str_eq_iff (transaction_id_of c) (transaction_id_of c)).1 refl in
      record {
        row_booked = rw row_is refl;
        row_alone = λ h. rw (counts own_booking, own, none_yet) refl;
        rest_kept = λ q. rw (counts (λ b. not (own_booking b) && q b), own) refl;
      }

  IsPut-old : 1 ≤ count own_booking db.bookings → IsPut env db input c (put_booking env db input c)
  unfolding put_booking booking_row
  IsPut-old there =
      let (b, (found, (occurs, (row_is, counts)))) =
        lawful.upsert_old own_booking (booking_row env input c) (rebook env input c) db.bookings
          there in
      let same : b.transaction_id ≡ transaction_id_of c = (str_eq_iff _ _).0 found in
      record {
        row_booked = rw (row_is, same) refl;
        row_alone = λ h.
            let kept =
              count-imp (λ x. own_booking (renewed x)) own_booking db.bookings renewed_own in
            omega (arith, counts own_booking, kept, h, there);
        rest_kept = λ q.
            counts (λ x. not (own_booking x) && q x)
            ∙ count-imp (λ x. not (own_booking (renewed x)) && q (renewed x))
                (λ x. not (own_booking x) && q x) db.bookings (renewed_other q);
      }

  pub put-IsPut : IsPut env db input c (put_booking env db input c)
  put-IsPut = elim (Bool-cases (count own_booking db.bookings == 0)) [
    | inl e ↦ IsPut-new (ground arith)
    | inr e ↦ IsPut-old (ground arith)
  ]
