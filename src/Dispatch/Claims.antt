-- ===== src/Dispatch/Claims.antt =====
-- Which dispatches one tick picks.
use simple_rss_notifications.Base.{
  ℕ, zero, suc, ◌≤◌, ◌≡◌, ◌⊎◌, inl, inr, refl, true, List, [], ◌∷◌, ==_refl, take, length,
  length-take, length-order_by, length-select-take, length-select-order_by, length-select-select,
  min, Bool, select, order_by, order_by-IsOrdered, IsOrdered, All, All-imp, All-zip, All-take,
  All-order_by, All-of_order_by, All-of_select, select-All, arith,
}
use simple_rss_notifications.Db.{Dispatch}
use simple_rss_notifications.Dispatch.{dispatch_batch_size, is_due, is_picked, picked}

abbrev pub at : Dispatch → ℕ
at d = d.scheduled_at

-- A row of an ordered list is among the first `n`, or none of those is younger.
take-oldest :
    (n : ℕ) (ds : List Dispatch)
    → IsOrdered at ds
    → All
        (λ d.
          (is_picked (take n ds) d ≡ true)
          ⊎ All (λ (p : Dispatch). p.scheduled_at ≤ d.scheduled_at) (take n ds))
        ds
take-oldest n [] h = tt
take-oldest zero (d ∷ ds) h = (inr tt, All-imp (λ x u. inr tt) ds (take-oldest zero ds h.1))
take-oldest (suc n) (d ∷ ds) h = (
  inl (rw (==_refl d.id) refl),
  All-zip (λ x older known. later x older known) ds h.0 (take-oldest n ds h.1),
)
  where
    later :
        (x : Dispatch)
        → d.scheduled_at ≤ x.scheduled_at
        → (is_picked (take n ds) x ≡ true)
          ⊎ All (λ (p : Dispatch). p.scheduled_at ≤ x.scheduled_at) (take n ds)
        → (is_picked (take (suc n) (d ∷ ds)) x ≡ true)
          ⊎ All (λ (p : Dispatch). p.scheduled_at ≤ x.scheduled_at) (take (suc n) (d ∷ ds))
    later x older (inl e) = inl (ground arith)
    later x older (inr a) = inr (older, a)

take-IsOrdered : (n : ℕ) (ds : List Dispatch) → IsOrdered at ds → IsOrdered at (take n ds)
take-IsOrdered zero ds h = tt
take-IsOrdered (suc n) [] h = tt
take-IsOrdered (suc n) (d ∷ ds) h =
    (All-take (λ e. d.scheduled_at ≤ e.scheduled_at) n ds h.0, take-IsOrdered n ds h.1)

-- A tick picks five dispatches, or all that are pending and due where there are fewer; each pick is
-- pending and due, and none is picked more often than it is there; they are in the order of their due
-- times; and a due dispatch that it leaves is not
-- older than any that it picks.
pub picked_oldest :
    (now : ℕ) (ds : List Dispatch)
    → (length (picked now ds) ≡ min dispatch_batch_size (length (select (is_due now) ds)))
      × All (λ d. is_due now d ≡ true) (picked now ds)
      × ((p : Dispatch → Bool) → length (select p (picked now ds)) ≤ length (select p ds))
      × IsOrdered at (picked now ds)
      × All
          (λ d.
            is_due now d ≡ true
            → (is_picked (picked now ds) d ≡ true)
              ⊎ All (λ (p : Dispatch). p.scheduled_at ≤ d.scheduled_at) (picked now ds))
          ds
unfolding picked
picked_oldest now ds =
    let due = select (is_due now) ds in
    let by_time = order_by at due in
    (
      rw (length-take dispatch_batch_size by_time, length-order_by at due) refl,
      All-take (λ d. is_due now d ≡ true) dispatch_batch_size by_time
          (All-order_by (λ d. is_due now d ≡ true) at due (select-All (is_due now) ds)),
      (λ p. omega (
        arith,
        length-select-take p dispatch_batch_size by_time,
        length-select-order_by p at due,
        length-select-select p (is_due now) ds,
      )),
      take-IsOrdered dispatch_batch_size by_time (order_by-IsOrdered at due),
      All-of_select _ (is_due now) ds (
          All-of_order_by _ at due
            (take-oldest dispatch_batch_size by_time (order_by-IsOrdered at due))),
    )
