-- ===== src/Payments/Fifo/Laws.antt =====
-- The loop over the lines against its specification: what each line still owes, in order.
use acrev360_backend.Base.{
  ℕ, ◌+◌, ◌-◌, min, ◌≡◌, ◌≢◌, refl, List, [], ◌∷◌, ◌++◌, arith, leb, ◌==◌, if◌then◌else◌, sum_of,
  All, sum_of-append, All-append, if-both,
}
use acrev360_backend.Models.Billing.{BillLine}
use acrev360_backend.Models.Payments.{PaymentAllocation}
use acrev360_backend.Payments.Fifo.{Progress, allocation, take_from, fifo_loop}

-- What a line still owes, by what has been paid on each line.
abbrev pub owed : (ℕ → ℕ) → BillLine → ℕ
owed paid l = l.line_amount - paid l.id

-- What the allocations put on a line.
abbrev pub on_line : ℕ → PaymentAllocation → ℕ
on_line line a = if a.bill_line == line then a.amount else 0

module _ (payment : ℕ) (paid : ℕ → ℕ) where
  -- Nothing is lost or made, and what is left over is what the lines do not owe.
  pub fifo_loop-remaining :
      (ls : List BillLine) (s : Progress)
      → let s' = fifo_loop payment paid ls s in
        (s'.remaining ≡ s.remaining - sum_of (owed paid) ls)
        × (s'.applied + s'.remaining ≡ s.applied + s.remaining)
  unfolding fifo_loop
  fifo_loop-remaining [] s = omega arith
  fifo_loop-remaining (l ∷ ls) s =
      ground (arith, fifo_loop-remaining ls s, fifo_loop-remaining ls (take_from payment paid l s))

  -- A weight that each new allocation has by its amount grows by what is applied.
  pub fifo_loop-sum :
      (w : PaymentAllocation → ℕ) (ls : List BillLine) (s : Progress)
      → ((line take id : ℕ) → w (allocation payment line take id) ≡ take)
      → let s' = fifo_loop payment paid ls s in
        sum_of w s'.table.rows + s.applied ≡ sum_of w s.table.rows + s'.applied
  unfolding fifo_loop
  fifo_loop-sum w [] s h = refl
  fifo_loop-sum w (l ∷ ls) s h =
      let take = min s.remaining (owed paid l) in
      ground (
        arith,
        fifo_loop-sum w ls s h,
        fifo_loop-sum w ls (take_from payment paid l s) h,
        sum_of-append w s.table.rows (allocation payment l.id take s.table.next ∷ []),
        h l.id take s.table.next,
      )

  -- A weight that no new allocation has does not change.
  pub fifo_loop-kept :
      (w : PaymentAllocation → ℕ) (ls : List BillLine) (s : Progress)
      → ((line take id : ℕ) → w (allocation payment line take id) ≡ 0)
      → sum_of w (fifo_loop payment paid ls s).table.rows ≡ sum_of w s.table.rows
  unfolding fifo_loop
  fifo_loop-kept w [] s h = refl
  fifo_loop-kept w (l ∷ ls) s h =
      let take = min s.remaining (owed paid l) in
      ground (
        arith,
        fifo_loop-kept w ls s h,
        fifo_loop-kept w ls (take_from payment paid l s) h,
        sum_of-append w s.table.rows (allocation payment l.id take s.table.next ∷ []),
        h l.id take s.table.next,
      )

  -- A property that each new allocation has is kept.
  pub fifo_loop-All {κ} :
      (P : PaymentAllocation → Type κ) (ls : List BillLine) (s : Progress)
      → ((line take id : ℕ) → P (allocation payment line take id))
      → All P s.table.rows
      → All P (fifo_loop payment paid ls s).table.rows
  unfolding fifo_loop
  fifo_loop-All P [] s h a = a
  fifo_loop-All P (l ∷ ls) s h a =
      let take = min s.remaining (owed paid l) in
      let kept = λ (s' : Progress). All P s'.table.rows in
      if-both kept (leb s.remaining 0) a (
        if-both kept (leb l.line_amount (paid l.id)) (fifo_loop-All P ls s h a) (
          fifo_loop-All P ls (take_from payment paid l s) h (
            All-append P s.table.rows (allocation payment l.id take s.table.next ∷ []) a
              (h l.id take s.table.next, tt))))

  -- Once nothing remains, the loop does nothing.
  fifo_loop-done :
      (ls : List BillLine) (s : Progress) → s.remaining ≡ 0 → fifo_loop payment paid ls s ≡ s
  unfolding fifo_loop
  fifo_loop-done [] s h = refl
  fifo_loop-done (l ∷ ls) s h = ground arith

  fifo_loop-append :
      (xs ys : List BillLine) (s : Progress)
      → fifo_loop payment paid (xs ++ ys) s
        ≡ fifo_loop payment paid ys (fifo_loop payment paid xs s)
  unfolding fifo_loop
  fifo_loop-append [] ys s = refl
  fifo_loop-append (l ∷ xs) ys s = ground (
    arith,
    fifo_loop-done ys s,
    fifo_loop-append xs ys s,
    fifo_loop-append xs ys (take_from payment paid l s),
  )

  -- Lines other than a given one put nothing on it.
  fifo_loop-others :
      (x : ℕ) (ls : List BillLine) (s : Progress)
      → All (λ l. l.id ≢ x) ls
      → sum_of (on_line x) (fifo_loop payment paid ls s).table.rows
        ≡ sum_of (on_line x) s.table.rows
  unfolding fifo_loop
  fifo_loop-others x [] s h = refl
  fifo_loop-others x (l ∷ ls) s h =
      let take = min s.remaining (owed paid l) in
      ground (
        arith,
        fifo_loop-others x ls s h.1,
        fifo_loop-others x ls (take_from payment paid l s) h.1,
        sum_of-append (on_line x) s.table.rows (allocation payment l.id take s.table.next ∷ []),
      )

  -- A line takes what the lines before it left, up to what it owes; the lines behind it do not
  -- change that.
  pub fifo_loop-takes :
      (xs : List BillLine) (l : BillLine) (ys : List BillLine) (s : Progress)
      → All (λ m. m.id ≢ l.id) xs
      → All (λ m. m.id ≢ l.id) ys
      → sum_of (on_line l.id) (fifo_loop payment paid (xs ++ (l ∷ ys)) s).table.rows
        ≡ sum_of (on_line l.id) s.table.rows
          + min (s.remaining - sum_of (owed paid) xs) (owed paid l)
  unfolding fifo_loop
  fifo_loop-takes xs l ys s hx hy =
      let s1 = fifo_loop payment paid xs s in
      let take = min s1.remaining (owed paid l) in
      rw (fifo_loop-append xs (l ∷ ys) s) (
        ground (
          arith,
          fifo_loop-others l.id xs s hx,
          fifo_loop-remaining xs s,
          fifo_loop-others l.id ys s1 hy,
          fifo_loop-others l.id ys (take_from payment paid l s1) hy,
          sum_of-append (on_line l.id) s1.table.rows
              (allocation payment l.id take s1.table.next ∷ []),
        ))
