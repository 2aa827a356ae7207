-- ===== src/Batch.antt =====
-- apps/portal/src/lib/batch.ts: settleInBatches. An operation that throws answers false. The
-- operations of a batch run concurrently: each takes effect as a whole, and `order` says in which order
-- those of a batch do. The results, which are only counted, are listed in that order too.
pub mod Settled
use auth_sso.Base.{
  ℕ, zero, suc, ◌+◌, Bool, true, false, List, [], ◌∷◌, ltb, if◌then◌else◌, take, drop, length,
}

abbrev pub batch_size : ℕ
batch_size = 50

pub record BatchOutcome : Type 0 where
  pub succeeded : ℕ
  pub failed : ℕ

-- `if (ok) succeeded += 1; else failed += 1;` for each result.
abbrev pub tally : List Bool → BatchOutcome → BatchOutcome
tally [] o = o
tally (true ∷ results) o = tally results (record o { succeeded = o.succeeded + 1 })
tally (false ∷ results) o = tally results (record o { failed = o.failed + 1 })

module _ {T S : Type 0} (operation : T → S → Bool × S) (order : List T → List T) where
  abbrev pub run_batch : List T → S → List Bool × S
  run_batch [] s = ([], s)
  run_batch (item ∷ items) s =
      let (ok, after) = operation item s in
      let (results, end) = run_batch items after in (ok ∷ results, end)

  -- The loop from an index, on fuel.
  unfoldable pub settle_from : ℕ → ℕ → List T → BatchOutcome → S → BatchOutcome × S
  settle_from zero index items o s = (o, s)
  settle_from (suc fuel) index items o s =
      let (results, after) = run_batch (order (take batch_size (drop index items))) s in
      let rest = settle_from fuel (index + batch_size) items (tally results o) after in
      if ltb index (length items) then rest else (o, s)

  -- As many rounds as there are items are enough, and one for the test that ends the loop.
  unfoldable pub settle_in_batches : List T → S → BatchOutcome × S
  settle_in_batches items s =
      settle_from (1 + length items) 0 items (record { succeeded = 0; failed = 0 }) s
