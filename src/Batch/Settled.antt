-- ===== src/Batch/Settled.antt =====
-- The batches of settleInBatches against one pass over the items, batch after batch.
use auth_sso.Base.{
  ℕ, zero, suc, ◌+◌, ◌≤◌, ◌<◌, Bool, true, false, ◌≡◌, refl, sym, ap, ◌∙◌, subst, ◌⊎◌, inl, inr,
  List, [], ◌∷◌, ◌++◌, ltb, if_cases, Among, Among-append, length-append, take, drop, length, arith,
}
use mathlib.Core.List.{Permᴰ}
use auth_sso.Batch.{BatchOutcome, batch_size, tally, run_batch, settle_from, settle_in_batches}

drop-past : {A : Type 0} (n : ℕ) (xs : List A) → length xs ≤ n → drop n xs ≡ []
drop-past zero [] h = refl
drop-past zero (x ∷ xs) h = absurd (omega arith)
drop-past (suc n) [] h = refl
drop-past (suc n) (x ∷ xs) h = drop-past n xs (omega arith)

drop-nil : {A : Type 0} (n : ℕ) → drop {A = A} n [] ≡ []
drop-nil zero = refl
drop-nil (suc n) = refl

drop-add : {A : Type 0} (m n : ℕ) (xs : List A) → drop (m + n) xs ≡ drop n (drop m xs)
drop-add zero n xs = ap (λ k. drop k xs) (omega arith)
drop-add (suc m) n [] = drop-nil (suc m + n) ∙ sym (drop-nil n)
drop-add (suc m) n (x ∷ xs) =
    let next : suc m + n ≡ suc (m + n) = omega arith in
    ap (λ k. drop k (x ∷ xs)) next ∙ drop-add m n xs

-- The items in an order in which their operations may take effect: batch after batch of fifty, and
-- the items of a batch in any order.
pub data InBatches {T : Type 0} : List T → List T → Type 0 where
  nothing : InBatches [] []
  batch :
      {items xs ys : List T}
      → Permᴰ (take batch_size items) xs
      → InBatches (drop batch_size items) ys
      → InBatches items (xs ++ ys)

module _ {T : Type 0} where
  Permᴰ-Among : {xs ys : List T} (a : T) → Permᴰ xs ys → Among a xs → Among a ys
  Permᴰ-Among a Permᴰ.nil m = m
  Permᴰ-Among a (Permᴰ.cons e p) (inl q) = inl (q ∙ e)
  Permᴰ-Among a (Permᴰ.cons e p) (inr m) = inr (Permᴰ-Among a p m)
  Permᴰ-Among a (Permᴰ.swap e f) (inl q) = inr (inl (q ∙ e))
  Permᴰ-Among a (Permᴰ.swap e f) (inr (inl q)) = inl (q ∙ f)
  Permᴰ-Among a (Permᴰ.swap e f) (inr (inr m)) = inr (inr m)
  Permᴰ-Among a (Permᴰ.trans p q) m = Permᴰ-Among a q (Permᴰ-Among a p m)

  Permᴰ-length : {xs ys : List T} → Permᴰ xs ys → length ys ≡ length xs
  Permᴰ-length Permᴰ.nil = refl
  Permᴰ-length (Permᴰ.cons e p) = ap suc (Permᴰ-length p)
  Permᴰ-length (Permᴰ.swap e f) = refl
  Permᴰ-length (Permᴰ.trans p q) = Permᴰ-length q ∙ Permᴰ-length p

  take_or_drop :
      (n : ℕ) (xs : List T) (a : T) → Among a xs → Among a (take n xs) ⊎ Among a (drop n xs)
  take_or_drop zero xs a m = inr m
  take_or_drop (suc n) [] a m = absurd m
  take_or_drop (suc n) (x ∷ xs) a (inl e) = inl (inl e)
  take_or_drop (suc n) (x ∷ xs) a (inr m) = elim (take_or_drop n xs a m) [
    | inl t ↦ inl (inr t)
    | inr d ↦ inr d
  ]

  take_and_drop : (n : ℕ) (xs : List T) → length (take n xs) + length (drop n xs) ≡ length xs
  take_and_drop zero xs = omega arith
  take_and_drop (suc n) [] = refl
  take_and_drop (suc n) (x ∷ xs) = omega (arith, take_and_drop n xs)

  pub InBatches-Among :
      {items sched : List T} (a : T) → InBatches items sched → Among a items → Among a sched
  InBatches-Among a nothing m = m
  InBatches-Among a (batch {items} {xs} {ys} p b) m =
      (Among-append a xs ys).1 (elim (take_or_drop batch_size items a m) [
        | inl t ↦ inl (Permᴰ-Among a p t)
        | inr d ↦ inr (InBatches-Among a b d)
      ])

  pub InBatches-length :
      {items sched : List T} → InBatches items sched → length sched ≡ length items
  InBatches-length nothing = refl
  InBatches-length (batch {items} {xs} {ys} p b) = omega (
    arith,
    length-append xs ys,
    Permᴰ-length p,
    InBatches-length b,
    take_and_drop batch_size items,
  )

module _ {T S : Type 0} (operation : T → S → Bool × S) where
  -- The reference: each item in its turn, counted at once.
  unfoldable pub one_by_one : List T → BatchOutcome → S → BatchOutcome × S
  one_by_one [] o s = (o, s)
  one_by_one (item ∷ items) o s =
      one_by_one items (tally ((operation item s).0 ∷ []) o) (operation item s).1

  tally-one :
      (b : Bool) (bs : List Bool) (o : BatchOutcome)
      → tally (b ∷ bs) o ≡ tally bs (tally (b ∷ []) o)
  tally-one true bs o = refl
  tally-one false bs o = refl

  tally-counts :
      (b : Bool) (o : BatchOutcome)
      → (tally (b ∷ []) o).succeeded + (tally (b ∷ []) o).failed ≡ 1 + (o.succeeded + o.failed)
  tally-counts true o = omega arith
  tally-counts false o = omega arith

  one_by_one-counts :
      (items : List T) (o : BatchOutcome) (s : S)
      → (one_by_one items o s).0.succeeded + (one_by_one items o s).0.failed
        ≡ length items + (o.succeeded + o.failed)
  unfolding one_by_one
  one_by_one-counts [] o s = omega arith
  one_by_one-counts (item ∷ items) o s =
      one_by_one-counts items (tally ((operation item s).0 ∷ []) o) (operation item s).1
      ∙ omega (arith, tally-counts (operation item s).0 o)

  one_by_one-append :
      (order : List T → List T) (xs ys : List T) (o : BatchOutcome) (s : S)
      → one_by_one (xs ++ ys) o s
        ≡ one_by_one ys
            (tally (run_batch operation order xs s).0 o)
            (run_batch operation order xs s).1
  unfolding one_by_one
  one_by_one-append order [] ys o s = refl
  one_by_one-append order (item ∷ xs) ys o s =
      one_by_one-append order xs ys (tally ((operation item s).0 ∷ []) o) (operation item s).1
      ∙ ap (λ c. one_by_one ys c (run_batch operation order xs (operation item s).1).1)
          (sym (tally-one (operation item s).0 _ o))

  -- A pass over the items in an order that batches allow.
  abbrev pub IsPass : List T → BatchOutcome → S → BatchOutcome × S → Type 0
  IsPass items o s r = (sched : List T) × InBatches items sched × (r ≡ one_by_one sched o s)

  module _ (order : List T → List T) (mixes : (xs : List T) → Permᴰ xs (order xs)) where
    settle_from-IsPass :
        (fuel index : ℕ) (items : List T) (o : BatchOutcome) (s : S)
        → length items < fuel + index
        → IsPass (drop index items) o s (settle_from operation order fuel index items o s)
    unfolding settle_from one_by_one
    settle_from-IsPass zero index items o s h = (
      [],
      subst (λ xs. InBatches xs []) (sym (drop-past index items (omega arith))) InBatches.nothing,
      refl,
    )
    settle_from-IsPass (suc fuel) index items o s h =
        if_cases (IsPass (drop index items) o s) (ltb index (length items))
          (λ _.
            let now = order (take batch_size (drop index items)) in
            let (later, rest, same) =
              settle_from-IsPass fuel (index + batch_size) items
                (tally (run_batch operation order now s).0 o) (run_batch operation order now s).1
                (omega arith) in
            (
              now ++ later,
              InBatches.batch (mixes (take batch_size (drop index items)))
                  (subst (λ xs. InBatches xs later) (drop-add index batch_size items) rest),
              same ∙ sym (one_by_one-append order now later o s),
            ))
          (λ past. (
            [],
            subst (λ xs. InBatches xs []) (sym (drop-past index items (ground arith)))
                InBatches.nothing,
            refl,
          ))

    -- In whatever order the operations of a batch take effect, the batches come one after the other
    -- and every item is run exactly once: the whole is one pass over the items, in an order that
    -- permutes them within batches of fifty, and the two counts add up to the number of items.
    pub settle_in_batches_once :
        (items : List T) (s : S)
        → IsPass items
            (record { succeeded = 0; failed = 0 })
            s
            (settle_in_batches operation order items s)
          × ((settle_in_batches operation order items s).0.succeeded
                + (settle_in_batches operation order items s).0.failed
              ≡ length items)
    unfolding settle_in_batches
    settle_in_batches_once items s =
        let (sched, b, same) =
          settle_from-IsPass (1 + length items) 0 items (record { succeeded = 0; failed = 0 }) s
            (omega arith) in
        (
          (sched, b, same),
          ap (λ r. r.0.succeeded + r.0.failed) same
              ∙ one_by_one-counts sched (record { succeeded = 0; failed = 0 }) s
              ∙ omega (arith, InBatches-length b),
        )
