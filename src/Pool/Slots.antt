-- ===== src/Pool/Slots.antt =====
-- internal/pool/pool.go: `TryAcquire` and `Release` by any number of goroutines at once. A
-- goroutine loads the counter, tests it and swaps it in separate steps, and others run in between.
use mirasim2api.Base.{
  ℕ, zero, suc, ◌≡◌, refl, sym, ap, subst, ◌∙◌, ◌≢◌, Bool, true, false, ◌&&◌, List, ◌∷◌, ◌++◌,
  arith, count, count-append, replicate,
}
use mirasim2api.Base.Int.{ℤ, pos, negsuc, ◌+ℤ◌, ◌≤ℤ◌, ltb_ℤ, leb_ℤ}

-- Where a goroutine stands: outside, between the load and the swap, holding a slot, or turned away.
pub data Phase : Type 0 where
  idle holding refused : Phase
  loaded : ℤ → Phase

pub record Slots : Type 0 where
  pub inflight : ℤ
  pub phases : List Phase

abbrev pub is_holding : Phase → Bool
is_holding holding = true
is_holding _ = false

-- `max > 0 && cur >= int64(max)`
abbrev pub is_full : ℤ → ℤ → Bool
is_full max cur = ltb_ℤ (pos 0) max && leb_ℤ max cur

-- One atomic step of the goroutine between `xs` and `ys`.
pub data Step (max : ℤ) (s t : Slots) : Type 0 where
  load :
      (xs ys : List Phase)
      → s.phases ≡ xs ++ idle ∷ ys
      → t ≡ record s { phases = xs ++ loaded s.inflight ∷ ys }
      → Step max s t
  refuse :
      (xs ys : List Phase) (cur : ℤ)
      → s.phases ≡ xs ++ loaded cur ∷ ys
      → is_full max cur ≡ true
      → t ≡ record s { phases = xs ++ refused ∷ ys }
      → Step max s t
  swap :
      (xs ys : List Phase) (cur : ℤ)
      → s.phases ≡ xs ++ loaded cur ∷ ys
      → is_full max cur ≡ false
      → s.inflight ≡ cur
      → t ≡ record { inflight = cur +ℤ pos 1; phases = xs ++ holding ∷ ys }
      → Step max s t
  retry :
      (xs ys : List Phase) (cur : ℤ)
      → s.phases ≡ xs ++ loaded cur ∷ ys
      → s.inflight ≢ cur
      → t ≡ record s { phases = xs ++ idle ∷ ys }
      → Step max s t
  release :
      (xs ys : List Phase)
      → s.phases ≡ xs ++ holding ∷ ys
      → t ≡ record { inflight = s.inflight +ℤ negsuc 0; phases = xs ++ idle ∷ ys }
      → Step max s t

pub data Reach (max : ℤ) (s : Slots) : Slots → Type 0 where
  here : Reach max s s
  next : {t u : Slots} → Reach max s t → Step max t u → Reach max s u

-- The counter is the number of goroutines that hold a slot, and keeps to the maximum.
pub record Counts (max : ℤ) (s : Slots) : Type 0 where
  pub counted : s.inflight ≡ pos (count is_holding s.phases)
  pub capped : ltb_ℤ (pos 0) max ≡ true → s.inflight ≤ℤ max

-- A goroutine that neither takes nor gives back a slot.
quiet :
    (ph ph' : Phase) (xs ys : List Phase)
    → is_holding ph ≡ false
    → is_holding ph' ≡ false
    → count is_holding (xs ++ ph ∷ ys) ≡ count is_holding (xs ++ ph' ∷ ys)
quiet ph ph' xs ys h h' =
    ground (arith, count-append is_holding xs (ph ∷ ys), count-append is_holding xs (ph' ∷ ys))

-- One that takes a slot, or gives it back when the two are read in the other order.
taken :
    (ph : Phase) (xs ys : List Phase)
    → is_holding ph ≡ false
    → count is_holding (xs ++ holding ∷ ys) ≡ suc (count is_holding (xs ++ ph ∷ ys))
taken ph xs ys h =
    ground (arith, count-append is_holding xs (ph ∷ ys), count-append is_holding xs (holding ∷ ys))

quiet-Counts :
    (max : ℤ) (s : Slots) (ph ph' : Phase) (xs ys : List Phase)
    → s.phases ≡ xs ++ ph ∷ ys
    → is_holding ph ≡ false
    → is_holding ph' ≡ false
    → Counts max s
    → Counts max (record s { phases = xs ++ ph' ∷ ys })
quiet-Counts max s ph ph' xs ys e h h' v = record {
  counted = v.counted ∙ ap (λ l. pos (count is_holding l)) e ∙ ap pos (quiet ph ph' xs ys h h');
  capped = v.capped;
}

Step-Counts : (max : ℤ) (s t : Slots) → Step max s t → Counts max s → Counts max t
Step-Counts max s t (load xs ys e f) v =
    rw f (quiet-Counts max s idle (loaded s.inflight) xs ys e refl refl v)
Step-Counts max s t (refuse xs ys cur e g f) v =
    rw f (quiet-Counts max s (loaded cur) refused xs ys e refl refl v)
Step-Counts max s t (swap xs ys cur e g h f) v = rw f (record {
  counted = ground (arith, v.counted, ap (count is_holding) e, taken (loaded cur) xs ys refl);
  capped = λ m. ground (arith, v.counted);
})
Step-Counts max s t (retry xs ys cur e g f) v =
    rw f (quiet-Counts max s (loaded cur) idle xs ys e refl refl v)
Step-Counts max s t (release xs ys e f) v =
    let n = count is_holding (xs ++ idle ∷ ys) in
    let c : s.inflight ≡ pos (suc n) =
      v.counted ∙ ap (λ l. pos (count is_holding l)) e ∙ ap pos (taken idle xs ys refl) in
    rw f (record {
      counted = rw c (ground arith);
      capped = λ m. let k : s.inflight ≤ℤ max = v.capped m in ground (arith, c);
    })

none_held : (n : ℕ) → count is_holding (replicate n idle) ≡ 0
none_held zero = refl
none_held (suc n) = none_held n

Reach-Counts : (max : ℤ) {s t : Slots} → Reach max s t → Counts max s → Counts max t
Reach-Counts max here v = v
Reach-Counts max (next r st) v = Step-Counts max _ _ st (Reach-Counts max r v)

-- However the steps of `n` goroutines interleave, the counter is the number of those that hold a
-- slot, and with a positive maximum never more of them than that hold one.
pub slots_bounded :
    (max : ℤ) (n : ℕ) (t : Slots)
    → Reach max (record { inflight = pos 0; phases = replicate n idle }) t
    → (t.inflight ≡ pos (count is_holding t.phases))
      × (ltb_ℤ (pos 0) max ≡ true → pos (count is_holding t.phases) ≤ℤ max)
slots_bounded max n t r =
    let v =
      Reach-Counts max r
        (record { counted = ap pos (sym (none_held n)); capped = λ h. ground arith }) in
    (v.counted, λ h. subst (λ k. k ≤ℤ max) v.counted (v.capped h))
