-- ===== src/Marketing/Claims.antt =====
-- src/workers/marketing/crons/send-tick.service.ts: what the claims do to the windows of the providers.
use notaryday_backend.Common.{
  count, ℕ, suc, ◌+◌, ◌≤◌, ◌≡◌, ◌≢◌, refl, inl, inr, Bool, false, ◌==◌, List, [], ◌∷◌, some, ap,
  ◌∙◌, length, All, any, Bool-cases, arith,
}
use notaryday_backend.Marketing.{Recipient, EmailProvider, Crm, sending}
use notaryday_backend.Marketing.Ticks.{
  in_window, is_claimable, claim_row, claim, claim_all, roll_over,
}

count-cons : {A : Type 0} (q : A → Bool) (x : A) (xs : List A) → count q (x ∷ xs) ≤ suc (count q xs)
unfolding count
count-cons q x xs = ground arith

cons-count : {A : Type 0} (q : A → Bool) (x : A) (xs : List A) → count q xs ≤ count q (x ∷ xs)
unfolding count
cons-count q x xs = ground arith

cons_mono :
    {A : Type 0} (q : A → Bool) (x : A) (xs ys : List A) (n : ℕ)
    → count q xs ≤ count q ys + n
    → count q (x ∷ xs) ≤ count q (x ∷ ys) + n
unfolding count
cons_mono q x xs ys n h = ground (arith, h)

-- A claim adds one recipient to the window at most.
count-claim_row :
    (now id provider_id : ℕ) (rs : List Recipient)
    → count (in_window now provider_id) (claim_row now id rs)
      ≤ count (in_window now provider_id) rs + 1
unfolding claim_row
count-claim_row now id provider_id [] = omega arith
count-claim_row now id provider_id (r ∷ rs) =
    let rest = count-claim_row now id provider_id rs in
    elim (Bool-cases (is_claimable id r)) [
      | inl e ↦ rw e (
          let after =
            count-cons (in_window now provider_id)
              (record r { status = sending; claimed_at = some now }) rs in
          let kept = cons-count (in_window now provider_id) r rs in omega arith)
      | inr e ↦ rw e (cons_mono (in_window now provider_id) r (claim_row now id rs) rs 1 rest)
    ]

count-claim :
    (queue_up : Bool) (now id provider_id : ℕ) (s : Crm)
    → count (in_window now provider_id) (claim queue_up now id s).recipients
      ≤ count (in_window now provider_id) s.recipients + 1
unfolding claim
count-claim queue_up now id provider_id s =
    let one = count-claim_row now id provider_id s.recipients in ground (arith, one)

pub count-claim_all :
    (queue_up : Bool) (now provider_id : ℕ) (rs : List Recipient) (s : Crm)
    → count (in_window now provider_id) (claim_all queue_up now rs s).recipients
      ≤ count (in_window now provider_id) s.recipients + length rs
unfolding claim_all
count-claim_all queue_up now provider_id [] s = omega arith
count-claim_all queue_up now provider_id (r ∷ rs) s =
    let first = count-claim queue_up now r.id provider_id s in
    let rest = count-claim_all queue_up now provider_id rs (claim queue_up now r.id s) in
    omega arith

pub roll_over_recipients :
    (now : ℕ) (p : EmailProvider) (s : Crm) → (roll_over now p s).recipients ≡ s.recipients
unfolding roll_over
roll_over_recipients now p s = ground arith

-- Every row has the provider that its identifier stands for, as where identifiers are not shared.
abbrev pub IsOwned : (ℕ → ℕ) → List Recipient → Type 0
IsOwned owner rs = All (λ r. r.provider_ref ≡ owner r.id) rs

claim_row-IsOwned :
    (owner : ℕ → ℕ) (now id : ℕ) (rs : List Recipient)
    → IsOwned owner rs
    → IsOwned owner (claim_row now id rs)
unfolding claim_row
claim_row-IsOwned owner now id [] h = tt
claim_row-IsOwned owner now id (r ∷ rs) (h, hs) = elim (Bool-cases (is_claimable id r)) [
  | inl e ↦ rw e (h, hs)
  | inr e ↦ rw e (h, claim_row-IsOwned owner now id rs hs)
]

count_cong :
    {A : Type 0} (q : A → Bool) (x y : A) (xs ys : List A)
    → q x ≡ q y
    → count q xs ≡ count q ys
    → count q (x ∷ xs) ≡ count q (y ∷ ys)
unfolding count
count_cong q x y xs ys h k = rw (h, k) refl

-- A claim for one provider leaves the window of another alone.
claim_row_other :
    (owner : ℕ → ℕ) (now id provider_id : ℕ) (rs : List Recipient)
    → IsOwned owner rs
    → owner id ≢ provider_id
    → count (in_window now provider_id) (claim_row now id rs) ≡ count (in_window now provider_id) rs
unfolding claim_row
claim_row_other owner now id provider_id [] h other = refl
claim_row_other owner now id provider_id (r ∷ rs) (h, hs) other =
    let rest = claim_row_other owner now id provider_id rs hs other in
    elim (Bool-cases (is_claimable id r)) [
      | inr e ↦ rw e (count_cong (in_window now provider_id) r r _ rs refl rest)
      | inl e ↦
          let same : r.id ≡ id = ground (arith, e) in
          let out : (r.provider_ref == provider_id) ≡ false =
            ground (arith, other, h ∙ ap owner same) in
          rw e (
            count_cong (in_window now provider_id)
              (record r { status = sending; claimed_at = some now }) r rs rs (rw out refl) refl)
    ]

claim-IsOwned :
    (queue_up : Bool) (owner : ℕ → ℕ) (now id : ℕ) (s : Crm)
    → IsOwned owner s.recipients
    → IsOwned owner (claim queue_up now id s).recipients
unfolding claim
claim-IsOwned queue_up owner now id s h = elim (Bool-cases (any (is_claimable id) s.recipients)) [
  | inl e ↦ rw e (claim_row-IsOwned owner now id s.recipients h)
  | inr e ↦ rw e h
]

claim_other :
    (queue_up : Bool) (owner : ℕ → ℕ) (now id provider_id : ℕ) (s : Crm)
    → IsOwned owner s.recipients
    → owner id ≢ provider_id
    → count (in_window now provider_id) (claim queue_up now id s).recipients
      ≡ count (in_window now provider_id) s.recipients
unfolding claim
claim_other queue_up owner now id provider_id s h other =
    elim (Bool-cases (any (is_claimable id) s.recipients)) [
      | inl e ↦ rw e (claim_row_other owner now id provider_id s.recipients h other)
      | inr e ↦ rw e refl
    ]

pub claim_all-IsOwned :
    (queue_up : Bool) (owner : ℕ → ℕ) (now : ℕ) (rs : List Recipient) (s : Crm)
    → IsOwned owner s.recipients
    → IsOwned owner (claim_all queue_up now rs s).recipients
unfolding claim_all
claim_all-IsOwned queue_up owner now [] s h = h
claim_all-IsOwned queue_up owner now (r ∷ rs) s h =
    claim_all-IsOwned queue_up owner now rs (claim queue_up now r.id s)
      (claim-IsOwned queue_up owner now r.id s h)

pub claim_all_other :
    (queue_up : Bool) (owner : ℕ → ℕ) (now provider_id : ℕ) (rs : List Recipient) (s : Crm)
    → IsOwned owner s.recipients
    → All (λ r. owner r.id ≢ provider_id) rs
    → count (in_window now provider_id) (claim_all queue_up now rs s).recipients
      ≡ count (in_window now provider_id) s.recipients
unfolding claim_all
claim_all_other queue_up owner now provider_id [] s owned h = refl
claim_all_other queue_up owner now provider_id (r ∷ rs) s owned (h, hs) =
    claim_all_other queue_up owner now provider_id rs (claim queue_up now r.id s)
      (claim-IsOwned queue_up owner now r.id s owned) hs
    ∙ claim_other queue_up owner now r.id provider_id s owned h
