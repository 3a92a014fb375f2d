-- ===== src/Planner/Conflicts.antt =====
-- src/modules/planner/planner.service.ts: the conflicts that `getToday` reports.
use mathlib.Core.List.{Memᴰ}
use notaryday_backend.Common.{
  ℕ, ◌+◌, ◌*◌, ◌≤◌, ◌<◌, ◌≡◌, ◌↔◌, ◌⊎◌, inl, inr, Option, none, some, List, [], ◌∷◌, or_else,
  Option-cases, arith,
}
use notaryday_backend.Schema.{Job}
use notaryday_backend.Planner.Today.{Conflict, conflict_between, with_conflict, conflicts, arrival}

-- From the end of the first job's block and the drive, the second is reached too late, and the
-- shortfall is the least number of whole minutes by which it would have to be moved.
pub record IsConflict (a b : Job) (c : Conflict) : Type 0 where
  pub ends : ℕ
  pub known_end : or_else a.scanback_ends_at a.signing_ends_at ≡ some ends
  pub from_first : c.from_job_id ≡ a.id
  pub to_second : c.to_job_id ≡ b.id
  pub too_late : b.appointment_time < arrival ends b
  pub enough : arrival ends b ≤ b.appointment_time + c.shortfall_mins * 60000
  pub least : b.appointment_time + c.shortfall_mins * 60000 < arrival ends b + 60000

-- A conflict of two jobs that follow one another.
abbrev pub IsConflictOf : List Job → Conflict → Type 0
IsConflictOf [] c = ⊥
IsConflictOf (a ∷ []) c = ⊥
IsConflictOf (a ∷ b ∷ js) c = IsConflict a b c ⊎ IsConflictOf (b ∷ js) c

found_conflict : (a b : Job) {c : Conflict} → conflict_between a b ≡ some c → IsConflict a b c
found_conflict a b {c} h = elim (Option-cases (or_else a.scanback_ends_at a.signing_ends_at)) [
  | inl e ↦ absurd (ground (arith, rw (conflict_between, e) at h))
  | inr (t, e) ↦
      let k = rw (conflict_between, e) at h in
      record {
        ends = t;
        known_end = e;
        from_first = ground (arith, k);
        to_second = ground (arith, k);
        too_late = ground (arith, k);
        enough = ground (arith, k);
        least = ground (arith, k);
      }
]

conflict_found : (a b : Job) (c : Conflict) → IsConflict a b c → conflict_between a b ≡ some c
conflict_found a b c h = let known = h.known_end in rw (conflict_between, known) (ground (arith, h))

with_conflict-head :
    (o : Option Conflict) (cs : List Conflict) (c : Conflict)
    → Memᴰ c (with_conflict o cs) ↔ ((o ≡ some c) ⊎ Memᴰ c cs)
with_conflict-head none cs c =
    ((λ m. inr m), (λ k. elim k [ inl e ↦ absurd (ground (arith, e)) | inr m ↦ m ]))
with_conflict-head (some d) cs c = (
  (λ m. elim m [ Memᴰ.head e ↦ inl (cc) | Memᴰ.tail n ↦ inr n ]),
  (λ k. elim k [ inl e ↦ Memᴰ.head (ground (arith, e)) | inr m ↦ Memᴰ.tail m ]),
)

-- A conflict is reported exactly if it is one of two jobs that follow one another in the plan.
pub conflicts_iff : (jobs : List Job) (c : Conflict) → Memᴰ c (conflicts jobs) ↔ IsConflictOf jobs c
unfolding conflicts
conflicts_iff [] c = ((λ m. elim m [ ]), (λ k. elim k [ ]))
conflicts_iff (a ∷ []) c = ((λ m. elim m [ ]), (λ k. elim k [ ]))
conflicts_iff (a ∷ b ∷ js) c =
    let rest = conflicts_iff (b ∷ js) c in
    let first = with_conflict-head (conflict_between a b) (conflicts (b ∷ js)) c in
    (
      (λ m. elim (first.0 m) [ inl e ↦ inl (found_conflict a b e) | inr n ↦ inr (rest.0 n) ]),
      (λ k. first.1 (elim k [ inl h ↦ inl (conflict_found a b c h) | inr n ↦ inr (rest.1 n) ])),
    )
