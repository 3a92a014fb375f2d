-- ===== src/Journal.antt =====
-- src/modules/journal/journal.service.ts: the entry that a completed job leaves.
use notaryday_backend.Common.{
  ℕ, ◌/◌, ◌%◌, String, Bool, ◌&&◌, ◌==◌, not, none, some, ◌∷◌, is_some, trim, or_text, find_first,
}
use notaryday_backend.Schema.{Job, JournalEntry, M, ◌>>=◌, pure, if_some, get_store, fresh_id, ok}

-- `where: { user_id, job_id, deleted_at: null }`
abbrev pub entry_of : ℕ → ℕ → JournalEntry → Bool
entry_of user_id job_id e = e.user_id == user_id && e.job_id == job_id && not (is_some e.deleted_at)

abbrev signer_of : Job → String
signer_of job =
    or_text (or_text (elim job.client_name [ none ↦ "" | some n ↦ trim n ]) job.address) "Client"

insert_entry : JournalEntry → M JournalEntry
insert_entry e s = (ok e, record s { journal = e ∷ s.journal })

unfoldable pub create_for_completed_job : ℕ → Job → M JournalEntry
unfolding insert_entry find_first
create_for_completed_job user_id job = do
  s ← get_store
  if_some (find_first (entry_of user_id job.id) s.journal) pure (do
    id ← fresh_id
    insert_entry (record {
      id = id;
      user_id = user_id;
      job_id = job.id;
      entry_date = job.appointment_time;
      act_time = job.appointment_time / 60000 % 1440;
      signing_type = job.signing_type;
      signer_name = signer_of job;
      address = job.address;
      fee_charged = job.fee;
      notes = job.notes;
      deleted_at = none;
    }))
