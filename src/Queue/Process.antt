-- ===== src/Queue/Process.antt =====
-- What the processing of an entry and of a batch leaves.
use jira_simulator.Base.{
  ℕ, Option, none, some, ◌+◌, ◌≡◌, ◌≢◌, refl, sym, ap, subst, Bool, true, false, inl, inr, List, [],
  ◌∷◌, ◌==◌, Bool-cases, if◌then◌else◌, All, map,
}
use jira_simulator.Queue.{
  Status, JiraWriteQueueEntry, Db, Answer, answered, rate_limited, broken, write, complete, defer,
  fail, start, settle, process_one, process_all, process_batch, pauses, truncated,
  get_pending_batch,
}

-- What the answer makes of the row.
abbrev pub settled : ℕ → Answer → JiraWriteQueueEntry → JiraWriteQueueEntry
settled now (answered result) r = record r { status = Status.done; processed_at = some now }
settled now (rate_limited seconds) r = record r { status = Status.pending }
settled now (broken text) r = record r {
  status = Status.failed;
  attempts = r.attempts + 1;
  last_error = some (truncated 500 text);
}

-- The rows where the one with the id is replaced and the others stay.
abbrev pub replaced :
    ℕ
    → (JiraWriteQueueEntry → JiraWriteQueueEntry)
    → List JiraWriteQueueEntry
    → List JiraWriteQueueEntry
replaced id f rows = map (λ r. if r.id == id then f r else r) rows

write-write :
    (id : ℕ) (f g : JiraWriteQueueEntry → JiraWriteQueueEntry) (rows : List JiraWriteQueueEntry)
    → ((r : JiraWriteQueueEntry) → (g r).id ≡ r.id)
    → write id f (write id g rows) ≡ replaced id (λ r. f (g r)) rows
write-write id f g [] same = refl
write-write id f g (r ∷ rs) same = elim (Bool-cases (r.id == id)) [
  | inl e ↦
      let e' : ((g r).id == id) ≡ true = subst (λ n. (n == id) ≡ true) (sym (same r)) e in
      rw (e, e') (ap (λ x. f (g r) ∷ x) (write-write id f g rs same))
  | inr e ↦ rw (e, e) (ap (λ x. r ∷ x) (write-write id f g rs same))
]

-- The pause that an answer asks for: that of a rate limit, and no other.
abbrev pub pause_of : Answer → Option ℕ
pause_of (answered result) = none
pause_of (rate_limited seconds) = some seconds
pause_of (broken text) = none

-- Once an entry is processed its row is done with the time of it when the call was answered,
-- pending again with the attempts as they were when the call was rate limited, and failed with one
-- attempt more and at most 500 characters of the error otherwise, and no row of another id is
-- changed; a pause is returned for a rate limit alone, and is the one that it asks for.
pub process_one_lem :
    (dispatch : JiraWriteQueueEntry → Answer) (now : ℕ) (e : JiraWriteQueueEntry) (db : Db)
    → ((process_one dispatch now e db).0.entries
        ≡ replaced e.id (settled now (dispatch (start e))) db.entries)
      × ((process_one dispatch now e db).1 ≡ pause_of (dispatch (start e)))
unfolding process_one start settle complete defer fail
process_one_lem dispatch now e db = go (dispatch (start e))
  where
    go :
        (a : Answer)
        → ((settle now e a (record db { entries = write e.id start db.entries })).0.entries
            ≡ replaced e.id (settled now a) db.entries)
          × ((settle now e a (record db { entries = write e.id start db.entries })).1 ≡ pause_of a)
    go (answered result) = (write-write e.id (complete now) start db.entries (λ r. refl), refl)
    go (rate_limited seconds) = (write-write e.id defer start db.entries (λ r. refl), refl)
    go (broken text) = (write-write e.id (fail text) start db.entries (λ r. refl), refl)

abbrev pub Rests : JiraWriteQueueEntry → Type 0
Rests r = r.status ≢ Status.in_flight

settled-Rests : (now : ℕ) (a : Answer) (r : JiraWriteQueueEntry) → Rests (settled now a r)
settled-Rests now (answered result) r e = cc (e)
settled-Rests now (rate_limited seconds) r e = cc (e)
settled-Rests now (broken text) r e = cc (e)

replaced-Rests :
    (id now : ℕ) (a : Answer) (rows : List JiraWriteQueueEntry)
    → All Rests rows
    → All Rests (replaced id (settled now a) rows)
replaced-Rests id now a [] h = tt
replaced-Rests id now a (r ∷ rs) (h, hs) = elim (Bool-cases (r.id == id)) [
  | inl e ↦ rw e (settled-Rests now a r, replaced-Rests id now a rs hs)
  | inr e ↦ rw e (h, replaced-Rests id now a rs hs)
]

module _ (dispatch : JiraWriteQueueEntry → Answer) (now : ℕ) where
  process_one-Rests :
      (e : JiraWriteQueueEntry) (db : Db)
      → All Rests db.entries
      → All Rests (process_one dispatch now e db).0.entries
  process_one-Rests e db h =
      subst (All Rests) (sym (process_one_lem dispatch now e db).0)
        (replaced-Rests e.id now (dispatch (start e)) db.entries h)

  process_all-Rests :
      (es : List JiraWriteQueueEntry) (db : Db)
      → All Rests db.entries
      → All Rests (process_all dispatch now es db).entries
  unfolding process_all
  process_all-Rests [] db h = h
  process_all-Rests (e ∷ es) db h =
      let after = process_one-Rests e db h in
      elim (Bool-cases (pauses dispatch now (process_one dispatch now e db).1)) [
        | inl stop ↦ rw stop after
        | inr go ↦ rw go (process_all-Rests es (process_one dispatch now e db).0 after)
      ]

  -- A batch that starts with no entry in flight ends with none in flight, whatever the calls
  -- answered and wherever a rate limit stopped it.
  pub process_batch-Rests :
      (offline : Bool) (db : Db)
      → All Rests db.entries
      → All Rests (process_batch dispatch now offline db).entries
  unfolding process_batch
  process_batch-Rests true db h = h
  process_batch-Rests false db h = process_all-Rests (get_pending_batch db) db h
