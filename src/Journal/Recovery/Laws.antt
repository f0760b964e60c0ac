-- ===== src/Journal/Recovery/Laws.antt =====
-- What a recovery loop leaves in the journal, for each operation, whatever it decides.
use ctfdpp.Base.{
  ℕ, ◌+◌, ◌≡◌, refl, ◌∙◌, ap, List, [], ◌∷◌, Option, none, some, true, arith, if◌then◌else◌,
  Bool-cases, inl, inr,
}
use ctfdpp.Base.Keyed.{get, pair_eq, pair_beq, get-nil, get-cons, NodupKeys}
use ctfdpp.Journal.{
  JournalRecord, key, is_acknowledged, redact_record, current_unacknowledged, JournalFile, Io,
  append,
}
use ctfdpp.Journal.Compaction.{IsTerminated, updated, append_updates, current-NodupKeys}
use ctfdpp.Journal.Replay.{get_fresh}
use ctfdpp.Journal.Recovery.{Decision, fail, skip, write, for_each}

abbrev pub decided : Decision → Option JournalRecord → Option JournalRecord
decided fail old = old
decided skip old = old
decided (write r) old = if is_acknowledged r.phase then none else some (redact_record r)

abbrev decisions : Decision → ℕ
decisions fail = 0
decisions skip = 0
decisions (write r) = 1

-- What the table holds for an operation after the loop: `visited` is its record among those that
-- the loop goes over.
abbrev pub outcome :
    (JournalRecord → Decision) → Option JournalRecord → Option JournalRecord → Option JournalRecord
outcome decide none old = old
outcome decide (some r) old = decided (decide r) old

abbrev writes : (JournalRecord → Decision) → List JournalRecord → ℕ
writes decide [] = 0
writes decide (r ∷ rs) = decisions (decide r) + writes decide rs

abbrev pub KeepsKey : Decision → JournalRecord → Type 0
KeepsKey fail r = ⊥
KeepsKey skip r = Unit {0}
KeepsKey (write r') r = key r' ≡ key r

-- What one round does to the table, for an operation.
abbrev effect : Decision → ℕ × ℕ → Option JournalRecord → Option JournalRecord
effect fail k old = old
effect skip k old = old
effect (write r') k old = updated r' k old

outcome-effect :
    (decide : JournalRecord → Decision) (k : ℕ × ℕ) (r : JournalRecord) (rs : List JournalRecord)
    (d : Decision) (old : Option JournalRecord)
    → decide r ≡ d
    → KeepsKey d r
    → get key (key r) rs ≡ none
    → outcome decide (get key k rs) (effect d k old) ≡ outcome decide (get key k (r ∷ rs)) old
outcome-effect decide k r rs fail old e keep fresh = absurd keep
outcome-effect decide k r rs skip old e keep fresh = elim (Bool-cases (pair_beq (key r) k)) [
  | inl same ↦ rw (get-cons key k r rs, same, get_fresh k r rs fresh same) (rw e)
  | inr other ↦ rw (get-cons key k r rs, other)
]
outcome-effect decide k r rs (write r') old e keep fresh = elim (Bool-cases (pair_beq (key r) k)) [
  | inl same ↦
      rw (get-cons key k r rs, same, get_fresh k r rs fresh same)
        (rw (e, ap (λ j. pair_beq j k) keep, same))
  | inr other ↦ rw (get-cons key k r rs, ap (λ j. pair_beq j k) keep, other)
]

module _ (io : JournalRecord → Io) (decide : JournalRecord → Decision)
    (written : (r : JournalRecord) → (io r).written ≡ true)
    (keeps : (r : JournalRecord) → KeepsKey (decide r) r) where
  abbrev Reaches : List JournalRecord → ℕ → JournalFile → ℕ × ℕ → JournalFile × Option ℕ → Type 0
  Reaches rs n f k out =
      (out.1 ≡ some (n + writes decide rs))
      × IsTerminated out.0
      × (get key k (current_unacknowledged out.0)
          ≡ outcome decide (get key k rs) (get key k (current_unacknowledged f)))

  round :
      (k : ℕ × ℕ) (r : JournalRecord) (rs : List JournalRecord) (n : ℕ) (f : JournalFile)
      (d : Decision)
      → decide r ≡ d
      → KeepsKey d r
      → get key (key r) rs ≡ none
      → IsTerminated f
      → ((m : ℕ) (g : JournalFile) → IsTerminated g → Reaches rs m g k (for_each io decide rs m g))
      → Reaches (r ∷ rs) n f k (for_each io decide (r ∷ rs) n f)
  unfolding for_each
  round k r rs n f fail e keep fresh h rest = absurd keep
  round k r rs n f skip e keep fresh h rest =
      let ih = rest n f h in
      rw (e, for_each)
        (
          ih.0 ∙ ap some (omega arith),
          ih.1,
          ih.2
              ∙ outcome-effect decide k r rs skip (get key k (current_unacknowledged f)) e keep
                  fresh,
        )
  round k r rs n f (write r') e keep fresh h rest =
      let up = append_updates (io r) r' f k h (written r) in
      let ih = rest (n + 1) (append (io r) r' f).0 up.1 in
      let old = get key k (current_unacknowledged f) in
      rw (e, for_each)
        (rw up.0 (
          ih.0 ∙ ap some (omega arith),
          ih.1,
          ih.2
              ∙ ap (outcome decide (get key k rs)) up.2
              ∙ outcome-effect decide k r rs (write r') old e keep fresh,
        ))

  for_each_lookup :
      (k : ℕ × ℕ) (rs : List JournalRecord) (n : ℕ) (f : JournalFile)
      → NodupKeys key rs
      → IsTerminated f
      → Reaches rs n f k (for_each io decide rs n f)
  unfolding for_each
  for_each_lookup k [] n f nodup h = (ap some (omega arith), h, rw (get-nil key k))
  for_each_lookup k (r ∷ rs) n f nodup h =
      round k r rs n f (decide r) refl (keeps r) nodup.0 h
        λ m g t. for_each_lookup k rs m g nodup.1 t

  pub for_each_current :
      (f : JournalFile) (k : ℕ × ℕ)
      → IsTerminated f
      → let out = for_each io decide (current_unacknowledged f) 0 f in
        (out.1 ≡ some (writes decide (current_unacknowledged f)))
        × (get key k (current_unacknowledged out.0)
            ≡ outcome decide
                (get key k (current_unacknowledged f))
                (get key k (current_unacknowledged f)))
  for_each_current f k h =
      let all = for_each_lookup k (current_unacknowledged f) 0 f (current-NodupKeys f) h in
      (all.0 ∙ ap some (omega arith), all.2)
