-- ===== src/Journal/Compaction.antt =====
-- `append` and its compaction against a table from operations to their latest record.
use mathlib.Core.List.{append-nil}
use ctfdpp.Base.{
  ℕ, ◌≡◌, refl, ◌∙◌, ap, List, [], ◌∷◌, ◌++◌, map, Option, none, some, true, if◌then◌else◌, All,
  Bool-cases, inl, inr, ◌⊎◌, ◌||◌,
}
use ctfdpp.Base.Keyed.{get, pair_eq, pair_beq, get-nil, NodupKeys}
use ctfdpp.Base.Keyed.Sorting.{sort_by, get-sort_by, sort_by-NodupKeys, All-sort_by}
use ctfdpp.Journal.{
  JournalRecord, Line, entry, invalid, key, is_acknowledged, is_degraded, redact_record, replay,
  current_unacknowledged, JournalFile, FileText, text_of, lines_of, older, compacted,
  compact_locked, Replacement, not_replaced, replaced_unsynced, replaced, Io, append,
  threshold_reached, write_line,
}
use ctfdpp.Journal.Redaction.{redact_record_idem}
use ctfdpp.Journal.Replay.{
  get-replay_record, replay-append, IsLive, replay-NodupKeys, replay-IsLive, get-replay-entries,
  first_some,
}

pub current-NodupKeys : (f : JournalFile) → NodupKeys key (current_unacknowledged f)
unfolding current_unacknowledged
current-NodupKeys f = replay-NodupKeys (lines_of f) [] tt

pub current-IsLive : (f : JournalFile) → All IsLive (current_unacknowledged f)
unfolding current_unacknowledged
current-IsLive f = replay-IsLive (lines_of f) [] tt

first_some-none : (o : Option JournalRecord) → first_some o none ≡ o
first_some-none none = refl
first_some-none (some r) = refl

get-compacted :
    (k : ℕ × ℕ) (rs : List JournalRecord)
    → All IsLive rs
    → NodupKeys key rs
    → get key k (current_unacknowledged (some (compacted rs))) ≡ get key k rs
unfolding current_unacknowledged compacted
get-compacted k rs live nodup = rw (append-nil (map entry (sort_by key older rs))) (
    get-replay-entries k (sort_by key older rs) [] (All-sort_by key IsLive older rs live)
      (sort_by-NodupKeys key older rs nodup)
    ∙ rw (get-nil key k) (first_some-none _ ∙ get-sort_by key older rs k nodup))

-- Compaction, however far it gets, changes what reading yields for no operation.
pub get-compact_locked :
    (k : ℕ × ℕ) (c : Replacement) (f : JournalFile)
    → get key k (current_unacknowledged (compact_locked c f).0)
      ≡ get key k (current_unacknowledged f)
unfolding compact_locked
get-compact_locked k not_replaced f = refl
get-compact_locked k replaced_unsynced f =
    get-compacted k (current_unacknowledged f) (current-IsLive f) (current-NodupKeys f)
get-compact_locked k replaced f =
    get-compacted k (current_unacknowledged f) (current-IsLive f) (current-NodupKeys f)

-- The file ends with a newline.
abbrev pub IsTerminated : JournalFile → Type 0
IsTerminated f = (text_of f).tail ≡ none

compact_locked-IsTerminated :
    (c : Replacement) (f : JournalFile) → IsTerminated f → IsTerminated (compact_locked c f).0
unfolding compact_locked compacted
compact_locked-IsTerminated not_replaced f h = h
compact_locked-IsTerminated replaced_unsynced f h = refl
compact_locked-IsTerminated replaced f h = refl

-- The table after a record is written to it.
abbrev pub updated : JournalRecord → ℕ × ℕ → Option JournalRecord → Option JournalRecord
updated r k old =
    if pair_beq (key r) k
    then if is_acknowledged r.phase then none else some (redact_record r)
    else old

get-replay-snoc :
    (k : ℕ × ℕ) (r : JournalRecord) (ls : List Line)
    → get key k (replay (ls ++ entry (redact_record r) ∷ []) [])
      ≡ updated r k (get key k (replay ls []))
unfolding replay
get-replay-snoc k r ls =
    rw (replay-append ls (entry (redact_record r) ∷ []) [], redact_record_idem r)
      (get-replay_record k (redact_record r) (replay ls []))

read_terminated :
    (f : JournalFile) → IsTerminated f → current_unacknowledged f ≡ replay (text_of f).lines []
unfolding current_unacknowledged
read_terminated f h = rw (h, append-nil (text_of f).lines)

get-write_line :
    (k : ℕ × ℕ) (r : JournalRecord) (f : JournalFile)
    → IsTerminated f
    → get key k (current_unacknowledged (some (write_line (entry (redact_record r)) (text_of f))))
      ≡ updated r k (get key k (current_unacknowledged f))
get-write_line k r f h =
    rw
      (
        read_terminated f h,
        read_terminated (some (write_line (entry (redact_record r)) (text_of f))) refl,
        h,
      )
      (get-replay-snoc k r (text_of f).lines)

-- `append` in two steps: the line, and a compaction or none.
append_written :
    (io : Io) (r : JournalRecord) (f : JournalFile)
    → io.written ≡ true
    → let g : JournalFile = some (write_line (entry (redact_record r)) (text_of f)) in
      (append io r f ≡ (g, true)) ⊎ (append io r f ≡ ((compact_locked io.compaction g).0, true))
unfolding append
append_written io r f w =
    elim (Bool-cases
      (is_acknowledged r.phase || is_degraded r.phase || threshold_reached io.file_length)) [
        | inl c ↦ inr (rw (w, c))
        | inr c ↦ inl (rw (w, c))
      ]

-- After an `append` that is reported as done to a file that ends with a newline, the journal yields
-- for each operation what it yielded before, but for the operation of the record: for that one
-- nothing if the record is an acknowledgement, and else the record with its payload redacted. The
-- file ends with a newline again. This is so whether the file is compacted, or compaction fails at
-- any point.
pub append_updates :
    (io : Io) (r : JournalRecord) (f : JournalFile) (k : ℕ × ℕ)
    → IsTerminated f
    → io.written ≡ true
    → ((append io r f).1 ≡ true)
      × IsTerminated (append io r f).0
      × (get key k (current_unacknowledged (append io r f).0)
          ≡ updated r k (get key k (current_unacknowledged f)))
append_updates io r f k h w =
    let g : JournalFile = some (write_line (entry (redact_record r)) (text_of f)) in
    elim (append_written io r f w) [
      | inl e ↦ rw e (refl, refl, get-write_line k r f h)
      | inr e ↦ rw e (
        refl,
        compact_locked-IsTerminated io.compaction g refl,
        get-compact_locked k io.compaction g ∙ get-write_line k r f h,
      )
    ]

read_broken :
    (t : FileText) (l : Line)
    → t.tail ≡ some invalid
    → current_unacknowledged (some (write_line l t)) ≡ current_unacknowledged (some t)
unfolding current_unacknowledged replay
read_broken t l h = rw (h, append-nil (t.lines ++ invalid ∷ []))

-- A record that `append` writes behind an unterminated fragment is lost, though the call reports
-- that it was written and synced: for every operation the journal yields what it yielded before.
pub append_lost :
    (io : Io) (r : JournalRecord) (t : FileText) (k : ℕ × ℕ)
    → t.tail ≡ some invalid
    → io.written ≡ true
    → ((append io r (some t)).1 ≡ true)
      × (get key k (current_unacknowledged (append io r (some t)).0)
          ≡ get key k (current_unacknowledged (some t)))
append_lost io r t k h w =
    let g : JournalFile = some (write_line (entry (redact_record r)) t) in
    elim (append_written io r (some t) w) [
      | inl e ↦ rw e (refl, ap (get key k) (read_broken t (entry (redact_record r)) h))
      | inr e ↦ rw e (
        refl,
        get-compact_locked k io.compaction g
            ∙ ap (get key k) (read_broken t (entry (redact_record r)) h),
      )
    ]
