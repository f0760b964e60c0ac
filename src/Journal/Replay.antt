-- ===== src/Journal/Replay.antt =====
-- What reading the journal's lines yields: a table with one record for each unacknowledged
-- operation, every payload redacted.
use ctfdpp.Base.{
  ℕ, ◌≡◌, refl, subst, ◌∙◌, ap, List, [], ◌∷◌, ◌++◌, map, Option, none, some, true, false,
  if◌then◌else◌, All, Bool-cases, inl, inr,
}
use ctfdpp.Base.Keyed.{
  get, pair_eq, pair_beq, pair_beq_iff, get-put, get-remove, get-nil, get-cons, NodupKeys,
  remove-NodupKeys, put-NodupKeys, All-remove, All-put,
}
use ctfdpp.Journal.{
  JournalRecord, Line, blank, entry, invalid, key, is_acknowledged, redact_record, replay_record,
  replay_line, replay,
}
use ctfdpp.Journal.Redaction.{redact_record_idem}

pub get-replay_record :
    (k : ℕ × ℕ) (r : JournalRecord) (current : List JournalRecord)
    → get key k (replay_record r current) ≡ (
        if pair_beq (key r) k
        then if is_acknowledged r.phase then none else some r
        else get key k current)
get-replay_record k r current = elim (Bool-cases (is_acknowledged r.phase)) [
  | inl done ↦ rw done (get-remove key k (key r) current)
  | inr live ↦ rw live (get-put key k r current)
]

pub replay-append :
    (xs ys : List Line) (current : List JournalRecord)
    → replay (xs ++ ys) current ≡ replay ys (replay xs current)
unfolding replay
replay-append [] ys current = refl
replay-append (x ∷ xs) ys current = replay-append xs ys (replay_line x current)

-- A record that reading can yield.
pub record IsLive (r : JournalRecord) : Type 0 where
  pub unacknowledged : is_acknowledged r.phase ≡ false
  pub redacted : redact_record r ≡ r

replay_record-NodupKeys :
    (r : JournalRecord) (current : List JournalRecord)
    → NodupKeys key current
    → NodupKeys key (replay_record r current)
replay_record-NodupKeys r current h = elim (Bool-cases (is_acknowledged r.phase)) [
  | inl done ↦ rw done (remove-NodupKeys key (key r) current h)
  | inr live ↦ rw live (put-NodupKeys key r current h)
]

replay_record-IsLive :
    (r : JournalRecord) (current : List JournalRecord)
    → All IsLive current
    → All IsLive (replay_record (redact_record r) current)
replay_record-IsLive r current h = elim (Bool-cases (is_acknowledged r.phase)) [
  | inl done ↦ rw done (All-remove key IsLive (key r) current h)
  | inr live ↦ rw live (
      All-put key IsLive (redact_record r) current
        (record { unacknowledged = live; redacted = redact_record_idem r }) h)
]

pub replay-NodupKeys :
    (ls : List Line) (current : List JournalRecord)
    → NodupKeys key current
    → NodupKeys key (replay ls current)
unfolding replay
replay-NodupKeys [] current h = h
replay-NodupKeys (blank ∷ ls) current h = replay-NodupKeys ls current h
replay-NodupKeys (entry r ∷ ls) current h =
    replay-NodupKeys ls (replay_record (redact_record r) current)
      (replay_record-NodupKeys (redact_record r) current h)
replay-NodupKeys (invalid ∷ ls) current h = replay-NodupKeys ls current h

pub replay-IsLive :
    (ls : List Line) (current : List JournalRecord)
    → All IsLive current
    → All IsLive (replay ls current)
unfolding replay
replay-IsLive [] current h = h
replay-IsLive (blank ∷ ls) current h = replay-IsLive ls current h
replay-IsLive (entry r ∷ ls) current h =
    replay-IsLive ls (replay_record (redact_record r) current) (replay_record-IsLive r current h)
replay-IsLive (invalid ∷ ls) current h = replay-IsLive ls current h

abbrev pub first_some : Option JournalRecord → Option JournalRecord → Option JournalRecord
first_some none o = o
first_some (some r) o = some r

pub get_fresh :
    (k : ℕ × ℕ) (r : JournalRecord) (rs : List JournalRecord)
    → get key (key r) rs ≡ none
    → pair_beq (key r) k ≡ true
    → get key k rs ≡ none
get_fresh k r rs fresh same =
    subst (λ j. get key j rs ≡ none) ((pair_beq_iff (key r) k).0 same) fresh

-- Reading back live records under distinct keys yields them, over what was there.
pub get-replay-entries :
    (k : ℕ × ℕ) (rs current : List JournalRecord)
    → All IsLive rs
    → NodupKeys key rs
    → get key k (replay (map entry rs) current) ≡ first_some (get key k rs) (get key k current)
unfolding replay
get-replay-entries k [] current live nodup = rw (get-nil key k)
get-replay-entries k (r ∷ rs) current live nodup =
    let ih = get-replay-entries k rs (replay_record (redact_record r) current) live.1 nodup.1 in
    elim (Bool-cases (pair_beq (key r) k)) [
      | inl same ↦
          ih
          ∙ rw (get_fresh k r rs nodup.0 same, get-replay_record k (redact_record r) current)
              (rw (get-cons key k r rs, same, live.0.unacknowledged) (ap some live.0.redacted))
      | inr other ↦
          ih ∙ rw (get-replay_record k (redact_record r) current, get-cons key k r rs) (rw other)
    ]
