-- ===== src/Journal/Recovery/Cleaning.antt =====
-- What `cleanup_overdue_without_database` leaves in the journal.
use ctfdpp.Base.{
  ℕ, ◌≡◌, refl, sym, ◌∙◌, ap, subst, Option, none, some, Bool, true, false, arith, if◌then◌else◌,
  Bool-cases, inl, inr, ◌≢◌, ◌≤◌, ◌⊎◌, String, ltb,
}
use ctfdpp.Base.Keyed.{get, pair_eq}
use ctfdpp.Remote.{is_some_true, stop_instance, RemoteServer, RemoteResult}
use ctfdpp.Journal.{
  JournalRecord, key, is_degraded, redact_record, current_unacknowledged, JournalFile, Io,
  degraded_cleanup, JournalPhase,
}
use ctfdpp.Journal.Compaction.{IsTerminated}
use ctfdpp.Journal.Recovery.{
  Decision, skip, write, Execute, cleanup_decision, cleanup_payload, confirmed, cleaned,
  stop_answered, stop_overdue, cleanup_overdue_without_database,
}
use ctfdpp.Journal.Recovery.Laws.{decided, KeepsKey, for_each_current}

-- A record past its deadline, of a host whose helper confirms that the workload is gone.
abbrev pub Cleans : (ℕ → String) → Execute → ℕ → JournalRecord → RemoteResult → Type 0
Cleans uuid execute now r result =
    (server : RemoteServer) × (r.phase ≢ degraded_cleanup)
    × (r.effective_expires_at ≤ now)
    × (r.remote_server ≡ some server)
    × (execute server stop_instance (cleanup_payload uuid r) ≡ some result)
    × ((result.absent ≡ some true) ⊎ (result.stale_generation ≡ some true))

not_degraded : (phase : JournalPhase) → is_degraded phase ≡ false → phase ≢ degraded_cleanup
not_degraded degraded_cleanup h e = cc
not_degraded phase h e = cc

phase_open : (phase : JournalPhase) → phase ≢ degraded_cleanup → is_degraded phase ≡ false
phase_open degraded_cleanup h = absurd (h refl)
phase_open phase h = refl

confirmed_by :
    (result : RemoteResult)
    → confirmed result ≡ true
    → (result.absent ≡ some true) ⊎ (result.stale_generation ≡ some true)
confirmed_by result h = elim (Bool-cases (is_some_true result.absent)) [
  | inl absent ↦ inl (some_true result.absent absent)
  | inr present ↦ inr (some_true result.stale_generation (ground arith))
]
  where
    some_true : (o : Option Bool) → is_some_true o ≡ true → o ≡ some true
    some_true none h = cc
    some_true (some b) h = ap some h

confirms :
    (result : RemoteResult)
    → (result.absent ≡ some true) ⊎ (result.stale_generation ≡ some true)
    → confirmed result ≡ true
confirms result (inl e) = rw e refl
confirms result (inr e) = rw e (ground arith)

module _ (uuid : ℕ → String) (execute : Execute) (now : ℕ) where
  -- What a round decides, given that it goes on to a host.
  abbrev Decides : JournalRecord → Decision → Type 0
  Decides r d =
      (d ≡ skip)
      ⊎ ((result : RemoteResult) × Cleans uuid execute now r result
          × (d ≡ write (cleaned now r (cleanup_payload uuid r) result)))

  answered_cases :
      (r : JournalRecord) (server : RemoteServer) (o : Option RemoteResult)
      → is_degraded r.phase ≡ false
      → r.effective_expires_at ≤ now
      → r.remote_server ≡ some server
      → execute server stop_instance (cleanup_payload uuid r) ≡ o
      → Decides r (stop_answered uuid now r o)
  unfolding stop_answered
  answered_cases r server none d late e x = inl refl
  answered_cases r server (some result) d late e x = elim (Bool-cases (confirmed result)) [
    | inl c ↦
        inr (result, (server, not_degraded r.phase d, late, e, x, confirmed_by result c), rw c)
    | inr c ↦ inl (rw c)
  ]

  overdue_cases :
      (r : JournalRecord) (o : Option RemoteServer)
      → is_degraded r.phase ≡ false
      → r.effective_expires_at ≤ now
      → r.remote_server ≡ o
      → Decides r (stop_overdue uuid execute now r o)
  unfolding stop_overdue
  overdue_cases r none d late e = inl refl
  overdue_cases r (some server) d late e = answered_cases r server _ d late e refl

  cleanup_cases : (r : JournalRecord) → Decides r (cleanup_decision uuid execute now r)
  unfolding cleanup_decision
  cleanup_cases r = elim (Bool-cases (is_degraded r.phase)) [
    | inl d ↦ inl (rw d)
    | inr d ↦ elim (Bool-cases (ltb now r.effective_expires_at)) [
      | inl early ↦ inl (rw (d, early))
      | inr late ↦
          let step : cleanup_decision uuid execute now r
              ≡ stop_overdue uuid execute now r r.remote_server =
            rw (d, late) in
          subst (Decides r) (sym step) (overdue_cases r r.remote_server d (ground arith) refl)
    ]
  ]

  cleanup_keeps : (r : JournalRecord) → KeepsKey (cleanup_decision uuid execute now r) r
  cleanup_keeps r = elim (cleanup_cases r) [ inl e ↦ rw e tt | inr (result, c, e) ↦ rw e refl ]

  Cleans-write :
      (r : JournalRecord) (result : RemoteResult)
      → Cleans uuid execute now r result
      → cleanup_decision uuid execute now r ≡ write (cleaned now r (cleanup_payload uuid r) result)
  unfolding cleanup_decision stop_overdue stop_answered
  Cleans-write r result (server, d, late, e, x, c) =
      ap (λ b. if b then skip else later b) (phase_open r.phase d)
      ∙ early
      ∙ ap (stop_overdue uuid execute now r) e
      ∙ ap (stop_answered uuid now r) x
      ∙ rw (confirms result c)
    where
      later : Bool → Decision
      later b =
          if ltb now r.effective_expires_at
          then skip
          else stop_overdue uuid execute now r r.remote_server

      early : later false ≡ stop_overdue uuid execute now r r.remote_server
      early = ground arith

  module _ (io : JournalRecord → Io) (f : JournalFile) (k : ℕ × ℕ) (r : JournalRecord)
      (written : (r : JournalRecord) → (io r).written ≡ true) (terminated : IsTerminated f)
      (present : get key k (current_unacknowledged f) ≡ some r) where
    abbrev table_after : Option JournalRecord
    table_after =
        get key k
          (current_unacknowledged (cleanup_overdue_without_database io uuid execute now f).0)

    table_after-decided : table_after ≡ decided (cleanup_decision uuid execute now r) (some r)
    unfolding cleanup_overdue_without_database
    table_after-decided =
        (for_each_current io (cleanup_decision uuid execute now) written cleanup_keeps f k
          terminated).1
        ∙ rw present

    -- When every write succeeds and the journal has no unterminated last line,
    -- `cleanup_overdue_without_database` either replaces the record of an operation by one that is marked as cleaned and holds the helper's answer, or leaves it as it
    -- was. It is the first if the record is past its deadline and not marked as cleaned yet and the
    -- helper of its host, asked to stop the instance, confirms that the workload is absent or of a
    -- newer generation, and else the second.
    pub cleanup_only_overdue :
        ((result : RemoteResult) × Cleans uuid execute now r result
          × (table_after ≡ some (redact_record (cleaned now r (cleanup_payload uuid r) result))))
        ⊎ (((result : RemoteResult) → ¬ Cleans uuid execute now r result) × (table_after ≡ some r))
    cleanup_only_overdue = elim (cleanup_cases r) [
      | inl e ↦
          inr ((λ result c. let wrote = Cleans-write r result c in cc), table_after-decided ∙ rw e)
      | inr (result, c, e) ↦ inl (result, c, table_after-decided ∙ rw e)
    ]
