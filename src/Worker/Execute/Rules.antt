-- ===== src/Worker/Execute/Rules.antt =====
-- What each effect of an execution does to the journal and to the trace.
use ctfdpp.Base.{
  ◌≡◌, refl, ◌∙◌, Bool, true, false, not, Option, none, some, ◌∷◌, arith, inl, subst, sym, ◌+◌,
}
use ctfdpp.Base.Json.{Value}
use ctfdpp.Base.Keyed.{pair_eq}
use ctfdpp.Remote.{RemoteServer, RemoteOperation, RemoteResult}
use ctfdpp.Runtime.{Db, Env}
use ctfdpp.Journal.{
  JournalRecord, JournalIntent, JournalFile, Io, append_locked, is_acknowledged, redact_record,
  append, intent, remote_result, acknowledged, key, intent_record, result_record,
  acknowledged_record,
}
use ctfdpp.Journal.Compaction.{IsTerminated, append_updates, updated}
use ctfdpp.Worker.Events.{Result, ok, error}
use ctfdpp.Worker.Claims.{CommandRow}
use ctfdpp.Worker.Transitions.{InstanceRow}
use ctfdpp.Worker.Transactions.{Work}
use ctfdpp.Worker.Effects.{
  replied, journaled, Outside, World, wrote, called, M, or_bail, transact, query, write_intent,
  write_result, write_acknowledged, send, execute, Reply, answered, refused, unanswered,
}
use ctfdpp.Worker.Execute.{journal_intent, exchange}
use ctfdpp.Worker.Execute.Post.{Post, bind-Post, then-Post, return-Post, bail_if-Post}
use ctfdpp.Worker.Execute.Warrants.{
  Answered, Announced, Checked, Warranted, AllJustified, Fine, Sound,
}

append_done :
    (io : Io) (r : JournalRecord) (f : JournalFile) → (append io r f).1 ≡ true → io.written ≡ true
unfolding append append_locked
append_done io r f h = ground arith

updated_self :
    (r : JournalRecord) (old : Option JournalRecord)
    → is_acknowledged r.phase ≡ false
    → updated r (key r) old ≡ some (redact_record r)
updated_self r old h = ground arith

true_of_not : {b : Bool} → not b ≡ false → b ≡ true
true_of_not {b} h = ground arith

module _ (o : Outside) (command : CommandRow) (row : InstanceRow) where
  pub transact-Post :
      {A : Type 0} (what : Work) (run : Env → Db → Db × Result A) (w : World)
      → Warranted o command row what w.trace
      → Sound o command row w
      → Post (λ a v. Sound o command row v) (Fine o command row) (transact o what run w)
  unfolding transact
  transact-Post {A = A} what run w because s =
      go (o.reply w.step) (run (o.env w.step) (o.others w.step w.db)).1
    where
      go :
          (r : Reply) (x : Result A)
          → Post
              (λ a v. Sound o command row v)
              (Fine o command row)
              (replied o w
                (wrote what ∷ w.trace)
                r
                (o.others w.step w.db)
                ((run (o.env w.step) (o.others w.step w.db)).0, x))
      go answered (ok a) = record { post = ((because, s.0), s.1) }
      go answered (error text) = record { post = (because, s.0) }
      go refused x = record { post = (because, s.0) }
      go unanswered x = record { post = (because, s.0) }

  pub query-Post :
      {A : Type 0} (read : Db → A) (w : World)
      → Sound o command row w
      → Post
          (λ a v. Sound o command row v × (a ≡ read (o.others w.step w.db)))
          (Fine o command row)
          (query o read w)
  unfolding query
  query-Post {A = A} read w s = go (o.reply w.step)
    where
      db : Db
      db = o.others w.step w.db

      go :
          (r : Reply)
          → Post
              (λ (a : A) v. Sound o command row v × (a ≡ read db))
              (Fine o command row)
              (replied o w w.trace r db (db, ok (read db)))
      go answered = record { post = (s, refl) }
      go refused = record { post = s.0 }
      go unanswered = record { post = s.0 }

  settle :
      (R : JournalFile → Type 0) (w : World) (file : JournalFile) (b : Bool)
      → AllJustified o command row w.trace
      → (b ≡ true → IsTerminated file × R file)
      → Post
          (λ a v. Sound o command row v × (v.trace ≡ w.trace) × R v.journal)
          (Fine o command row)
          (journaled o w (file, b))
  settle R w file true j h = let done = h refl in record { post = ((j, done.0), refl, done.1) }
  settle R w file false j h = record { post = j }

  write_intent-Post :
      (server : RemoteServer) (operation : RemoteOperation) (payload : Value) (w : World)
      → Sound o command row w
      → Post
          (λ a v.
            Sound o command row v
            × (v.trace ≡ w.trace)
            × Announced o command row server operation payload v.journal)
          (Fine o command row)
          (write_intent o (journal_intent command row operation (some server) payload) w)
  unfolding write_intent intent
  write_intent-Post server operation payload w s =
      let i = journal_intent command row operation (some server) payload in
      let r = intent_record (o.env w.step).clock i in
      let out = append (o.io w.step) r w.journal in
      settle _ w out.0 out.1 s.0 λ done.
        let up =
          append_updates (o.io w.step) r w.journal (key r) s.1
            (append_done (o.io w.step) r w.journal done) in
        (up.1, (redact_record r, up.2 ∙ updated_self r _ refl, refl, refl, refl, refl, refl))

  kept :
      (w : World) (io : Io) (r : JournalRecord)
      → Sound o command row w
      → Post
          (λ a v. Sound o command row v × (v.trace ≡ w.trace) × Unit {0})
          (Fine o command row)
          (journaled o w (append io r w.journal))
  kept w io r s =
      let out = append io r w.journal in
      settle _ w out.0 out.1 s.0 λ done.
        ((append_updates io r w.journal (key r) s.1 (append_done io r w.journal done)).1, tt)

  write_result-Post :
      (i : JournalIntent) (result : RemoteResult) (w : World)
      → Sound o command row w
      → Post
          (λ a v. Sound o command row v × (v.trace ≡ w.trace) × Unit {0})
          (Fine o command row)
          (write_result o i result w)
  unfolding write_result remote_result
  write_result-Post i result w s =
      kept w (o.io w.step) (result_record (o.env w.step).clock i result) s

  pub write_acknowledged-Post :
      (i : JournalIntent) (w : World)
      → Sound o command row w
      → Post
          (λ a v. Sound o command row v × (v.trace ≡ w.trace) × Unit {0})
          (Fine o command row)
          (write_acknowledged o i w)
  unfolding write_acknowledged acknowledged
  write_acknowledged-Post i w s =
      kept w (o.io w.step) (acknowledged_record (o.env w.step).clock i) s

  -- The helper of a server has answered, and all is sound.
  abbrev pub Heard : RemoteServer → RemoteOperation → RemoteResult → World → Type 0
  Heard server operation result w = Sound o command row w × Answered server operation result w.trace

  send-Post :
      (server : RemoteServer) (operation : RemoteOperation) (payload : Value) (w : World)
      → Sound o command row w
      → Announced o command row server operation payload w.journal
      → Checked o command row server operation payload
      → Post (Heard server operation) (Fine o command row) (send o server operation payload w)
  unfolding send or_bail
  send-Post server operation payload w s announced checked =
      go (o.ssh w.step server operation payload)
    where
      go :
          (x : Option RemoteResult)
          → Post (Heard server operation) (Fine o command row) (
              or_bail o x (record w {
                step = w.step + 1;
                trace = called server operation payload w.journal x ∷ w.trace;
              }))
      go none = record { post = ((announced, checked), s.0) }
      go (some result) = record {
        post = ((((announced, checked), s.0), s.1), (payload, w.journal, inl refl));
      }

  execute-Post :
      (server : RemoteServer) (operation : RemoteOperation) (payload : Value) (w : World)
      → Sound o command row w
      → Announced o command row server operation payload w.journal
      → Post (Heard server operation) (Fine o command row) (execute o server operation payload w)
  unfolding execute
  execute-Post server operation payload w s announced =
      let ready : World → Type 0 =
        λ v. Sound o command row v × Announced o command row server operation payload v.journal in
      let sound : (v : World) → ready v → Fine o command row v = λ v h. h.0.0 in
      then-Post _ _ w (bail_if-Post ready (Fine o command row) o _ w (s, announced) (sound w))
        λ a v f.
          then-Post _ _ v (bail_if-Post ready (Fine o command row) o _ v f.0 (sound v)) λ a v g.
            then-Post _ _ v (bail_if-Post ready (Fine o command row) o _ v g.0 (sound v)) λ a v h.
              then-Post _ _ v (bail_if-Post ready (Fine o command row) o _ v h.0 (sound v)) λ a v i.
                send-Post server operation payload v i.0.0 i.0.1
                  (true_of_not f.1, true_of_not g.1, true_of_not h.1)

  pub exchange-Post :
      (C : RemoteResult → Type 0) (server : RemoteServer) (operation : RemoteOperation)
      (payload : Value) (checks : RemoteResult → M (Unit {0})) (w : World)
      → Sound o command row w
      → ((result : RemoteResult) (v : World)
          → Heard server operation result v
          → Post
              (λ a u. Heard server operation result u × C result)
              (Fine o command row)
              (checks result v))
      → Post
          (λ result v. Heard server operation result v × C result)
          (Fine o command row)
          (exchange o command row server operation payload checks w)
  unfolding exchange
  exchange-Post C server operation payload checks w s checked =
      let i = journal_intent command row operation (some server) payload in
      then-Post _ _ w (write_intent-Post server operation payload w s) λ a v h.
        bind-Post _ _ v (execute-Post server operation payload v h.0 h.2) λ result v h.
          then-Post _ _ v (checked result v h) λ a v h.
            then-Post _ _ v (write_result-Post i result v h.0.0) λ a u k.
              return-Post result u
                ((k.0, subst (Answered server operation result) (sym k.1) h.0.1), h.1)
