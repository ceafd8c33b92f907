-- ===== src/App/Database.antt =====
-- app/core/database.py, init_db: the tables and the migrations, in one transaction of `engine.begin()`.
-- The database is a parameter, with what PostgreSQL documents of a transaction in which a statement
-- failed.
use webhook_relay_service.Prelude.{
  Bool, List, Option, Text, [], codes, false, none, some, true, ◌∷◌, ◌≡◌, ◌⊎◌, Option-cases,
  Bool-cases, inr, inl,
}

pub record Server : Type 1 where
  -- what is committed, and a transaction that is open
  pub State : Type 0
  pub Tx : Type 0
  -- `engine.begin()` and `conn.run_sync(Base.metadata.create_all)`: `none` is an exception
  pub begin : State → Option Tx
  pub create_all : Tx → Option Tx
  -- `conn.execute(text(stmt))`: `false` is an exception
  pub execute : Text → Tx → Bool × Tx
  pub commit : State → Tx → State
  -- A statement that fails aborts the transaction, and what is sent to an aborted one fails; its
  -- commit is a rollback.
  pub aborted : Tx → Bool
  pub aborts : (t : Text) (tx : Tx) → (execute t tx).0 ≡ false → aborted (execute t tx).1 ≡ true
  pub stays : (t : Text) (tx : Tx) → aborted tx ≡ true → aborted (execute t tx).1 ≡ true
  pub rolls_back : (s : State) (tx : Tx) → aborted tx ≡ true → commit s tx ≡ s

-- The statements, in order.
abbrev pub migrations : List Text
migrations =
    codes "ALTER TABLE routes ADD COLUMN IF NOT EXISTS filter_expression TEXT;"
    ∷ codes "ALTER TABLE events ADD COLUMN IF NOT EXISTS request_headers JSONB;"
    ∷ codes
        "ALTER TABLE endpoints ADD COLUMN IF NOT EXISTS workspace_id UUID REFERENCES workspaces(id);"
    ∷ codes "ALTER TABLE endpoints ADD COLUMN IF NOT EXISTS request_body_schema TEXT;"
    ∷ codes
        "ALTER TABLE events ADD COLUMN IF NOT EXISTS status VARCHAR(32) NOT NULL DEFAULT 'pending';"
    ∷ codes "ALTER TABLE events ADD COLUMN IF NOT EXISTS retry_at TIMESTAMPTZ;"
    ∷ codes
        "CREATE TABLE IF NOT EXISTS outbox_records (\n                id UUID PRIMARY KEY,\n                event_id UUID NOT NULL REFERENCES events(id),\n                status VARCHAR(16) NOT NULL DEFAULT 'pending',\n                publish_key VARCHAR(255) NOT NULL,\n                publish_topic VARCHAR(255) NOT NULL,\n                attempts INTEGER NOT NULL DEFAULT 0,\n                last_error TEXT,\n                created_at TIMESTAMPTZ NOT NULL DEFAULT now(),\n                processed_at TIMESTAMPTZ\n            );"
    ∷ codes "CREATE INDEX IF NOT EXISTS ix_outbox_records_status ON outbox_records(status);"
    ∷ codes "CREATE INDEX IF NOT EXISTS ix_outbox_records_event_id ON outbox_records(event_id);"
    ∷ []

module _ (server : Server) where
  open server use {
    State, Tx, begin, create_all, execute, commit, aborted, aborts, stays, rolls_back,
  }

  -- The loop over the statements: an exception of one is passed over.
  unfoldable pub migrate : List Text → Tx → Tx
  migrate [] tx = tx
  migrate (stmt ∷ stmts) tx = migrate stmts (execute stmt tx).1

  -- Whether it returns, and what is committed then; an exception that leaves `engine.begin()` rolls
  -- the transaction back.
  unfoldable pub init_db : State → Bool × State
  init_db s = elim (begin s) [
    | none ↦ (false, s)
    | some tx ↦ elim (create_all tx) [
      | none ↦ (false, s)
      | some made ↦ (true, commit s (migrate migrations made))
    ]
  ]

  -- All the statements succeed, and leave the last transaction.
  pub data AllRun : List Text → Tx → Tx → Type 0 where
    no_more : {tx : Tx} → AllRun [] tx tx
    one_more :
        {stmt : Text} {stmts : List Text} {tx last : Tx}
        → (execute stmt tx).0 ≡ true
        → AllRun stmts (execute stmt tx).1 last
        → AllRun (stmt ∷ stmts) tx last

  -- One of the statements fails.
  pub data OneFails : List Text → Tx → Type 0 where
    here :
        {stmt : Text} {stmts : List Text} {tx : Tx}
        → (execute stmt tx).0 ≡ false
        → OneFails (stmt ∷ stmts) tx
    later :
        {stmt : Text} {stmts : List Text} {tx : Tx}
        → OneFails stmts (execute stmt tx).1
        → OneFails (stmt ∷ stmts) tx

  aborted-migrate :
      (stmts : List Text) (tx : Tx) → aborted tx ≡ true → aborted (migrate stmts tx) ≡ true
  unfolding migrate
  aborted-migrate [] tx h = h
  aborted-migrate (stmt ∷ stmts) tx h = aborted-migrate stmts (execute stmt tx).1 (stays stmt tx h)

  fails-aborted :
      (stmts : List Text) (tx : Tx) → OneFails stmts tx → aborted (migrate stmts tx) ≡ true
  unfolding migrate
  fails-aborted [] tx h = elim h [ ]
  fails-aborted (stmt ∷ stmts) tx (here h) =
      aborted-migrate stmts (execute stmt tx).1 (aborts stmt tx h)
  fails-aborted (stmt ∷ stmts) tx (later h) = fails-aborted stmts (execute stmt tx).1 h

  migrate-cases :
      (stmts : List Text) (tx : Tx) → AllRun stmts tx (migrate stmts tx) ⊎ OneFails stmts tx
  unfolding migrate
  migrate-cases [] tx = inl no_more
  migrate-cases (stmt ∷ stmts) tx = elim (Bool-cases (execute stmt tx).0) [
    | inr fails ↦ inr (here fails)
    | inl runs ↦ elim (migrate-cases stmts (execute stmt tx).1) [
      | inl all ↦ inl (one_more runs all)
      | inr fails ↦ inr (later fails)
    ]
  ]

  -- How the start of the database ends.
  pub data Initialised (s : State) : Bool × State → Type 0 where
    unreachable : begin s ≡ none → Initialised s (false, s)
    no_tables : {tx : Tx} → begin s ≡ some tx → create_all tx ≡ none → Initialised s (false, s)
    migrated :
        {tx made last : Tx}
        → begin s ≡ some tx
        → create_all tx ≡ some made
        → AllRun migrations made last
        → Initialised s (true, commit s last)
    undone :
        {tx made : Tx}
        → begin s ≡ some tx
        → create_all tx ≡ some made
        → OneFails migrations made
        → Initialised s (true, s)

  made-Initialised :
      (s : State) (tx made : Tx)
      → begin s ≡ some tx
      → create_all tx ≡ some made
      → Initialised s (true, commit s (migrate migrations made))
  made-Initialised s tx made b c = elim (migrate-cases migrations made) [
    | inl all ↦ migrated b c all
    | inr fails ↦
        rw (rolls_back s (migrate migrations made) (fails-aborted migrations made fails))
          (undone b c fails)
  ]

  -- The start of the database raises, and leaves it as it was, if it cannot be reached or its tables
  -- cannot be made. If all the statements run, tables and migrations are committed together. If one of
  -- the statements fails, the start returns normally all the same, but everything is undone, the
  -- tables too: the database is as it was.
  pub init_db-Initialised : (s : State) → Initialised s (init_db s)
  unfolding init_db
  init_db-Initialised s = elim (Option-cases (begin s)) [
    | inl none_begun ↦ rw (none_begun, init_db) (unreachable none_begun)
    | inr (tx, b) ↦
        rw (b, init_db)
          (elim (Option-cases (create_all tx)) [
            | inl none_made ↦ rw none_made (no_tables b none_made)
            | inr (made, c) ↦ rw c (made-Initialised s tx made b c)
          ])
  ]
