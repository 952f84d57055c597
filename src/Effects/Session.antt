-- ===== src/Effects/Session.antt =====
-- The session and the clock: `datetime.utcnow()`, reads and writes of the session, `db.commit()`,
-- and the end of a request, which drops what was not committed (backend/src/db/session.py).
use slot_booking.Base.{ℕ, Bool, if◌then◌else◌, suc, ◌*◌, ◌++◌, ◌∷◌, []}
use slot_booking.Models.{Database}
use slot_booking.Effects.Monad.{Action, ok, err, integrity_error}
use slot_booking.Effects.Outside.{Channel, Services, World}

-- Spans of time, in microseconds.
abbrev pub seconds : ℕ → ℕ
seconds n = n * 1_000_000

abbrev pub minutes : ℕ → ℕ
minutes n = n * 60_000_000

abbrev pub hours : ℕ → ℕ
hours n = n * 3_600_000_000

abbrev pub days : ℕ → ℕ
days n = n * 86_400_000_000

module _ {s : Services} where
  abbrev pub utcnow : Action (World s) ℕ
  utcnow w = (ok (w.clock w.reads), record w { reads = suc w.reads })

  abbrev pub query : {A : Type 0} → (Database → A) → Action (World s) A
  query f w = (ok (f w.db), w)

  abbrev pub write : (Database → Database) → Action (World s) (Unit {0})
  write f w = (ok tt, record w { db = f w.db })

  abbrev pub commit : Action (World s) (Unit {0})
  commit w = (ok tt, record w { saved = w.db })

  -- `await db.flush()`, where a broken uniqueness constraint rolls the transaction back.
  abbrev pub flush_unless : Bool → Action (World s) (Unit {0})
  flush_unless broken w = (
    if broken then err integrity_error else ok tt,
    record w { db = if broken then w.saved else w.db },
  )

  -- A notification handed to a channel.
  abbrev pub send : Channel → ℕ → Action (World s) (Unit {0})
  send channel id w = (ok tt, record w { outbox = w.outbox ++ (channel, id) ∷ [] })

  -- A request: a new session sees what is committed, and what it does not commit is lost.
  unfoldable pub run_request : {A : Type 0} → Action (World s) A → Action (World s) A
  run_request handler w =
      let (r, w') = handler (record w { db = w.saved }) in (r, record w' { db = w'.saved })
