-- ===== src/Mailbox/Pipeline.antt =====
-- internal/mailbox/copy.go: the fetcher goroutine and the copier loop of `copyFolder`, which a
-- channel of two batches joins. A schedule says which of the two moves next, one step at a time; when
-- it ends, `finish` lets the copier go first until both are done.
use go_boxcopy.Base.{
  ℕ, zero, suc, ◌+◌, String, Bool, true, false, List, [], ◌∷◌, ◌++◌, Option, none, some, length,
  take, drop, ltb, if◌then◌else◌,
}
use go_boxcopy.Base.Errors.{Error, wrapf, Result, ok, err}
use go_boxcopy.Imap.Api.{Api}
use go_boxcopy.Imap.Data.{Message}
use go_boxcopy.Imap.Message.{full_fetch_options}
use go_boxcopy.Imap.Messages.{fetch_by_uid}
use go_boxcopy.Mailbox.Data.{Job, Session, on_source}
use go_boxcopy.Mailbox.Message.{copy_message}

-- msgs, or the error of their fetch
abbrev pub Batch : Type 0
Batch = Result (List Message)

abbrev pub batch_size : ℕ
batch_size = 50

-- cap(batchChan)
abbrev pub channel_size : ℕ
channel_size = 2

-- The session and the variables of the copier loop.
pub record Copier (Conn World : Type 0) : Type 0 where
  pub session : Session Conn World
  pub copy_err : Option Error
  pub msg_fail_count : ℕ

-- `todo` are the UIDs from `start` on, `pending` the batch that the fetcher is about to send,
-- `current` what the copier has left of its batch.
pub record Pipe (Conn World : Type 0) : Type 0 where
  pub todo : List ℕ
  pub closed : Bool
  pub pending : Option Batch
  pub channel : List Batch
  pub current : List Message
  pub copier : Copier Conn World

-- if copyErr == nil { copyErr = e }
abbrev pub first_error : Option Error → Error → Option Error
first_error none e = some e
first_error (some d) e = some d

abbrev pub is_err : Batch → Bool
is_err (ok _) = false
is_err (err _) = true

module _ (api : Api) (job : Job) (folder : String) where
  open api use {World, Conn}

  -- ctx.Err(), in the world of a session
  unfoldable pub check : Session Conn World → Option Error × Session Conn World
  check s = ((api.ctx_err s.world).0, record s { world = (api.ctx_err s.world).1 })

  -- The body of the copier's inner loop: whether it goes on, and the copier after it.
  unfoldable pub copy_one : Message → Copier Conn World → Bool × Copier Conn World
  copy_one msg c = elim (check c.session).0 [
    | some e ↦
        (false, record c { session = (check c.session).1; copy_err = first_error c.copy_err e })
    | none ↦
        let (r, s) = copy_message api job folder msg (check c.session).1 in
        (
          true,
          record c {
            session = s;
            msg_fail_count = elim r [ ok _ ↦ c.msg_fail_count | err _ ↦ c.msg_fail_count + 1 ];
          },
        )
  ]

  -- The fetch of the next batch, with full options.
  unfoldable pub fetch_batch : List ℕ → Session Conn World → Batch × Session Conn World
  fetch_batch uids s =
      on_source api (fetch_by_uid api (take batch_size uids) (some full_fetch_options)) s

  -- A batch whose fetch failed is only recorded.
  abbrev pub fetch_failed : Copier Conn World → Error → Copier Conn World
  fetch_failed c e = record c { copy_err = first_error c.copy_err (wrapf "fetch failed: %w" [] e) }

  -- One step of the fetcher: it sends its batch if there is room, or else fetches the next one,
  -- unless it is through or the context is done.
  unfoldable pub fetch_step : Pipe Conn World → Pipe Conn World
  fetch_step p =
      let c = p.copier in
      if p.closed then p else elim p.pending [
        | some b ↦
            if ltb (length p.channel) channel_size
            then record p { pending = none; channel = p.channel ++ b ∷ []; closed = is_err b }
            else p
        | none ↦ elim p.todo [
          | [] ↦ record p { closed = true }
          | uid ∷ uids ↦ elim (check c.session).0 [
            | some _ ↦ record p {
              closed = true;
              copier = record c { session = (check c.session).1 };
            }
            | none ↦
                let (b, s) = fetch_batch (uid ∷ uids) (check c.session).1 in
                record p {
                  todo = drop batch_size (uid ∷ uids);
                  pending = some b;
                  copier = record c { session = s };
                }
          ]
        ]
      ]

  -- One step of the copier: the next message of its batch, or the next batch.
  unfoldable pub copy_step : Pipe Conn World → Pipe Conn World
  copy_step p = elim p.current [
    | msg ∷ msgs ↦
        let (more, c) = copy_one msg p.copier in
        record p { current = if more then msgs else []; copier = c }
    | [] ↦ elim p.channel [
      | [] ↦ p
      | b ∷ bs ↦ elim b [
        | ok msgs ↦ record p { channel = bs; current = msgs }
        | err e ↦ record p { channel = bs; copier = fetch_failed p.copier e }
      ]
    ]
  ]

  -- `true` is a step of the fetcher.
  unfoldable pub run_schedule : List Bool → Pipe Conn World → Pipe Conn World
  run_schedule [] p = p
  run_schedule (fetcher ∷ schedule) p =
      run_schedule schedule (if fetcher then fetch_step p else copy_step p)

  -- The copier's loops without the fetcher.
  unfoldable pub copy_messages : List Message → Copier Conn World → Copier Conn World
  copy_messages [] c = c
  copy_messages (msg ∷ msgs) c =
      let (more, c') = copy_one msg c in
      let rest = copy_messages msgs c' in if more then rest else c'

  unfoldable pub copy_batch : Batch → Copier Conn World → Copier Conn World
  copy_batch (ok msgs) c = copy_messages msgs c
  copy_batch (err e) c = fetch_failed c e

  unfoldable pub copy_batches : List Batch → Copier Conn World → Copier Conn World
  copy_batches [] c = c
  copy_batches (b ∷ bs) c = copy_batches bs (copy_batch b c)

  -- Fetch and copy in turn; each round takes a batch off `todo`, so that its length is fuel enough.
  unfoldable pub fetch_rest : ℕ → List ℕ → Copier Conn World → Copier Conn World
  fetch_rest zero todo c = c
  fetch_rest (suc fuel) [] c = c
  fetch_rest (suc fuel) (uid ∷ uids) c = elim (check c.session).0 [
    | some _ ↦ record c { session = (check c.session).1 }
    | none ↦
        let (b, s) = fetch_batch (uid ∷ uids) (check c.session).1 in
        let c' = copy_batch b (record c { session = s }) in
        elim (is_err b) [ true ↦ c' | false ↦ fetch_rest fuel (drop batch_size (uid ∷ uids)) c' ]
  ]

  unfoldable pub finish : Pipe Conn World → Copier Conn World
  finish p =
      let c = copy_batches p.channel (copy_messages p.current p.copier) in
      if p.closed then c else elim p.pending [
        | none ↦ fetch_rest (length p.todo) p.todo c
        | some b ↦
            let c' = copy_batch b c in if is_err b then c' else fetch_rest (length p.todo) p.todo c'
      ]

  unfoldable pub run_pipeline : List Bool → List ℕ → Session Conn World → Copier Conn World
  run_pipeline schedule uids s = finish (
      run_schedule schedule (record {
        todo = uids;
        closed = false;
        pending = none;
        channel = [];
        current = [];
        copier = record { session = s; copy_err = none; msg_fail_count = 0 };
      }))
