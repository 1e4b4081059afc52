-- ===== src/Imap/Fetch.antt =====
-- internal/imap/message.go: `parseFetchMessage` and `drainFetchCmd`.
use go_boxcopy.Base.{
  subst, ℕ, ◌%◌, ◌^◌, ◌<◌, ◌≡◌, true, ◌&&◌, List, [], ◌∷◌, none, some, arith, ◌==◌, nat_eq, inl,
  inr, Bool-cases, if◌then◌else◌,
}
use go_boxcopy.Base.Errors.{errorf, wrapf, num, Result, ok, err, ◌>>=◌, Result-cases}
use go_boxcopy.State.Data.{zero_time}
use go_boxcopy.Imap.Data.{
  Message, FetchOptions, FetchItem, item_uid, item_flags, item_internal_date, item_size,
  item_envelope, item_body, item_other, FetchData, Stream,
}
use go_boxcopy.Imap.Message.{convert_flags, convert_envelope}

-- The switch on one item.
unfoldable pub parse_item : ℕ → Message → FetchItem → Result Message
parse_item seq message (item_uid uid) =
    if uid == 0
    then err (errorf "server returned invalid UID 0 for message seqnum %d" (num seq ∷ []))
    else ok (record message { uid = uid })
parse_item seq message (item_flags flags) = ok (record message { flags = convert_flags flags })
parse_item seq message (item_internal_date t) = ok (record message { internal_date = t })
parse_item seq message (item_size n) = ok (record message { size = n % 2 ^ 32 })
parse_item seq message (item_envelope env) = ok (record message { envelope = convert_envelope env })
parse_item seq message (item_body (ok body)) = ok (record message { body = body })
parse_item seq message (item_body (err e)) = err (wrapf "failed to read message body: %w" [] e)
parse_item seq message item_other = ok message

unfoldable pub parse_items : ℕ → Message → List FetchItem → Result Message
parse_items seq message [] = ok message
parse_items seq message (item ∷ items) = do
  message' ← parse_item seq message item
  parse_items seq message' items

-- Message{SeqNum: seq}
abbrev pub blank_message : ℕ → Message
blank_message seq = record {
  uid = 0;
  seq_num = seq;
  flags = [];
  internal_date = zero_time;
  size = 0;
  envelope = none;
  body = [];
}

unfoldable pub parse_fetch_message : FetchData → FetchOptions → Result Message
parse_fetch_message msg opts = do
  message ← parse_items msg.seq_num (blank_message msg.seq_num) msg.items
  if opts.uid && message.uid == 0
      then err (errorf "server did not return UID for message seqnum %d" (num msg.seq_num ∷ []))
      else ok message

-- The loop over the responses: the first that cannot be parsed ends it.
unfoldable pub parse_all : List FetchData → FetchOptions → Result (List Message)
parse_all [] opts = ok []
parse_all (msg ∷ msgs) opts = do
  m ← parse_fetch_message msg opts
  messages ← parse_all msgs opts
  ok (m ∷ messages)

unfoldable pub drain_fetch_cmd : Stream FetchData → FetchOptions → Result (List Message)
drain_fetch_cmd cmd opts = do
  messages ← parse_all cmd.entries opts
  elim cmd.closing [ none ↦ ok messages | some e ↦ err (wrapf "fetch failed: %w" [] e) ]

-- The last UID among the items, which is the one that counts.
unfoldable pub last_uid : ℕ → List FetchItem → ℕ
last_uid uid [] = uid
last_uid uid (item_uid next ∷ items) = last_uid next items
last_uid uid (_ ∷ items) = last_uid uid items

parse_items_uid :
    (seq : ℕ) (message m : Message) (items : List FetchItem)
    → parse_items seq message items ≡ ok m
    → (m.uid ≡ last_uid message.uid items) × (m.seq_num ≡ message.seq_num)
unfolding parse_items parse_item last_uid
parse_items_uid seq message m [] h = ground arith
parse_items_uid seq message m (item_uid uid ∷ items) h = elim (Bool-cases (uid == 0)) [
  | inl e ↦ absurd (ground arith)
  | inr e ↦ parse_items_uid seq (record message { uid = uid }) m items (ground arith)
]
parse_items_uid seq message m (item_flags flags ∷ items) h = parse_items_uid seq _ m items h
parse_items_uid seq message m (item_internal_date t ∷ items) h = parse_items_uid seq _ m items h
parse_items_uid seq message m (item_size n ∷ items) h = parse_items_uid seq _ m items h
parse_items_uid seq message m (item_envelope env ∷ items) h = parse_items_uid seq _ m items h
parse_items_uid seq message m (item_body (ok body) ∷ items) h = parse_items_uid seq _ m items h
parse_items_uid seq message m (item_body (err e) ∷ items) h = cc
parse_items_uid seq message m (item_other ∷ items) h = parse_items_uid seq message m items h

-- What `m` must be for the response `msg`.
pub record Answers (msg : FetchData) (m : Message) : Type 0 where
  pub uid : m.uid ≡ last_uid 0 msg.items
  pub valid : 0 < m.uid
  pub seq : m.seq_num ≡ msg.seq_num

pub parse_fetch_message_lem :
    (msg : FetchData) (opts : FetchOptions) (m : Message)
    → opts.uid ≡ true
    → parse_fetch_message msg opts ≡ ok m
    → Answers msg m
unfolding parse_fetch_message
parse_fetch_message_lem msg opts m asked h =
    ground (arith, parse_items_uid msg.seq_num (blank_message msg.seq_num) m msg.items)

-- Message by message, in the order of the responses.
abbrev pub AllAnswer : List FetchData → List Message → Type 0
AllAnswer [] [] = Unit
AllAnswer (msg ∷ msgs) (m ∷ ms) = Answers msg m × AllAnswer msgs ms
AllAnswer _ _ = ⊥

parse_all_lem :
    (msgs : List FetchData) (opts : FetchOptions) (ms : List Message)
    → opts.uid ≡ true
    → parse_all msgs opts ≡ ok ms
    → AllAnswer msgs ms
unfolding parse_all
parse_all_lem [] opts [] asked h = tt
parse_all_lem [] opts (m ∷ ms) asked h = ground arith
parse_all_lem (msg ∷ msgs) opts ms asked h = elim (Result-cases (parse_fetch_message msg opts)) [
  | inr (e, p) ↦ absurd (ground arith)
  | inl (m, p) ↦ elim (Result-cases (parse_all msgs opts)) [
    | inr (e, q) ↦ absurd (ground arith)
    | inl (rest, q) ↦
        subst (AllAnswer (msg ∷ msgs)) {x = m ∷ rest} (ground arith)
          (parse_fetch_message_lem msg opts m asked p, parse_all_lem msgs opts rest asked q)
  ]
]

-- A fetch that asks for UIDs and succeeds has one message for each response, in their order, with
-- the last UID that the response gave, which is not 0.
pub drain_fetch_cmd_lem :
    (cmd : Stream FetchData) (opts : FetchOptions) (ms : List Message)
    → opts.uid ≡ true
    → drain_fetch_cmd cmd opts ≡ ok ms
    → AllAnswer cmd.entries ms
unfolding drain_fetch_cmd
drain_fetch_cmd_lem cmd opts ms asked h = elim (Result-cases (parse_all cmd.entries opts)) [
  | inr (e, p) ↦ absurd (ground arith)
  | inl (rest, p) ↦ parse_all_lem cmd.entries opts ms asked (ground arith)
]
