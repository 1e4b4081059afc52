-- ===== src/Mailbox/Answered.antt =====
-- internal/imap/message.go: what a fetch by UIDs hands over of the responses of the server.
use go_boxcopy.Base.{
  ℕ, String, ◌≡◌, refl, Bool, true, List, [], ◌∷◌, none, some, ◌⊎◌, inl, inr, arith, ◌==◌, nat_eq,
  string_eq, contains, subst, Bool-cases, Option-cases,
}
use go_boxcopy.Base.Errors.{ok, err, Result-cases}
use go_boxcopy.Imap.Api.{Api}
use go_boxcopy.Imap.Data.{
  Message, FetchItem, item_uid, item_flags, item_internal_date, item_size, item_envelope, item_body,
  item_other, FetchData, Stream, these,
}
use go_boxcopy.Imap.Message.{
  full_fetch_options, build_fetch_opts, convert_flags, flag_deleted, is_deleted, has_flag,
}
use go_boxcopy.Imap.Fetch.{
  parse_item, parse_items, parse_fetch_message, parse_all, drain_fetch_cmd, blank_message, last_uid,
  parse_fetch_message_lem,
}
use go_boxcopy.Imap.Client.{Link, command}
use go_boxcopy.Imap.Messages.{fetch, fetch_by_uid}

-- The last flags among the items, which are those that count.
unfoldable pub last_flags : List String → List FetchItem → List String
last_flags flags [] = flags
last_flags flags (item_flags next ∷ items) = last_flags (convert_flags next) items
last_flags flags (_ ∷ items) = last_flags flags items

parse_items_flags :
    (seq : ℕ) (message m : Message) (items : List FetchItem)
    → parse_items seq message items ≡ ok m
    → m.flags ≡ last_flags message.flags items
unfolding parse_items parse_item last_flags
parse_items_flags seq message m [] h = ground arith
parse_items_flags seq message m (item_uid uid ∷ items) h = elim (Bool-cases (uid == 0)) [
  | inl e ↦ absurd (ground arith)
  | inr e ↦ parse_items_flags seq (record message { uid = uid }) m items (ground arith)
]
parse_items_flags seq message m (item_flags flags ∷ items) h = parse_items_flags seq _ m items h
parse_items_flags seq message m (item_internal_date t ∷ items) h = parse_items_flags seq _ m items h
parse_items_flags seq message m (item_size n ∷ items) h = parse_items_flags seq _ m items h
parse_items_flags seq message m (item_envelope env ∷ items) h = parse_items_flags seq _ m items h
parse_items_flags seq message m (item_body (ok body) ∷ items) h = parse_items_flags seq _ m items h
parse_items_flags seq message m (item_body (err e) ∷ items) h = cc
parse_items_flags seq message m (item_other ∷ items) h = parse_items_flags seq message m items h

-- A UID, and whether its message is marked as deleted on the source.
module _ (uid : ℕ) (gone : Bool) where
  -- One of the messages is that of the UID; it is marked as deleted only if it is said to be.
  abbrev pub Owed : List Message → Type 0
  Owed [] = ⊥
  Owed (msg ∷ msgs) = ((msg.uid ≡ uid) × (is_deleted msg ≡ true → gone ≡ true)) ⊎ Owed msgs

  -- One of the responses is that for the UID, likewise.
  abbrev pub OwedEntry : List FetchData → Type 0
  OwedEntry [] = ⊥
  OwedEntry (d ∷ ds) =
      ((last_uid 0 d.items ≡ uid)
        × (contains (last_flags [] d.items) flag_deleted ≡ true → gone ≡ true))
      ⊎ OwedEntry ds

  -- A server answers a fetch with this UID among others by its message too, if it does not fail.
  abbrev pub AnswersAll : Api → Type 0
  AnswersAll api =
      (conn : api.Conn) (uids : List ℕ) (w : api.World)
      → contains uids uid ≡ true
      → (api.fetch conn (these uids) (build_fetch_opts full_fetch_options) w).0.closing ≡ none
      → OwedEntry (api.fetch conn (these uids) (build_fetch_opts full_fetch_options) w).0.entries

  parse_fetch_message-Owed :
      (d : FetchData) (m : Message)
      → parse_fetch_message d full_fetch_options ≡ ok m
      → (last_uid 0 d.items ≡ uid)
        × (contains (last_flags [] d.items) flag_deleted ≡ true → gone ≡ true)
      → (m.uid ≡ uid) × (is_deleted m ≡ true → gone ≡ true)
  unfolding parse_fetch_message full_fetch_options is_deleted has_flag
  parse_fetch_message-Owed d m h o =
      let flags = parse_items_flags d.seq_num (blank_message d.seq_num) m d.items in
      let answer = parse_fetch_message_lem d full_fetch_options m refl h in
      (ground (arith, answer.uid, o.0), λ k. o.1 (ground (arith, flags, k)))

  parse_all-Owed :
      (ds : List FetchData) (ms : List Message)
      → parse_all ds full_fetch_options ≡ ok ms
      → OwedEntry ds
      → Owed ms
  unfolding parse_all
  parse_all-Owed [] ms h o = absurd o
  parse_all-Owed (d ∷ ds) ms h o = elim (Result-cases (parse_fetch_message d full_fetch_options)) [
    | inr (e, p) ↦ absurd (ground arith)
    | inl (m, p) ↦ elim (Result-cases (parse_all ds full_fetch_options)) [
      | inr (e, q) ↦ absurd (ground arith)
      | inl (rest, q) ↦ subst Owed {x = m ∷ rest} (ground arith) (elim o [
        | inl i ↦ inl (parse_fetch_message-Owed d m p i)
        | inr i ↦ inr (parse_all-Owed ds rest q i)
      ])
    ]
  ]

  drain_fetch_cmd-Owed :
      (s : Stream FetchData) (ms : List Message)
      → drain_fetch_cmd s full_fetch_options ≡ ok ms
      → (s.closing ≡ none → OwedEntry s.entries)
      → Owed ms
  unfolding drain_fetch_cmd
  drain_fetch_cmd-Owed s ms h o = elim (Result-cases (parse_all s.entries full_fetch_options)) [
    | inr (e, p) ↦ absurd (ground arith)
    | inl (rest, p) ↦ parse_all-Owed s.entries ms (ground arith) (o (ground arith))
  ]

  pub fetch_by_uid-Owed :
      (api : Api) (uids : List ℕ) (l : Link api) (msgs : List Message)
      → AnswersAll api
      → (fetch_by_uid api uids (some full_fetch_options) l).0 ≡ ok msgs
      → contains uids uid ≡ true
      → Owed msgs
  unfolding fetch_by_uid fetch command contains
  fetch_by_uid-Owed api [] l msgs a h i = absurd (ground (arith, i))
  fetch_by_uid-Owed api (x ∷ xs) (c, w) msgs a h i = elim (Option-cases c.conn) [
    | inl e ↦ absurd (cc (rw (e, fetch_by_uid) at h))
    | inr (conn, e) ↦
        drain_fetch_cmd-Owed
          (api.fetch conn (these (x ∷ xs)) (build_fetch_opts full_fetch_options) w).0 msgs
          (rw (e, fetch_by_uid) at h) (a conn (x ∷ xs) w i)
  ]
