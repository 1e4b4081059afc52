-- ===== src/Imap/Messages.antt =====
-- internal/imap/message.go: the methods of `Client` on messages.
use go_boxcopy.Base.{
  ℕ, ◌+◌, ◌%◌, ◌^◌, String, ◌≡◌, ◌<◌, true, false, not, List, [], ◌∷◌, Option, none, some, get_or,
  ◌==◌, nat_eq, string_eq, if◌then◌else◌, arith,
}
use go_boxcopy.Base.Errors.{errorf, Result, ok, err, relabel}
use go_boxcopy.Base.Exec.{handle, Exec, pure, lift, ◌>>=◌, ◌>>◌}
use go_boxcopy.State.Data.{Time, zero_time}
use go_boxcopy.Imap.Data.{
  Message, FetchOptions, FetchItem, item_size, FetchData, UidRange, all_uids, these, StoreOp,
  set_flags, add_flags, del_flags, WireFetchOptions,
}
use go_boxcopy.Imap.Api.{Api}
use go_boxcopy.Imap.Message.{
  default_fetch_options, build_fetch_opts, client_settable_flags, convert_flags, flag_deleted,
}
use go_boxcopy.Imap.Fetch.{drain_fetch_cmd}
use go_boxcopy.Imap.Client.{Link, command, run}
use go_boxcopy.Imap.Folders.{when_closed}

-- The sizes of one response, and of all, added up in a `uint64`.
unfoldable pub item_sizes : ℕ → List FetchItem → ℕ
item_sizes total [] = total
item_sizes total (item_size n ∷ items) = item_sizes ((total + n) % 2 ^ 64) items
item_sizes total (_ ∷ items) = item_sizes total items

unfoldable pub total_size : ℕ → List FetchData → ℕ
total_size total [] = total
total_size total (msg ∷ msgs) = total_size (item_sizes total msg.items) msgs

-- { RFC822Size: true }
abbrev pub size_options : WireFetchOptions
size_options = record {
  uid = false;
  flags = false;
  internal_date = false;
  rfc822_size = true;
  envelope = false;
  body_section = none;
}

-- The checked answer of an append.
unfoldable pub appended_uid : Option ℕ → Result ℕ
appended_uid none = err (errorf "append succeeded but server returned no valid UID" [])
appended_uid (some uid) =
    if uid == 0 then err (errorf "append succeeded but server returned no valid UID" []) else ok uid

-- The UIDs of a search without those that are 0.
unfoldable pub valid_uids : List ℕ → List ℕ
valid_uids [] = []
valid_uids (uid ∷ uids) = let rest = valid_uids uids in if uid == 0 then rest else uid ∷ rest

module _ (api : Api) where
  -- Fetch and drain.
  unfoldable pub fetch : UidRange → FetchOptions → Exec (Link api) (List Message)
  unfolding command
  fetch range opts = command api (λ conn w.
      let (s, w') = api.fetch conn range (build_fetch_opts opts) w in (drain_fetch_cmd s opts, w'))

  unfoldable pub fetch_by_uid : List ℕ → Option FetchOptions → Exec (Link api) (List Message)
  unfolding fetch
  fetch_by_uid [] opts = pure []
  fetch_by_uid (uid ∷ uids) opts = fetch (these (uid ∷ uids)) (get_or opts default_fetch_options)

  unfoldable pub fetch_all : Option FetchOptions → Exec (Link api) (List Message)
  unfolding fetch
  fetch_all opts = fetch all_uids (get_or opts default_fetch_options)

  unfoldable pub fetch_all_sizes : Exec (Link api) ℕ
  unfolding command
  fetch_all_sizes = command api (λ conn w.
      let (s, w') = api.fetch conn all_uids size_options w in
      (when_closed "fetch sizes failed: %w" s.closing (total_size 0 s.entries), w'))

  unfoldable pub append : String → Message → Exec (Link api) ℕ
  unfolding command run
  append mailbox msg = do
    run api "failed to write message body: %w" [] (λ conn.
        api.append_write conn mailbox (convert_flags (client_settable_flags msg.flags))
          (if not (msg.internal_date == zero_time) then some msg.internal_date else none) msg.body)
    run api "failed to close append: %w" [] api.append_close
    answer ←
        command api
          (λ conn w. let (r, w') = api.append_wait conn w in (relabel "append failed: %w" [] r, w'))
    lift (appended_uid answer)

  unfoldable pub store_flags : List ℕ → List String → StoreOp → Exec (Link api) (Unit {0})
  unfolding run
  store_flags [] flags op = pure tt
  store_flags (uid ∷ uids) flags op =
      run api "store flags failed: %w" []
        (λ conn. api.store conn (these (uid ∷ uids)) op (convert_flags flags))

  unfoldable pub set_message_flags : List ℕ → List String → Exec (Link api) (Unit {0})
  unfolding store_flags
  set_message_flags uids flags = store_flags uids flags set_flags

  unfoldable pub add_message_flags : List ℕ → List String → Exec (Link api) (Unit {0})
  unfolding store_flags
  add_message_flags uids flags = store_flags uids flags add_flags

  unfoldable pub remove_message_flags : List ℕ → List String → Exec (Link api) (Unit {0})
  unfolding store_flags
  remove_message_flags uids flags = store_flags uids flags del_flags

  unfoldable pub mark_deleted : List ℕ → Exec (Link api) (Unit {0})
  unfolding add_message_flags
  mark_deleted uids = add_message_flags uids (flag_deleted ∷ [])

  unfoldable pub expunge : Exec (Link api) (Unit {0})
  unfolding run
  expunge = run api "expunge failed: %w" [] api.expunge

  unfoldable pub copy : List ℕ → String → Exec (Link api) (Unit {0})
  unfolding run
  copy [] dest = pure tt
  copy (uid ∷ uids) dest =
      run api "copy failed: %w" [] (λ conn. api.copy conn (these (uid ∷ uids)) dest)

  unfoldable pub move : List ℕ → String → Exec (Link api) (Unit {0})
  unfolding run
  move [] dest = pure tt
  move (uid ∷ uids) dest =
      run api "move failed: %w" [] (λ conn. api.move conn (these (uid ∷ uids)) dest)

  unfoldable pub search_since : Time → Exec (Link api) (List ℕ)
  unfolding command
  search_since since = do
    uids ← command api (λ conn w.
        let (r, w') = api.uid_search conn since w in (relabel "search failed: %w" [] r, w'))
    pure (valid_uids uids)

  -- A UID that an append reports is not 0.
  pub append_uid :
      (mailbox : String) (msg : Message) (l : Link api) (uid : ℕ)
      → (append mailbox msg l).0 ≡ ok uid
      → 0 < uid
  unfolding append appended_uid handle
  append_uid mailbox msg l uid h = ground arith
