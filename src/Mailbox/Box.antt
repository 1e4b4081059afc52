-- ===== src/Mailbox/Box.antt =====
-- internal/mailbox/mailbox.go: `connect`, `disconnect` and `copy`.
use go_boxcopy.Base.{
  length, ℕ, ◌+◌, ◌%◌, ◌^◌, String, Bool, List, [], ◌∷◌, Option, none, some, ◌==◌, nat_eq,
  if◌then◌else◌,
}
use go_boxcopy.Base.Errors.{Error, errorf, wrapf, num, nil_dereference, Result, ok, err}
use go_boxcopy.Base.Exec.{pure, raise, handle, resume, ◌>>=◌, ◌>>◌}
use go_boxcopy.State.Ops.{update_mailbox_last_sync}
use go_boxcopy.Imap.Api.{Api}
use go_boxcopy.Imap.Data.{Folder}
use go_boxcopy.Imap.Message.{is_no_select}
use go_boxcopy.Imap.Client.{Client, dial, close}
use go_boxcopy.Imap.Folders.{list_folders}
use go_boxcopy.Mailbox.Data.{
  idle, connecting, copying, disconnecting, Job, Mailbox, InSession, InSys, set_status, set_error,
}
use go_boxcopy.Mailbox.Folder.{copy_folders, copy_folder}

module _ (api : Api) (job : Job) where
  open api use {World, Conn}

  abbrev pub set : (Mailbox Conn → Mailbox Conn) → InSys api (Unit {0})
  set f s = (ok tt, record s { box = f s.box })

  -- m.setError(e); return m.lastError
  abbrev pub fail : {A : Type 0} → Error → InSys api A
  fail e s = (err e, record s { box = set_error e s.box })

  -- imap.Dial from a mailbox.
  unfoldable pub dial_source : InSys api (Client Conn)
  unfolding dial
  dial_source s =
      let (r, w) =
        dial api job.source_server job.config.source_user job.config.source_password s.world in
      (r, record s { world = w })

  unfoldable pub dial_target : InSys api (Client Conn)
  unfolding dial
  dial_target s =
      let (r, w) =
        dial api job.target_server job.config.target_user job.config.target_password s.world in
      (r, record s { world = w })

  -- Close of a client that the mailbox lets go of.
  unfoldable pub close_client : Client Conn → InSys api (Unit {0})
  unfolding close
  close_client c s = let (r, l) = close api (c, s.world) in (r, record s { world = l.1 })

  unfoldable pub connect_target : Client Conn → InSys api (Unit {0})
  connect_target source =
      handle dial_target
        (λ target. set (λ m. record m { target_client = some target }) >> set (set_status idle))
        (λ e.
          handle (close_client source) pure (λ _. pure tt)
          >> set (λ m. record m { source_client = none })
          >> fail (wrapf "target connection failed: %w" [] e))

  -- From the point where the mailbox is not connected yet.
  unfoldable pub connect_anew : InSys api (Unit {0})
  connect_anew =
      set (set_status connecting)
      >> handle dial_source
          (λ source. set (λ m. record m { source_client = some source }) >> connect_target source)
          (λ e. fail (wrapf "source connection failed: %w" [] e))

  unfoldable pub connect : InSys api (Unit {0})
  connect s = elim s.box.source_client [
    | none ↦ connect_anew s
    | some _ ↦ elim s.box.target_client [ none ↦ connect_anew s | some _ ↦ (ok tt, s) ]
  ]

  -- Close of a client, if there is one, with the error that it is reported under.
  unfoldable pub close_if : String → Option (Client Conn) → InSys api (Unit {0})
  close_if format none = pure tt
  close_if format (some c) = handle (close_client c) pure (λ e. raise (wrapf format [] e))

  -- The first of the two errors.
  abbrev pub both : Result (Unit {0}) → Result (Unit {0}) → Result (Unit {0})
  both (ok _) r = r
  both (err e) r = err e

  unfoldable pub disconnect : InSys api (Unit {0})
  unfolding close_if
  disconnect s =
      let s1 = record s {
        box = record s.box { status = disconnecting; source_client = none; target_client = none };
      } in
      let (r1, s2) = close_if "source disconnect: %w" s.box.source_client s1 in
      let (r2, s3) = close_if "target disconnect: %w" s.box.target_client s2 in
      resume pure fail (both r1 r2, record s3 { box = set_status idle s3.box })

  -- A method that wants both clients, and returns an error where one is missing.
  unfoldable pub with_session : {A : Type 0} → InSession api A → InSys api A
  with_session f s = elim s.box.source_client [
    | none ↦ (err (errorf "not connected" []), s)
    | some source ↦ elim s.box.target_client [
      | none ↦ (err (errorf "not connected" []), s)
      | some target ↦
          let (r, t) = f (record {
            box = s.box;
            source = source;
            target = target;
            state = s.state;
            world = s.world;
          }) in
          (
            r,
            record {
              box = record t.box { source_client = some t.source; target_client = some t.target };
              state = t.state;
              world = t.world;
            },
          )
    ]
  ]

  -- m.sourceClient.ListFolders()
  unfoldable pub list_source : InSys api (List Folder)
  list_source s = elim s.box.source_client [
    | none ↦ (err nil_dereference, s)
    | some source ↦
        let (r, l) = list_folders api (source, s.world) in
        (r, record s { box = record s.box { source_client = some l.0 }; world = l.1 })
  ]

  -- The loop over the folders, with the count of those that failed. `plan` is the schedule of each
  -- folder's pipeline, by the number of folders that come after it.
  unfoldable pub copy_loop : (ℕ → List Bool) → List Folder → ℕ → InSys api ℕ
  copy_loop plan [] fails = pure fails
  copy_loop plan (folder ∷ folders) fails =
      let rest = copy_loop plan folders in
      if is_no_select folder
      then rest fails
      else handle (with_session (copy_folder api job (plan (length folders)) folder.name))
          (λ _. rest fails)
          (λ _.
            handle disconnect pure (λ _. pure tt)
            >> handle connect (λ _. rest (fails + 1)) (λ _. pure (fails + 1)))

  -- What `copy` does after the loop.
  unfoldable pub conclude : ℕ → InSys api (Unit {0})
  conclude fails s =
      let (now, w1) = api.now s.world in
      let (later, w2) = api.now w1 in
      (
        if fails == 0 then ok tt else err (errorf "%d folder(s) failed to copy" (num fails ∷ [])),
        record {
          box = record s.box {
            status = idle;
            last_sync = now;
            sync_count = (s.box.sync_count + 1) % 2 ^ 64;
          };
          state = update_mailbox_last_sync s.state job.config.name later;
          world = w2;
        },
      )

  -- `copy` between the connect and the deferred disconnect.
  unfoldable pub copy_connected : (ℕ → List Bool) → InSys api (Unit {0})
  copy_connected plan =
      set (set_status copying)
      >> handle (with_session (copy_folders api job))
          (λ _.
            handle list_source (λ folders. copy_loop plan folders 0 >>= conclude)
              (λ e. fail (wrapf "failed to list folders: %w" [] e)))
          fail

  -- The deferred function: its error counts only if there is none yet.
  unfoldable pub then_disconnect : InSys api (Unit {0}) → InSys api (Unit {0})
  then_disconnect body s = let (r, s1) = body s in let (d, s2) = disconnect s1 in (both r d, s2)

  unfoldable pub copy : (ℕ → List Bool) → InSys api (Unit {0})
  copy plan = connect >> then_disconnect (copy_connected plan)
