-- ===== src/Imap/Client.antt =====
-- internal/imap/client.go, folder.go, message.go: the methods of `Client`. Each holds the client's
-- lock throughout. `Imap.Keepalive` has the keepalive goroutine, which no caller asks `Dial` for.
use go_boxcopy.Base.{
  String, Bool, true, false, List, [], ◌∷◌, Option, none, some, ◌==◌, nat_eq, string_eq,
  if◌then◌else◌,
}
use go_boxcopy.Base.Errors.{
  Arg, str, int, Error, wrapf, nil_dereference, Result, ok, err, failing, relabel,
}
use go_boxcopy.Base.Exec.{Exec, pure, ◌>>=◌, ◌>>◌}
use go_boxcopy.Config.Data.{ServerConfig}
use go_boxcopy.Imap.Data.{MailboxInfo, SelectData}
use go_boxcopy.Imap.Api.{Api}
use go_boxcopy.Imap.Message.{convert_flags}

-- `conn` is nil once the client is closed, `done` the channel that stops the keepalive.
pub record Client (Conn : Type 0) : Type 0 where
  pub conn : Option Conn
  pub server : ServerConfig
  pub user : String
  pub selected : String
  pub done : Bool

module _ (api : Api) where
  open api use {World, Conn}

  -- A client and the world that it talks to.
  abbrev pub Link : Type 0
  Link = Client Conn × World

  unfoldable pub dial : ServerConfig → String → String → World → Result (Client Conn) × World
  dial server user password w = elim (api.dial server.tls server.host server.port w).0 [
    | err e ↦ (
      err (wrapf "failed to connect to %s: %w" (str server.host ∷ int server.port ∷ []) e),
      (api.dial server.tls server.host server.port w).1,
    )
    | ok conn ↦
        let w1 = (api.dial server.tls server.host server.port w).1 in
        let (refused, w2) = api.login conn user password w1 in
        elim refused [
          | some e ↦
              (err (wrapf "failed to login as %s: %w" (str user ∷ []) e), (api.close conn w2).1)
          | none ↦ (
            ok (record {
              conn = some conn;
              server = server;
              user = user;
              selected = "";
              done = true;
            }),
            w2,
          )
        ]
  ]

  -- A command on the connection.
  unfoldable pub command : {A : Type 0} → (Conn → World → Result A × World) → Exec Link A
  command f (c, w) = elim c.conn [
    | none ↦ (err nil_dereference, (c, w))
    | some conn ↦ let (r, w') = f conn w in (r, (c, w'))
  ]

  -- A command that answers with an error or nothing.
  unfoldable pub run :
      String → List Arg → (Conn → World → Option Error × World) → Exec Link (Unit {0})
  unfolding command
  run format args f = command (λ conn w. let (o, w') = f conn w in (failing format args o, w'))

  -- A failed logout is only logged. A failed close keeps the connection.
  unfoldable pub close : Exec Link (Unit {0})
  close (c, w) = elim c.conn [
    | none ↦ (ok tt, (c, w))
    | some conn ↦
        let w1 = (api.logout conn w).1 in
        let (o, w2) = api.close conn w1 in
        elim o [
          | some e ↦
              (err (wrapf "failed to close connection: %w" [] e), (record c { done = false }, w2))
          | none ↦ (ok tt, (record c { conn = none; done = false }, w2))
        ]
  ]

  abbrev pub mailbox_info : String → SelectData → MailboxInfo
  mailbox_info mailbox info = record {
    name = mailbox;
    num_messages = info.num_messages;
    uid_validity = info.uid_validity;
    uid_next = info.uid_next;
    flags = convert_flags info.flags;
  }

  -- c.selected = mailbox
  abbrev pub set_selected : String → Exec Link (Unit {0})
  set_selected mailbox (c, w) = (ok tt, (record c { selected = mailbox }, w))

  unfoldable pub select : String → Exec Link MailboxInfo
  unfolding command
  select mailbox = do
    info ← command (λ conn w.
        let (r, w') = api.select conn mailbox false w in
        (relabel "failed to select mailbox %s: %w" (str mailbox ∷ []) r, w'))
    set_selected mailbox
    pure (mailbox_info mailbox info)

  unfoldable pub select_read_only : String → Exec Link MailboxInfo
  unfolding command
  select_read_only mailbox = do
    info ← command (λ conn w.
        let (r, w') = api.select conn mailbox true w in
        (relabel "failed to examine mailbox %s: %w" (str mailbox ∷ []) r, w'))
    set_selected mailbox
    pure (mailbox_info mailbox info)

  unfoldable pub unselect : Exec Link (Unit {0})
  unfolding run
  unselect (c, w) =
      if c.selected == ""
      then (ok tt, (c, w))
      else (run "failed to unselect mailbox: %w" [] api.unselect >> set_selected "") (c, w)

  unfoldable pub noop : Exec Link (Unit {0})
  unfolding run
  noop (c, w) = elim c.conn [
    | none ↦ (ok tt, (c, w))
    | some _ ↦ run "NOOP failed: %w" [] api.noop (c, w)
  ]
