-- ===== src/Tests/ImapTests.antt =====
-- The IMAP client, at a concrete server.
use go_boxcopy.Base.{◌≡◌, refl, [], ◌∷◌, none, string_eq, nat_eq}
use go_boxcopy.Imap.Data.{Stream, FetchData}
use go_boxcopy.Imap.Message.{default_fetch_options, convert_flags}
use go_boxcopy.Imap.Fetch.{
  parse_item, parse_items, parse_fetch_message, parse_all, drain_fetch_cmd, AllAnswer,
  drain_fetch_cmd_lem,
}
use go_boxcopy.Base.Errors.{ok}
use go_boxcopy.Imap.Sizes.{total_size_lem}
use go_boxcopy.Imap.Keepalive.{
  Watched, pinging, stopped, ticks, pings, closes, keeper_step, keeper_run, keeper_leaks,
}
use go_boxcopy.Base.{◌%◌, ◌^◌, ◌≢◌}
use go_boxcopy.Imap.Data.{item_size}
use go_boxcopy.Imap.Client.{Link, close}
use go_boxcopy.Imap.Messages.{total_size}
use go_boxcopy.Tests.Samples.{servers, answer, client, message}

abbrev sized : FetchData
sized = record { seq_num = 1; items = item_size 42 ∷ [] }

abbrev answers : Stream FetchData
answers = record { entries = answer ∷ []; closing = none }

drain_fetch_cmd_lem_example : AllAnswer (answer ∷ []) (message ∷ [])
unfolding parse_item parse_items parse_fetch_message parse_all drain_fetch_cmd convert_flags
    default_fetch_options
drain_fetch_cmd_lem_example =
    drain_fetch_cmd_lem answers default_fetch_options (message ∷ []) refl refl

total_size_lem_example : total_size 0 (sized ∷ sized ∷ []) ≡ 84 % 2 ^ 64
total_size_lem_example = total_size_lem (sized ∷ sized ∷ [])

abbrev open_link : Link servers
open_link = (client "source" 0, 100)

closed_once : (close servers open_link).0 ≡ ok tt
unfolding close
closed_once = refl

abbrev pinged : Watched servers
pinged = record { keeper = pinging; link = open_link }

keeper_leaks_example :
    (keeper_run servers (pings ∷ ticks ∷ pings ∷ []) (keeper_step servers closes pinged)).keeper
    ≢ stopped
keeper_leaks_example =
    keeper_leaks servers 0 pinged (pings ∷ ticks ∷ pings ∷ []) refl refl closed_once
