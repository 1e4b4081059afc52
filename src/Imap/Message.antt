-- ===== src/Imap/Message.antt =====
-- internal/imap/message.go, folder.go, client.go: the conversions and the tests on flags.
use Prim.Native.String.{◌++◌ as append}
use go_boxcopy.Base.{
  String, ◌≡◌, Bool, true, false, not, ◌||◌, ◌&&◌, List, [], ◌∷◌, Option, none, some, arith,
  contains, ◌==◌, string_eq, if◌then◌else◌,
}
use go_boxcopy.Imap.Data.{
  Address, Envelope, Message, FetchOptions, Folder, WireAddress, WireEnvelope, WireFetchOptions,
}

abbrev pub flag_seen : String
flag_seen = "\\Seen"

abbrev pub flag_flagged : String
flag_flagged = "\\Flagged"

abbrev pub flag_deleted : String
flag_deleted = "\\Deleted"

-- `Address.String`
unfoldable pub address_string : Address → String
address_string a =
    let plain = append a.mailbox (append "@" a.host) in
    if not (a.name == "") then append a.name (append " <" (append plain ">")) else plain

unfoldable pub default_fetch_options : FetchOptions
default_fetch_options = record {
  uid = true;
  flags = true;
  internal_date = true;
  size = true;
  envelope = true;
  body = false;
  body_peek = false;
}

unfoldable pub full_fetch_options : FetchOptions
full_fetch_options = record {
  uid = true;
  flags = true;
  internal_date = true;
  size = true;
  envelope = true;
  body = true;
  body_peek = true;
}

unfoldable pub build_fetch_opts : FetchOptions → WireFetchOptions
build_fetch_opts opts = record {
  uid = opts.uid;
  flags = opts.flags;
  internal_date = opts.internal_date;
  rfc822_size = opts.size;
  envelope = opts.envelope;
  body_section = if opts.body then some opts.body_peek else none;
}

-- flags that only the server may set
unfoldable pub server_set_flags : String → Bool
server_set_flags f = f == "\\Recent"

unfoldable pub client_settable_flags : List String → List String
client_settable_flags [] = []
client_settable_flags (f ∷ flags) =
    let rest = client_settable_flags flags in if not (server_set_flags f) then f ∷ rest else rest

unfoldable pub convert_addresses : List WireAddress → List Address
convert_addresses [] = []
convert_addresses (a ∷ addrs) =
    record { name = a.name; mailbox = a.mailbox; host = a.host } ∷ convert_addresses addrs

unfoldable pub first_string : List String → String
first_string [] = ""
first_string (s ∷ _) = s

unfoldable pub convert_envelope : Option WireEnvelope → Option Envelope
convert_envelope none = none
convert_envelope (some env) = some (record {
  date = env.date;
  subject = env.subject;
  from = convert_addresses env.from;
  to = convert_addresses env.to;
  cc = convert_addresses env.cc;
  bcc = convert_addresses env.bcc;
  reply_to = convert_addresses env.reply_to;
  message_id = env.message_id;
  in_reply_to = first_string env.in_reply_to;
})

-- `imap.Flag` is a string type, so `convertFlags` and `convertToFlags` copy the list.
unfoldable pub convert_flags : List String → List String
convert_flags [] = []
convert_flags (f ∷ flags) = f ∷ convert_flags flags

unfoldable pub has_flag : Message → String → Bool
has_flag m flag = contains m.flags flag

unfoldable pub is_seen : Message → Bool
unfolding has_flag
is_seen m = has_flag m flag_seen

unfoldable pub is_deleted : Message → Bool
unfolding has_flag
is_deleted m = has_flag m flag_deleted

unfoldable pub is_flagged : Message → Bool
unfolding has_flag
is_flagged m = has_flag m flag_flagged

unfoldable pub has_attribute : Folder → String → Bool
has_attribute f attr = contains f.attributes attr

unfoldable pub is_no_select : Folder → Bool
unfolding has_attribute
is_no_select f = has_attribute f "\\Noselect" || has_attribute f "\\NonExistent"

unfoldable pub has_children : Folder → Bool
unfolding has_attribute
has_children f = has_attribute f "\\HasChildren"

-- A flag goes to the server exactly when the message has it and it is not one that only the server
-- sets.
pub contains-client_settable_flags :
    (flags : List String) (f : String)
    → contains (client_settable_flags flags) f ≡ (not (server_set_flags f) && contains flags f)
unfolding client_settable_flags contains
contains-client_settable_flags [] f = ground arith
contains-client_settable_flags (g ∷ flags) f =
    ground (arith, contains-client_settable_flags flags f, string_eq.beq_iff g f)
