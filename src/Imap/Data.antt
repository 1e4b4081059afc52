-- ===== src/Imap/Data.antt =====
-- internal/imap/message.go, folder.go and client.go: the records, and the data that the IMAP library
-- (github.com/emersion/go-imap, not part of the repository) hands over.
use go_boxcopy.Base.{ℕ, String, Bool, List, Option}
use go_boxcopy.Base.Errors.{Error, Result}
use go_boxcopy.State.Data.{Time}

abbrev pub Bytes : Type 0
Bytes = List ℕ

pub record Address : Type 0 where
  pub name : String
  pub mailbox : String
  pub host : String

pub record Envelope : Type 0 where
  pub date : Time
  pub subject : String
  pub from : List Address
  pub to : List Address
  pub cc : List Address
  pub bcc : List Address
  pub reply_to : List Address
  pub message_id : String
  pub in_reply_to : String

pub record Message : Type 0 where
  pub uid : ℕ
  pub seq_num : ℕ
  pub flags : List String
  pub internal_date : Time
  pub size : ℕ
  pub envelope : Option Envelope
  pub body : Bytes

pub record FetchOptions : Type 0 where
  pub uid : Bool
  pub flags : Bool
  pub internal_date : Bool
  pub size : Bool
  pub envelope : Bool
  pub body : Bool
  pub body_peek : Bool

pub record Folder : Type 0 where
  pub name : String
  pub delimiter : String
  pub attributes : List String
  pub num_messages : Option ℕ
  pub num_unseen : Option ℕ

pub record MailboxInfo : Type 0 where
  pub name : String
  pub num_messages : ℕ
  pub uid_validity : ℕ
  pub uid_next : ℕ
  pub flags : List String

pub record FolderStatusInfo : Type 0 where
  pub name : String
  pub num_messages : ℕ
  pub num_unseen : ℕ
  pub uid_next : ℕ
  pub uid_validity : ℕ

-- imap.Address and imap.Envelope
pub record WireAddress : Type 0 where
  pub name : String
  pub mailbox : String
  pub host : String

pub record WireEnvelope : Type 0 where
  pub date : Time
  pub subject : String
  pub from : List WireAddress
  pub to : List WireAddress
  pub cc : List WireAddress
  pub bcc : List WireAddress
  pub reply_to : List WireAddress
  pub message_id : String
  pub in_reply_to : List String

-- The items of a fetch response. The size is the bit pattern of an `int64`, and a body is read
-- from the connection, which can fail.
pub data FetchItem : Type 0 where
  item_uid : ℕ → FetchItem
  item_flags : List String → FetchItem
  item_internal_date : Time → FetchItem
  item_size : ℕ → FetchItem
  item_envelope : Option WireEnvelope → FetchItem
  item_body : Result Bytes → FetchItem
  item_other : FetchItem

pub record FetchData : Type 0 where
  pub seq_num : ℕ
  pub items : List FetchItem

-- What the calls of `Next` yield, and what `Close` returns.
pub record Stream (A : Type 0) : Type 0 where
  pub entries : List A
  pub closing : Option Error

-- imap.FetchOptions: `body_section` is whether and how the one body section is asked for.
pub record WireFetchOptions : Type 0 where
  pub uid : Bool
  pub flags : Bool
  pub internal_date : Bool
  pub rfc822_size : Bool
  pub envelope : Bool
  pub body_section : Option Bool

pub record SelectData : Type 0 where
  pub num_messages : ℕ
  pub uid_validity : ℕ
  pub uid_next : ℕ
  pub flags : List String

pub record ListData : Type 0 where
  pub mailbox : String
  pub delim : String
  pub attrs : List String
  pub status : Option (Option ℕ × Option ℕ)

pub record StatusData : Type 0 where
  pub mailbox : String
  pub num_messages : Option ℕ
  pub num_unseen : Option ℕ
  pub uid_next : ℕ
  pub uid_validity : ℕ

-- A UID set: the range 1:*, or single UIDs.
pub data UidRange : Type 0 where
  all_uids : UidRange
  these : List ℕ → UidRange

pub data StoreOp : Type 0 where
  set_flags add_flags del_flags : StoreOp
