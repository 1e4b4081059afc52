-- ===== src/Store/File.antt =====
-- internal/state/store.go: the JSON document of the state file. A field that may be missing or null
-- is an `Option`, a pointer that may be null too. The text of the document is not modelled.
use mathlib.Core.Option
use go_boxcopy.Base.{ℕ, String, List, [], ◌∷◌, Option, none, some, get_or, leb, string_eq, nat_eq}
use go_boxcopy.Base.Assoc.{Assoc}
use go_boxcopy.Base.Sort.{sort_by}
use go_boxcopy.State.UidSet.{UidSet, add, to_slice}
use go_boxcopy.State.Data.{Time, FolderState, MailboxState, State}

pub record FolderFile : Type 0 where
  pub name : String
  pub uid_validity : ℕ
  pub uid_next : ℕ
  pub last_sync : Time
  pub synced_uids : Option (List ℕ)
  pub highest_uid : ℕ
  pub message_count : ℕ
  pub uid_map : Option (Assoc ℕ ℕ)

pub record MailboxFile : Type 0 where
  pub name : String
  pub folders : Option (Assoc String (Option FolderFile))
  pub last_sync : Time
  pub sync_count : ℕ

pub record StateFile : Type 0 where
  pub version : ℕ
  pub updated_at : Time
  pub mailboxes : Option (Assoc String (Option MailboxFile))

abbrev pub current_version : ℕ
current_version = 1

-- `UIDSet.MarshalJSON`: the UIDs in ascending order.
unfoldable pub marshal_uids : UidSet → List ℕ
marshal_uids u = sort_by leb (to_slice u)

-- `UIDSet.UnmarshalJSON`: a set with each UID of the array.
unfoldable pub unmarshal_uids : List ℕ → UidSet
unmarshal_uids [] = []
unmarshal_uids (uid ∷ uids) = add (unmarshal_uids uids) uid

unfoldable pub map_values {ℓ κ μ} :
    {K : Type ℓ} {V : Type κ} {W : Type μ} → (V → W) → Assoc K V → Assoc K W
map_values f [] = []
map_values f ((k, v) ∷ m) = (k, f v) ∷ map_values f m

unfoldable pub marshal_folder : FolderState → FolderFile
marshal_folder fs = record {
  name = fs.name;
  uid_validity = fs.uid_validity;
  uid_next = fs.uid_next;
  last_sync = fs.last_sync;
  synced_uids = some (marshal_uids fs.synced_uids);
  highest_uid = fs.highest_uid;
  message_count = fs.message_count;
  uid_map = some fs.uid_map;
}

unfoldable pub marshal_mailbox : MailboxState → MailboxFile
marshal_mailbox ms = record {
  name = ms.name;
  folders = some (map_values (λ fs. some (marshal_folder fs)) ms.folders);
  last_sync = ms.last_sync;
  sync_count = ms.sync_count;
}

-- The document that `saveUnlocked` builds.
unfoldable pub marshal : State → Time → StateFile
marshal s now = record {
  version = current_version;
  updated_at = now;
  mailboxes = some (map_values (λ ms. some (marshal_mailbox ms)) s.mailboxes);
}

-- The loop of `Load` over a folder, the mailboxes' folders and the mailboxes; `none` is the panic
-- on a pointer that the document has as null.
unfoldable pub unmarshal_folder : FolderFile → FolderState
unmarshal_folder file = record {
  name = file.name;
  uid_validity = file.uid_validity;
  uid_next = file.uid_next;
  last_sync = file.last_sync;
  synced_uids = elim file.synced_uids [ none ↦ [] | some uids ↦ unmarshal_uids uids ];
  highest_uid = file.highest_uid;
  message_count = file.message_count;
  uid_map = get_or file.uid_map [];
}

unfoldable pub load_values {ℓ κ} :
    {V : Type ℓ} {W : Type κ} → (V → Option W) → Assoc String (Option V) → Option (Assoc String W)
load_values f [] = some []
load_values f ((k, none) ∷ m) = none
load_values f ((k, some v) ∷ m) = elim (f v) [
  | none ↦ none
  | some w ↦ Option.map (λ r. (k, w) ∷ r) (load_values f m)
]

unfoldable pub unmarshal_mailbox : MailboxFile → Option MailboxState
unfolding load_values
unmarshal_mailbox file =
    Option.map
      (λ folders. record {
        name = file.name;
        folders = folders;
        last_sync = file.last_sync;
        sync_count = file.sync_count;
      })
      (load_values (λ folder. some (unmarshal_folder folder)) (get_or file.folders []))

unfoldable pub unmarshal : StateFile → Option (Assoc String MailboxState)
unmarshal file = load_values unmarshal_mailbox (get_or file.mailboxes [])
