-- ===== src/Verifier/Compare.antt =====
-- internal/verifier/verifier.go: `verifyMailbox` and the results.
use text.Mathlib.Text.{is_lt}
use Prim.Native.String.{compare as compare_text}
use go_boxcopy.Base.{
  ℕ, String, Bool, true, false, not, ◌&&◌, List, [], ◌∷◌, Option, none, some, get_or, ltb, length,
  ◌==◌, nat_eq, string_eq, if◌then◌else◌,
}
use go_boxcopy.Base.Assoc.{Assoc, keys, lookup, insert}
use go_boxcopy.Base.Sort.{sort_by}
use go_boxcopy.Base.Errors.{Error, wrapf, Result, ok, err}
use go_boxcopy.Base.Exec.{Exec, pure, ◌>>=◌}
use go_boxcopy.Config.Data.{ServerConfig, MailboxConfig}
use go_boxcopy.Imap.Api.{Api}
use go_boxcopy.Imap.Data.{Folder}
use go_boxcopy.Imap.Message.{is_no_select}
use go_boxcopy.Imap.Client.{Client, Link, dial, close, select_read_only}
use go_boxcopy.Imap.Folders.{list_folders}
use go_boxcopy.Imap.Messages.{fetch_all_sizes}

pub record FolderResult : Type 0 where
  pub name : String
  pub src_count : ℕ
  pub tgt_count : ℕ
  pub src_size : ℕ
  pub tgt_size : ℕ

unfoldable pub folder_ok : FolderResult → Bool
folder_ok r = r.src_count == r.tgt_count && r.src_size == r.tgt_size

pub record MailboxResult : Type 0 where
  pub name : String
  pub src_user : String
  pub tgt_user : String
  pub missing_folders : List String
  pub extra_folders : List String
  pub folders : List FolderResult
  pub failure : Option Error

-- The loop of `MailboxResult.OK`.
unfoldable pub all_ok : List FolderResult → Bool
all_ok [] = true
all_ok (r ∷ rs) = if not (folder_ok r) then false else all_ok rs

unfoldable pub mailbox_ok : MailboxResult → Bool
mailbox_ok r = elim r.failure [
  | some _ ↦ false
  | none ↦ if ltb 0 (length r.missing_folders) then false else all_ok r.folders
]

-- The loop that builds a map of the selectable folders' message counts.
unfoldable pub counts : Assoc String ℕ → List Folder → Assoc String ℕ
counts m [] = m
counts m (f ∷ folders) =
    counts (if is_no_select f then m else insert f.name (get_or f.num_messages 0) m) folders

-- The names that are not in a map, and those that are.
unfoldable pub absent : Assoc String ℕ → List String → List String
absent m [] = []
absent m (name ∷ names) = elim (lookup name m) [
  | none ↦ name ∷ absent m names
  | some _ ↦ absent m names
]

unfoldable pub present : Assoc String ℕ → List String → List String
present m [] = []
present m (name ∷ names) = elim (lookup name m) [
  | none ↦ present m names
  | some _ ↦ name ∷ present m names
]

-- sort.Strings
unfoldable pub sort_names : List String → List String
sort_names names = sort_by (λ a b. not (is_lt (compare_text b a))) names

-- A size whose fetch failed is 0; the error is only logged.
unfoldable pub size_or_zero : Result ℕ → ℕ
size_or_zero (ok n) = n
size_or_zero (err _) = 0

abbrev pub new_result : MailboxConfig → MailboxResult
new_result mb = record {
  name = mb.name;
  src_user = mb.source_user;
  tgt_user = mb.target_user;
  missing_folders = [];
  extra_folders = [];
  folders = [];
  failure = none;
}

-- Both clients and the world.
pub record Pair (Conn World : Type 0) : Type 0 where
  pub src : Client Conn
  pub tgt : Client Conn
  pub world : World

module _ (api : Api) where
  open api use {World, Conn}

  unfoldable pub folder_total_size : String → Exec (Link api) ℕ
  unfolding select_read_only fetch_all_sizes
  folder_total_size name = do
    info ← select_read_only api name
    if info.num_messages == 0 then pure 0 else fetch_all_sizes api

  -- The loop over the names that both sides have.
  unfoldable pub compare_folders :
      Assoc String ℕ
      → Assoc String ℕ
      → List String
      → Pair Conn World
      → List FolderResult × Pair Conn World
  compare_folders src_map tgt_map [] p = ([], p)
  compare_folders src_map tgt_map (name ∷ names) p =
      let (src_size, (src, w1)) = folder_total_size name (p.src, p.world) in
      let (tgt_size, (tgt, w2)) = folder_total_size name (p.tgt, w1) in
      let (rest, q) =
        compare_folders src_map tgt_map names (record { src = src; tgt = tgt; world = w2 }) in
      (
        record {
          name = name;
          src_count = get_or (lookup name src_map) 0;
          tgt_count = get_or (lookup name tgt_map) 0;
          src_size = size_or_zero src_size;
          tgt_size = size_or_zero tgt_size;
        }
            ∷ rest,
        q,
      )

  -- From both lists of folders on.
  unfoldable pub compare_listed :
      MailboxResult → List Folder → List Folder → Pair Conn World → MailboxResult × Pair Conn World
  compare_listed result src_folders tgt_folders p =
      let src_map = counts [] src_folders in
      let tgt_map = counts [] tgt_folders in
      let names = sort_names (present tgt_map (keys src_map)) in
      let (folders, q) = compare_folders src_map tgt_map names p in
      (
        record result {
          missing_folders = sort_names (absent tgt_map (keys src_map));
          extra_folders = sort_names (absent src_map (keys tgt_map));
          folders = folders;
        },
        q,
      )

  abbrev pub with_failure : String → MailboxResult → Error → MailboxResult
  with_failure format result e = record result { failure = some (wrapf format [] e) }

  -- From both connections on.
  unfoldable pub compare_mailbox : MailboxResult → Pair Conn World → MailboxResult × Pair Conn World
  unfolding list_folders compare_listed
  compare_mailbox result p =
      let (r1, (src, w1)) = list_folders api (p.src, p.world) in
      elim r1 [
        | err e ↦ (
          with_failure "failed to list source folders: %w" result e,
          record p { src = src; world = w1 },
        )
        | ok src_folders ↦
            let (r2, (tgt, w2)) = list_folders api (p.tgt, w1) in
            let q : Pair Conn World = record { src = src; tgt = tgt; world = w2 } in
            elim r2 [
              | err e ↦ (with_failure "failed to list target folders: %w" result e, q)
              | ok tgt_folders ↦ compare_listed result src_folders tgt_folders q
            ]
      ]

  -- A deferred close, whose error counts only if there is none yet.
  unfoldable pub then_close : String → Client Conn → MailboxResult × World → MailboxResult × World
  unfolding close
  then_close format c (result, w) =
      let (r, (_, w')) = close api (c, w) in
      (
        elim r [
          | ok _ ↦ result
          | err e ↦ elim result.failure [ none ↦ with_failure format result e | some _ ↦ result ]
        ],
        w',
      )

  unfoldable pub verify_mailbox :
      MailboxConfig → ServerConfig → ServerConfig → World → MailboxResult × World
  unfolding dial then_close compare_mailbox
  verify_mailbox mb source target w =
      let result = new_result mb in
      let (r1, w1) = dial api source mb.source_user mb.source_password w in
      elim r1 [
        | err e ↦ (with_failure "source connect failed: %w" result e, w1)
        | ok src ↦
            let (r2, w2) = dial api target mb.target_user mb.target_password w1 in
            elim r2 [
              | err e ↦
                  then_close "failed to close source connection: %w" src
                    (with_failure "target connect failed: %w" result e, w2)
              | ok tgt ↦
                  let (compared, p) =
                    compare_mailbox result (record { src = src; tgt = tgt; world = w2 }) in
                  then_close "failed to close source connection: %w" p.src
                    (then_close "failed to close target connection: %w" p.tgt (compared, p.world))
            ]
      ]
