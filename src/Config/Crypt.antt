-- ===== src/Config/Crypt.antt =====
-- internal/config/crypt.go: the encryption of passwords, over an interface to the packages crypto and
-- base64 and to the conversions between texts and bytes.
use go_boxcopy.Base.{ℕ, String, List, [], ◌∷◌, ◌++◌, ltb, length, take, drop, if◌then◌else◌}
use go_boxcopy.Base.Errors.{errorf, wrapf, str, Result, ok, err, relabel, ◌>>=◌}
use go_boxcopy.Base.Exec.{Exec}
use go_boxcopy.Config.Data.{MailboxConfig, Config}

pub record Cipher : Type 1 where
  pub Byte : Type 0
  pub Block : Type 0
  pub Gcm : Type 0
  -- []byte(text) and string(bytes)
  pub bytes : String → List Byte
  pub text : List Byte → String
  pub sum256 : List Byte → List Byte
  pub new_cipher : List Byte → Result Block
  pub new_gcm : Block → Result Gcm
  pub nonce_size : Gcm → ℕ
  -- nonce, and what is sealed or opened
  pub seal : Gcm → List Byte → List Byte → List Byte
  pub unseal : Gcm → List Byte → List Byte → Result (List Byte)
  -- base64.StdEncoding
  pub encode : List Byte → String
  pub decode : String → Result (List Byte)

module _ (c : Cipher) where
  unfoldable pub derive_key : String → List c.Byte
  derive_key passphrase = c.sum256 (c.bytes passphrase)

  -- The lines that both functions have in common.
  unfoldable pub gcm_of : String → Result c.Gcm
  unfolding derive_key
  gcm_of key = do
    block ← relabel "failed to create cipher: %w" [] (c.new_cipher (derive_key key))
    relabel "failed to create GCM: %w" [] (c.new_gcm block)

  -- `random` stands for what io.ReadFull makes of the random reader, by the number of bytes.
  unfoldable pub encrypt_password : (ℕ → Result (List c.Byte)) → String → String → Result String
  unfolding gcm_of
  encrypt_password random password key = do
    gcm ← gcm_of key
    nonce ← relabel "failed to generate nonce: %w" [] (random (c.nonce_size gcm))
    ok (c.encode (nonce ++ c.seal gcm nonce (c.bytes password)))

  -- From the decoded bytes and the cipher on.
  unfoldable pub open_bytes : c.Gcm → List c.Byte → Result String
  open_bytes gcm ciphertext =
      let size = c.nonce_size gcm in
      if ltb (length ciphertext) size then err (errorf "ciphertext too short" []) else (do
        plaintext ←
            relabel "failed to decrypt password: %w" []
              (c.unseal gcm (take size ciphertext) (drop size ciphertext))
        ok (c.text plaintext))

  unfoldable pub decrypt_password : String → String → Result String
  unfolding gcm_of open_bytes
  decrypt_password encrypted key = do
    ciphertext ← relabel "failed to decode password: %w" [] (c.decode encrypted)
    gcm ← gcm_of key
    open_bytes gcm ciphertext

  -- The body of the loop over the mailboxes, with what it leaves of the mailbox.
  unfoldable pub decrypt_mailbox : String → Exec MailboxConfig (Unit {0})
  decrypt_mailbox key mb = elim (decrypt_password mb.source_password key) [
    | err e ↦
        (err (wrapf "mailbox %s: failed to decrypt source password: %w" (str mb.name ∷ []) e), mb)
    | ok source_pass ↦
        let mb' : MailboxConfig = record mb { source_password = source_pass } in
        elim (decrypt_password mb.target_password key) [
          | err e ↦ (
            err (wrapf "mailbox %s: failed to decrypt target password: %w" (str mb.name ∷ []) e),
            mb',
          )
          | ok target_pass ↦ (ok tt, record mb' { target_password = target_pass })
        ]
  ]

  unfoldable pub decrypt_mailboxes : String → Exec (List MailboxConfig) (Unit {0})
  decrypt_mailboxes key [] = (ok tt, [])
  decrypt_mailboxes key (mb ∷ mbs) =
      let (r, mb') = decrypt_mailbox key mb in
      let (r', mbs') = decrypt_mailboxes key mbs in
      elim r [ err e ↦ (err e, mb' ∷ mbs) | ok _ ↦ (r', mb' ∷ mbs') ]

  unfoldable pub decrypt_mailbox_passwords : String → Exec Config (Unit {0})
  unfolding decrypt_mailboxes
  decrypt_mailbox_passwords key cfg =
      let (r, mbs) = decrypt_mailboxes key cfg.mailboxes in (r, record cfg { mailboxes = mbs })
