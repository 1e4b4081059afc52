-- ===== src/Config/Decrypted.antt =====
-- internal/config/crypt.go: decrypting gives back what was encrypted.
use go_boxcopy.Base.{
  ℕ, zero, suc, String, ◌≡◌, refl, false, List, [], ◌∷◌, ◌++◌, ltb, length, length-append, take,
  drop, arith, inl, inr, subst, ap,
}
use go_boxcopy.Base.Errors.{Result, ok, Result-cases}
use go_boxcopy.Config.Data.{MailboxConfig, Config}
use go_boxcopy.Config.Crypt.{
  Cipher, gcm_of, encrypt_password, open_bytes, decrypt_password, decrypt_mailbox,
  decrypt_mailboxes, decrypt_mailbox_passwords,
}

-- What the packages document: opening undoes sealing under the same nonce, decoding undoes encoding,
-- and a text is its bytes.
pub record IsSound (c : Cipher) : Type 0 where
  pub text-bytes : (s : String) → c.text (c.bytes s) ≡ s
  pub decode-encode : (bs : List c.Byte) → c.decode (c.encode bs) ≡ ok bs
  pub unseal-seal :
      (gcm : c.Gcm) (nonce plain : List c.Byte)
      → length nonce ≡ c.nonce_size gcm
      → c.unseal gcm nonce (c.seal gcm nonce plain) ≡ ok plain

-- io.ReadFull fills its buffer, or fails.
abbrev pub ReadsFully : {Byte : Type 0} → (ℕ → Result (List Byte)) → Type 0
ReadsFully {Byte} random = (n : ℕ) (bs : List Byte) → random n ≡ ok bs → length bs ≡ n

take-append : {A : Type 0} (n : ℕ) (xs ys : List A) → length xs ≡ n → take n (xs ++ ys) ≡ xs
take-append zero [] ys h = refl
take-append zero (x ∷ xs) ys h = absurd (omega (arith, h))
take-append (suc n) [] ys h = absurd (omega (arith, h))
take-append (suc n) (x ∷ xs) ys h = cc (take-append n xs ys (omega (arith, h)))

drop-append : {A : Type 0} (n : ℕ) (xs ys : List A) → length xs ≡ n → drop n (xs ++ ys) ≡ ys
drop-append zero [] ys h = refl
drop-append zero (x ∷ xs) ys h = absurd (omega (arith, h))
drop-append (suc n) [] ys h = absurd (omega (arith, h))
drop-append (suc n) (x ∷ xs) ys h = drop-append n xs ys (omega (arith, h))

module _ (c : Cipher) (sound : IsSound c) where
  open_bytes-seal :
      (gcm : c.Gcm) (nonce : List c.Byte) (password : String)
      → length nonce ≡ c.nonce_size gcm
      → open_bytes c gcm (nonce ++ c.seal gcm nonce (c.bytes password)) ≡ ok password
  unfolding open_bytes
  open_bytes-seal gcm nonce password h =
      let sealed = c.seal gcm nonce (c.bytes password) in
      let long : ltb (length (nonce ++ sealed)) (c.nonce_size gcm) ≡ false =
        ground (arith, length-append nonce sealed) in
      rw
        (
          long,
          take-append (c.nonce_size gcm) nonce sealed h,
          drop-append (c.nonce_size gcm) nonce sealed h,
          sound.unseal-seal gcm nonce (c.bytes password) h,
          sound.text-bytes password,
        )
        refl

  -- Over packages that do what they document and a random reader that fills its buffer, a password
  -- that was encrypted is decrypted to itself with the same key.
  pub decrypt_password-encrypt_password :
      (random : ℕ → Result (List c.Byte))
      → ReadsFully random
      → (password key encrypted : String) → encrypt_password c random password key ≡ ok encrypted
      → decrypt_password c encrypted key ≡ ok password
  unfolding encrypt_password decrypt_password
  decrypt_password-encrypt_password random full password key encrypted h =
      elim (Result-cases (gcm_of c key)) [
        | inr (e, g) ↦ absurd (cc (rw (encrypt_password, g) at h))
        | inl (gcm, g) ↦ elim (Result-cases (random (c.nonce_size gcm))) [
          | inr (e, r) ↦ absurd (cc (rw (encrypt_password, g, r) at h))
          | inl (nonce, r) ↦
              let sealed = nonce ++ c.seal gcm nonce (c.bytes password) in
              let same : c.encode sealed ≡ encrypted = cc (rw (encrypt_password, g, r) at h) in
              let decrypted : decrypt_password c (c.encode sealed) key ≡ ok password =
                rw (decrypt_password, g, sound.decode-encode sealed)
                  (open_bytes-seal gcm nonce password (full _ nonce r)) in
              subst (λ e. decrypt_password c e key ≡ ok password) same decrypted
        ]
      ]

  -- `encrypted` comes from `plain` by an encryption under the key.
  abbrev pub Encrypts : String → String → String → Type 0
  Encrypts key plain encrypted =
      (random : ℕ → Result (List c.Byte)) × ReadsFully random
      × (encrypt_password c random plain key ≡ ok encrypted)

  decrypt_Encrypts :
      (key plain encrypted : String)
      → Encrypts key plain encrypted
      → decrypt_password c encrypted key ≡ ok plain
  decrypt_Encrypts key plain encrypted (random, full, h) =
      decrypt_password-encrypt_password random full plain key encrypted h

  -- The same mailboxes with their passwords encrypted.
  abbrev pub IsEncrypted : String → List MailboxConfig → List MailboxConfig → Type 0
  IsEncrypted key [] [] = Unit
  IsEncrypted key (mb ∷ mbs) (mb' ∷ mbs') =
      (record mb' { source_password = mb.source_password; target_password = mb.target_password }
        ≡ mb)
      × Encrypts key mb.source_password mb'.source_password
      × Encrypts key mb.target_password mb'.target_password
      × IsEncrypted key mbs mbs'
  IsEncrypted key _ _ = ⊥

  decrypt_mailbox-Encrypts :
      (key : String) (mb mb' : MailboxConfig)
      → (record mb' { source_password = mb.source_password; target_password = mb.target_password }
          ≡ mb)
      → Encrypts key mb.source_password mb'.source_password
      → Encrypts key mb.target_password mb'.target_password
      → decrypt_mailbox c key mb' ≡ (ok tt, mb)
  unfolding decrypt_mailbox
  decrypt_mailbox-Encrypts key mb mb' h s t =
      rw
        (
          decrypt_mailbox,
          decrypt_Encrypts key mb.source_password mb'.source_password s,
          decrypt_Encrypts key mb.target_password mb'.target_password t,
        )
        (ap (λ m. (ok tt, m)) h)

  decrypt_mailboxes-IsEncrypted :
      (key : String) (plain encrypted : List MailboxConfig)
      → IsEncrypted key plain encrypted
      → decrypt_mailboxes c key encrypted ≡ (ok tt, plain)
  unfolding decrypt_mailboxes
  decrypt_mailboxes-IsEncrypted key [] [] h = refl
  decrypt_mailboxes-IsEncrypted key [] (mb' ∷ mbs') h = absurd h
  decrypt_mailboxes-IsEncrypted key (mb ∷ mbs) [] h = absurd h
  decrypt_mailboxes-IsEncrypted key (mb ∷ mbs) (mb' ∷ mbs') h =
      let one = decrypt_mailbox-Encrypts key mb mb' h.0 h.1 h.2 in
      rw (decrypt_mailboxes, one, one, decrypt_mailboxes-IsEncrypted key mbs mbs' h.3) refl

  -- When every password of the configured mailboxes was encrypted under the key, decrypting them
  -- succeeds and gives the configuration with the passwords in plain.
  pub decrypt_mailbox_passwords-IsEncrypted :
      (key : String) (cfg : Config) (plain : List MailboxConfig)
      → IsEncrypted key plain cfg.mailboxes
      → decrypt_mailbox_passwords c key cfg ≡ (ok tt, record cfg { mailboxes = plain })
  unfolding decrypt_mailbox_passwords
  decrypt_mailbox_passwords-IsEncrypted key cfg plain h =
      rw (decrypt_mailboxes-IsEncrypted key plain cfg.mailboxes h) refl
