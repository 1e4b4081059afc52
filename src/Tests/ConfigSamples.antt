-- ===== src/Tests/ConfigSamples.antt =====
-- A configuration, the document and the host that it is loaded from, and a cipher.
use Prim.Native.Char.{Char}
use Prim.Native.String.{◌∷◌ as text_cons, [] as text_nil}
use go_boxcopy.Base.{
  ℕ, zero, suc, String, ◌≡◌, refl, ap, true, List, [], ◌∷◌, Option, none, some, length, ◌==◌,
  string_eq, if◌then◌else◌,
}
use go_boxcopy.Base.Int.{pos}
use go_boxcopy.Base.Errors.{ok}
use go_boxcopy.Config.Data.{MailboxConfig, Config}
use go_boxcopy.Config.Host.{Section, Document, Host}
use go_boxcopy.Config.Crypt.{Cipher}
use go_boxcopy.Config.Decrypted.{IsSound}

abbrev pub characters : String → List Char
characters text_nil = []
characters (text_cons c s) = c ∷ characters s

abbrev pub text_of : List Char → String
text_of [] = text_nil
text_of (c ∷ cs) = text_cons c (text_of cs)

text_of-characters : (s : String) → text_of (characters s) ≡ s
text_of-characters text_nil = refl
text_of-characters (text_cons c s) = ap (text_cons c) (text_of-characters s)

characters-text_of : (cs : List Char) → characters (text_of cs) ≡ cs
characters-text_of [] = refl
characters-text_of (c ∷ cs) = ap (◌∷◌ c) (characters-text_of cs)

-- A cipher that hides nothing.
abbrev pub plain_cipher : Cipher
plain_cipher = record {
  Byte = Char;
  Block = Unit {0};
  Gcm = Unit {0};
  bytes = characters;
  text = text_of;
  sum256 = λ bs. bs;
  new_cipher = λ key. ok tt;
  new_gcm = λ block. ok tt;
  nonce_size = λ gcm. 2;
  seal = λ gcm nonce plain. plain;
  unseal = λ gcm nonce sealed. ok sealed;
  encode = text_of;
  decode = λ s. ok (characters s);
}

pub plain_cipher-IsSound : IsSound plain_cipher
plain_cipher-IsSound = record {
  text-bytes = text_of-characters;
  decode-encode = λ bs. ap (λ x. ok x) (characters-text_of bs);
  unseal-seal = λ gcm nonce plain h. refl;
}

-- The same byte over and over.
abbrev pub repeated : Char → ℕ → List Char
repeated c zero = []
repeated c (suc n) = c ∷ repeated c n

pub length-repeated : (c : Char) (n : ℕ) → length (repeated c n) ≡ n
length-repeated c zero = refl
length-repeated c (suc n) = ap suc (length-repeated c n)

abbrev pub section_of : (String → Option String) → Section
section_of texts = record { get_string = texts; get_int = λ key. none; get_bool = λ key. none }

-- The passwords are encrypted under the nonce "nn".
abbrev pub alice_section : Section
alice_section = section_of (λ key.
    if key == "source_password"
    then some "nnsecret"
    else if key == "target_password"
    then some "nnsecret"
    else some "alice")

abbrev pub document : Document
document = record {
  section = λ name.
      if name == "source"
      then some (section_of (λ key. some "source"))
      else if name == "target"
      then some (section_of (λ key. some "target"))
      else none;
  table_array = λ name. some (alice_section ∷ []);
}

abbrev pub host : Host
host = record {
  home = some "/home/alice";
  stat = λ path. ok 384;
  abs = λ path. ok path;
  dir = λ path. "/home/alice";
  is_abs = λ path. true;
  join = λ dir path. path;
  parse = λ path. ok document;
  parse_string = λ text. ok document;
}

abbrev pub encrypted_alice : MailboxConfig
encrypted_alice = record {
  name = "alice";
  source_user = "alice";
  source_password = "nnsecret";
  target_user = "alice";
  target_password = "nnsecret";
}

abbrev pub plain_alice : MailboxConfig
plain_alice = record encrypted_alice { source_password = "secret"; target_password = "secret" }

abbrev pub config : Config
config = record {
  general = record { state_file = ".boxcopy/state.dat"; log_level = "info"; progress = pos 10 };
  copy_param = record { messages_per_second = pos 10; max_connections = pos 5 };
  source = record { host = "source"; port = pos 993; tls = true };
  target = record { host = "target"; port = pos 993; tls = true };
  mailboxes = encrypted_alice ∷ [];
}
