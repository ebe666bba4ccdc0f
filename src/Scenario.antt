-- ===== src/Scenario.antt =====
-- A small concrete vault and foreign code to run it with: ciphers that carry the text along with the
-- key, hashes that carry the password, a clock that stands still, and no error.
pub mod Witnesses
pub mod Parts
pub mod Live
pub mod Requests
pub mod Owners
pub mod Backups
pub mod Log
use vaultine.Prelude.{
  length-take_le, ℕ, zero, suc, ◌≤◌, All-replicate, ◌<◌, Bytes, codes, eqb, eqb_refl, ◌≡◌, refl,
  sym, ◌∙◌, ap, Bool, true, false, Option, none, some, List, [], ◌∷◌, ◌++◌, ◌-◌, ◌+◌, length, take,
  drop, replicate, length-replicate, length-append, take-append, drop-append, if◌then◌else◌, arith,
}
use vaultine.World.{Env, IsLawful, User, KekRow, SecretRow, Tables, CacheEntry, Vault}
use vaultine.Db.Transaction.{IsSteady}
use vaultine.Sound.{IsSound}
use vaultine.Ssm.Handle.{vacant}
use vaultine.Ssm.{default_password_validator}
use vaultine.Ssm.Done.{IsGood}
use vaultine.Cache.Coherent.{IsRight, invalid-IsRight}

-- The first n bytes, filled up with zeros.
abbrev pub pad : ℕ → Bytes → Bytes
pad n b = take n (b ++ replicate n 0)

pub length-pad : (n : ℕ) (b : Bytes) → length (pad n b) ≡ n
length-pad n b =
    length-take_le n _
      (omega (arith, length-append b (replicate n 0), length-replicate {A = ℕ} n 0))

abbrev date : ℕ → Bytes
date t = t ∷ []

abbrev read_date : Bytes → Option ℕ
read_date [] = none
read_date (t ∷ _) = some t

abbrev pub toy : Env
toy = record {
  fails = λ _. false;
  row_fails = λ _. false;
  begin_fails = λ _. false;
  commit_fails = λ _. false;
  clock = λ _. 5;
  random = λ n len. replicate len n;
  strftime = date;
  strptime = read_date;
  pwhash_str = λ salt password. pad 128 password;
  pwhash_str_verify = λ hash password. eqb hash (pad 128 password);
  pwhash = λ password salt. pad 32 (salt ++ password);
  key_wrap = λ key text. pad 8 key ++ text;
  key_unwrap = λ key text. if eqb (take 8 text) (pad 8 key) then some (drop 8 text) else none;
  gcm_seal = λ key nonce aad text. (text, pad 16 key);
  gcm_open = λ key nonce aad text tag. if eqb tag (pad 16 key) then some text else none;
  sha256 = pad 32;
  hmac_sha256 = λ key text. pad 32 (key ++ text);
}

toy_unwrap :
    (p text : Bytes)
    → length p ≡ 8
    → (if eqb (take 8 (p ++ text)) p then some (drop 8 (p ++ text)) else none) ≡ some text
toy_unwrap p text h =
    rw
      (
        ap (λ n. take n (p ++ text)) (sym h) ∙ take-append p text,
        ap (λ n. drop n (p ++ text)) (sym h) ∙ drop-append p text,
        eqb_refl p,
      )
      refl

pub toy-IsLawful : IsLawful toy
toy-IsLawful = record {
  random_length = λ i n. length-replicate n i;
  parse_format = λ t. refl;
  hash_length = λ salt password. length-pad 128 password;
  verify_hash = λ salt password. eqb_refl (pad 128 password);
  pwhash_length = λ password salt. length-pad 32 _;
  wrap_length = λ key text. omega (arith, length-append (pad 8 key) text, length-pad 8 key);
  unwrap_wrap = λ key text. toy_unwrap (pad 8 key) text (length-pad 8 key);
  seal_length = λ key nonce aad text. refl;
  tag_length = λ key nonce aad text. length-pad 16 key;
  open_seal = λ key nonce aad text. rw (eqb_refl (pad 16 key)) refl;
  sha256_length = λ text. length-pad 32 text;
  hmac_length = λ key text. length-pad 32 _;
}

pub toy-IsSteady : IsSteady toy
toy-IsSteady = record { begins = λ _. refl; commits = λ _. refl }

abbrev pub alice : Bytes
alice = codes "alice"

abbrev pub password : Bytes
password = codes "sesame"

abbrev pub salt : Bytes
salt = replicate 16 7

abbrev pub hash : Bytes
hash = pad 128 password

abbrev pub kek : Bytes
kek = replicate 32 9

abbrev pub alice_user : User
alice_user = record { id = 1; username = alice; password_hash = hash; created_at = date 0 }

abbrev pub alice_kek : KekRow
alice_kek = record {
  id = 1;
  user_id = 1;
  wrapped_kek = pad 8 (pad 32 (salt ++ hash)) ++ kek;
  salt = salt;
  expires_at = date 1000000;
  kek_version = 1;
}

abbrev pub alice_secret : SecretRow
alice_secret = record {
  id = 1;
  user_id = 1;
  name = codes "mail";
  private_key = codes "key";
  public_key = some (codes "pub");
  nonce = replicate 12 3;
  tag = pad 16 kek;
  description = none;
  updated_at = date 0;
}

-- One user with one secret, and an empty cache.
abbrev pub vault : Vault
vault = record {
  tables = record {
    users = alice_user ∷ [];
    keks = alice_kek ∷ [];
    secrets = alice_secret ∷ [];
    audit = [];
    next_user = 2;
    next_kek = 2;
    next_secret = 2;
    next_audit = 1;
    user_version = 3;
    user_index = true;
    name_index = true;
  };
  saved = none;
  cache = replicate 256 vacant;
  cache_hits = 0;
  cache_misses = 0;
  validator = default_password_validator;
}

pub vault-IsGood : IsGood toy vault
vault-IsGood = record {
  sound = record {
    user_ids = (tt, tt);
    usernames = (tt, tt);
    users_below = (omega arith, tt);
    users_positive = omega arith;
    owners = (tt, tt);
    versions = (omega arith, tt);
    keks_owned = (refl, tt);
    secret_ids = (tt, tt);
    secret_names = (tt, tt);
    secrets_below = (omega arith, tt);
    secrets_owned = (refl, tt);
  };
  coherent =
      All-replicate (IsRight toy vault.tables) 256 vacant
        (invalid-IsRight toy vault.tables vacant refl);
  idle = refl;
}
