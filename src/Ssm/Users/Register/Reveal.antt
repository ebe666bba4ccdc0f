-- ===== src/Ssm/Users/Register/Reveal.antt =====
-- ssm_user_register of src/ssm.cc: the user that is registered, and everybody's secrets.
use mathlib.Core.Path.{subst⁻¹}
use vaultine.Prelude.{
  Bytes, ◌≡◌, refl, ◌∙◌, ap, ◌⊎◌, inl, inr, ◌==◌, ==_refl, eqb, eqb_refl, Option, some, take,
  first-append, exists-first,
}
use vaultine.World.{Env, IsLawful, User, KekRow, Vault, Tables}
use vaultine.Exec.Runs.{Runs, Runs-weaken}
use vaultine.Db.Sql.{find_user, find_kek, find_secret, insert_user, insert_kek}
use vaultine.Reveal.{◌and_then◌, unlock, reveal, kek_of}
use vaultine.Reveal.Inserts.{no_kek, find_no_secret, insert_kek-reveal, insert_user-reveal}
use vaultine.Sound.{IsSound}
use vaultine.Sound.Statements.{insert_user-IsSound, insert_kek-IsSound}
use vaultine.Ssm.Done.{IsGood, Done, Done-IsGood, Done-reveal}
use vaultine.Ssm.Users.{ssm_user_register}
use vaultine.Ssm.Users.Access.{Knows}
use vaultine.Ssm.Users.Register.Registered.{
  Joined, Stranded, Left, Returned, ssm_user_register-Runs,
}

-- The name has a user, whose password is the one that was given and whose KEK his hash opens.
pub record Member (e : Env) (t : Tables) (username_ptr password_ptr : Option Bytes) : Type 0 where
  pub knows : Knows e t username_ptr password_ptr
  pub kek : Bytes
  pub opens : kek_of e t knows.user ≡ some kek

module _ {e : Env} {t : Tables} (V : IsSound t) (t' : Tables) where
  Stranded-IsSound : Stranded e t t' → IsSound t'
  Stranded-IsSound H =
      subst⁻¹ IsSound H.final (insert_user-IsSound t V H.username H.hash H.now H.free)

  Stranded-reveal : Stranded e t t' → (n m : Bytes) → reveal e t' n m ≡ reveal e t n m
  Stranded-reveal H n m =
      ap (λ x. reveal e x n m) H.final ∙ insert_user-reveal e t V H.username H.hash H.now n m

  module _ {username_ptr password_ptr : Option Bytes}
      (J : Joined e username_ptr password_ptr t t') where
    between : Tables
    between = insert_user J.username J.hash J.now t

    Joined-IsSound : IsSound t'
    Joined-IsSound = subst⁻¹ IsSound J.final (
        insert_kek-IsSound _ (insert_user-IsSound t V J.username J.hash J.now J.free) t.next_user
          J.new.wrapped J.new.salt J.new.expires_at J.unkeyed J.known)

    Joined-reveal : (n m : Bytes) → reveal e t' n m ≡ reveal e t n m
    unfolding insert_user find_secret
    Joined-reveal n m =
        ap (λ x. reveal e x n m) J.final
        ∙ insert_kek-reveal e (insert_user J.username J.hash J.now t) t.next_user J.new.wrapped
            J.new.salt J.new.expires_at (λ name. find_no_secret t V name) n m
        ∙ insert_user-reveal e t V J.username J.hash J.now n m

    joined_user : User
    joined_user = record {
      id = t.next_user;
      username = J.username;
      password_hash = J.hash;
      created_at = J.now;
    }

    joined_there : find_user J.username t' ≡ some joined_user
    unfolding find_user insert_user insert_kek joined_user
    joined_there =
        ap (find_user J.username) J.final
        ∙ first-append (λ (u : User). eqb u.username J.username) t.users _
        ∙ rw
            (
              exists-first (λ (u : User). eqb u.username J.username) t.users J.free,
              eqb_refl J.username,
            )
            refl

    Joined-Member : IsLawful e → Member e t' username_ptr password_ptr
    unfolding joined_user kek_of find_kek insert_user insert_kek
    Joined-Member L = record {
      knows = record {
        username = J.username;
        named = J.named;
        password = J.password;
        given = J.given;
        user = joined_user;
        found = joined_there;
        verified =
            ap (λ h. e.pwhash_str_verify h J.password) J.hashed
            ∙ L.verify_hash J.hash_salt J.password;
      };
      kek = J.wraps.kek;
      opens =
          ap (λ x. find_kek t.next_user x and_then unlock e J.hash) J.final
          ∙ ap (λ o. o and_then unlock e J.hash)
              (first-append (λ (k : KekRow). k.user_id == t.next_user) t.keks _)
          ∙ rw
              (
                exists-first (λ (k : KekRow). k.user_id == t.next_user) t.keks (no_kek t V),
                ==_refl t.next_user,
              )
              (ap (e.key_unwrap (e.pwhash J.hash (take 16 J.new.salt))) J.wraps.wrapped
                ∙ L.unwrap_wrap _ _);
    }

Member-same :
    {e : Env} {username_ptr password_ptr : Option Bytes} {t : Tables} {v v' : Vault}
    → Done e t v v'
    → Member e t username_ptr password_ptr
    → Member e v'.tables username_ptr password_ptr
unfolding find_user kek_of find_kek
Member-same {e} {username_ptr} {password_ptr} {t} h m =
    subst⁻¹ (λ x. Member e x username_ptr password_ptr) (ap (λ (u : Vault). u.tables) h.same)
      (record {
        knows = record {
          username = m.knows.username;
          named = m.knows.named;
          password = m.knows.password;
          given = m.knows.given;
          user = m.knows.user;
          found = m.knows.found;
          verified = m.knows.verified;
        };
        kek = m.kek;
        opens = m.opens;
      })

module _ {e : Env} {v : Vault} (G : IsGood e v) (username_ptr password_ptr : Option Bytes) where
  abbrev KeepsSecrets : Vault → Type 0
  KeepsSecrets v' =
      (username name : Bytes) → reveal e v'.tables username name ≡ reveal e v.tables username name

  Left-keeps : (v' : Vault) → Left e (Stranded e v.tables) v v' → IsGood e v' × KeepsSecrets v'
  Left-keeps v' (inl h) = (Done-IsGood h G.idle G.sound, Done-reveal h)
  Left-keeps v' (inr (t, H, h)) = (
    Done-IsGood h G.idle (Stranded-IsSound G.sound t H),
    λ n m. Done-reveal h n m ∙ Stranded-reveal G.sound t H n m,
  )

  Returned-keeps :
      (v' : Vault) → Returned G username_ptr password_ptr v' → IsGood e v' × KeepsSecrets v'
  Returned-keeps v' (inl h) = (Done-IsGood h.1 G.idle G.sound, Done-reveal h.1)
  Returned-keeps v' (inr (t, J, h)) = (
    Done-IsGood h G.idle (Joined-IsSound G.sound t J),
    λ n m. Done-reveal h n m ∙ Joined-reveal G.sound t J n m,
  )

  -- What a registration leaves is a good vault, also where it stops between its two statements.
  pub ssm_user_register-IsGood :
      Runs e v
        (ssm_user_register username_ptr password_ptr)
        (λ _ v'. IsGood e v')
        (λ _ v'. IsGood e v')
  ssm_user_register-IsGood =
      Runs-weaken (ssm_user_register-Runs G username_ptr password_ptr)
        (λ _ v' h. (Returned-keeps v' h).0) (λ _ v' h. (Left-keeps v' h).0)

  -- In a vault with sound tables, a coherent cache and no open transaction, with lawful ciphers: a
  -- registration that returns SSM_OK was given the name of a user that existed, or else there is now
  -- a user of that name whose password is the one that was given and whose KEK his hash opens. No
  -- secret of anybody is changed, whatever is returned.
  pub ssm_user_register-reveal :
      IsLawful e
      → Runs e v
          (ssm_user_register username_ptr password_ptr)
          (λ _ v'.
            (((username : Bytes) × (u : User) × (username_ptr ≡ some username)
                × (find_user username v.tables ≡ some u))
              ⊎ Member e v'.tables username_ptr password_ptr)
            × KeepsSecrets v')
          (λ _ v'. KeepsSecrets v')
  ssm_user_register-reveal L =
      Runs-weaken (ssm_user_register-Runs G username_ptr password_ptr)
        (λ _ v' h. (member v' h, (Returned-keeps v' h).1)) (λ _ v' h. (Left-keeps v' h).1)
    where
      member :
          (v' : Vault)
          → Returned G username_ptr password_ptr v'
          → ((username : Bytes) × (u : User) × (username_ptr ≡ some username)
              × (find_user username v.tables ≡ some u))
            ⊎ Member e v'.tables username_ptr password_ptr
      member v' (inl h) = inl h.0
      member v' (inr (t, J, h)) = inr (Member-same h (Joined-Member G.sound t J L))
