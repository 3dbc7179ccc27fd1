-- ===== src/Examples/Seals.antt =====
-- The seal, at concrete inputs. A share is the key, or the key with a number in front; the cipher of
-- the shares is plain.
use covert.Prelude.{
  Result, ℕ, zero, suc, ◌≤◌, ap, here, there, All, Str, Option, length, str_eq_refl, ◌++◌, ◌≡◌, ◌≢◌,
  refl, true, List, [], ◌∷◌, none, some, codes, str_eq, eq_of_str_eq, first, ok, err, arith, In,
}
use covert.Prelude.Exec.{◌>>=◌}
use covert.Auth.{sealed, unsealed}
use covert.Server.Tables.{Error, unique_constraint_violation}
use covert.Storage
use covert.Storage.{Cipher, EncryptedPool}
use covert.Storage.States.{Call, unseals, after_all, unsealed_by_key}
use covert.Seal.{
  SealConfig, Sealing, Sharing, handle_initialize, handle_unseal, insert_all, insert_key_share,
  get_key_shares, open_with, clear_key_shares, complete, new_key_shares, InitializeResponse,
  UnsealResponse,
}
use covert.Seal.Shares.{IsDistinct}
use covert.Seal.Stored.{IsSound}
use covert.Seal.Given.{Given}
use covert.Seal.Dealt.{blank, unseal_each, handle_initialize-handle_unseal}
use covert.Seal.Initialized.{initialize_once}
use covert.Seal.Opened.{IsOpened, handle_unseal-IsOpened}

abbrev pub plain : Cipher
plain = record {
  creates = λ key. true;
  opens = λ file_key key. str_eq key file_key;
  opens-key = λ file_key key h. eq_of_str_eq key file_key h;
}

abbrev pub one_share : Sharing
one_share = record {
  encrypt = λ nonce key. some key;
  decrypt = λ nonce key. some key;
  dealt = λ threshold key n. key ∷ [];
  recover = λ threshold keys. first keys;
}

abbrev fresh : EncryptedPool
fresh = Storage.new none

abbrev pub closed : EncryptedPool
closed = record { state = sealed; file = some (codes "k") }

abbrev calls : List Call
calls = unseals (codes "x") ∷ unseals (codes "k") ∷ []

is_sealed : sealed ≢ unsealed
is_sealed = λ h. ground (arith, h)

gets_unsealed : (after_all plain closed calls).state ≡ unsealed
unfolding Storage.unseal
gets_unsealed = refl

unsealed_by_key_example : In (unseals (codes "k")) calls
unsealed_by_key_example =
    unsealed_by_key plain closed calls (codes "k") refl is_sealed gets_unsealed

abbrev pub one_of_one : SealConfig
one_of_one = record { threshold = 1; shares = 1 }

abbrev pub unconfigured : Sealing
unconfigured = record { config = none; key_shares = []; pool = closed }

initialize_once_example :
    handle_initialize one_share plain one_of_one
      (codes "n")
      (handle_initialize one_share plain one_of_one (codes "m") unconfigured).1
    ≡ (
      err unique_constraint_violation,
      (handle_initialize one_share plain one_of_one (codes "m") unconfigured).1,
    )
initialize_once_example =
    initialize_once one_share plain one_of_one one_of_one (codes "m") (codes "n") unconfigured refl
      refl refl

abbrev pub configured : Sealing
configured = record unconfigured { config = some one_of_one }

abbrev pub opened : Sealing
opened = record configured { pool = record closed { state = unsealed } }

one_is_enough :
    handle_unseal one_share plain ((codes "a", codes "k") ∷ []) configured ≡ (ok complete, opened)
unfolding handle_unseal insert_all insert_key_share get_key_shares open_with clear_key_shares
    Storage.unseal ◌>>=◌
one_is_enough = refl

handle_unseal-IsOpened_example : IsOpened one_share plain configured opened
handle_unseal-IsOpened_example =
    handle_unseal-IsOpened one_share plain ((codes "a", codes "k") ∷ []) configured opened
      one_is_enough

-- the key with a number in front, once for every share
abbrev copies : ℕ → Str → List Str
copies zero key = []
copies (suc n) key = (n ∷ key) ∷ copies n key

abbrev without_number : List Str → Option Str
without_number [] = none
without_number ([] ∷ keys) = none
without_number ((c ∷ key) ∷ keys) = some key

abbrev without : Str → Str → Str
without [] text = text
without (c ∷ nonce) [] = []
without (c ∷ nonce) (d ∷ text) = without nonce text

without-append : (nonce key : Str) → without nonce (nonce ++ key) ≡ key
without-append [] key = refl
without-append (c ∷ nonce) key = without-append nonce key

abbrev numbered : Sharing
numbered = record {
  encrypt = λ nonce key. some (nonce ++ key);
  decrypt = λ nonce text. some (without nonce text);
  dealt = λ threshold key n. copies n key;
  recover = λ threshold keys. without_number keys;
}

copies-recovered :
    (n : ℕ) (key k : Str) (keys : List Str)
    → In k (copies n key)
    → without_number (k ∷ keys) ≡ some key
copies-recovered zero key k keys m = elim m [ ]
copies-recovered (suc n) key k keys (here e) = rw e refl
copies-recovered (suc n) key k keys (there m) = copies-recovered n key k keys m

recovers_numbered :
    (threshold shares : ℕ) (key : Str) (keys : List Str)
    → 1 ≤ threshold
    → threshold ≤ length keys
    → IsDistinct keys
    → All (λ k. In k (copies shares key)) keys
    → without_number keys ≡ some key
recovers_numbered threshold shares key [] positive many d m = absurd (omega (arith, positive, many))
recovers_numbered threshold shares key (k ∷ keys) positive many d m =
    copies-recovered shares key k keys m.0

abbrev sound_numbers : IsSound numbered plain
sound_numbers = record {
  text = λ nonce key. nonce ++ key;
  encrypts = λ nonce key. refl;
  decrypts = λ nonce key. ap some (without-append nonce key);
  opens_own = λ key made. str_eq_refl key;
  recovers = recovers_numbered;
}

abbrev two_of_three : SealConfig
two_of_three = record { threshold = 2; shares = 3 }

abbrev first_call : List (List Given)
first_call = ((codes "a", 2 ∷ codes "k") ∷ []) ∷ []

abbrev last_call : List Given
last_call = (codes "b", 0 ∷ codes "k") ∷ []

abbrev initialized : Result Error (InitializeResponse numbered) × Sealing
initialized = handle_initialize numbered plain two_of_three (codes "k") blank

abbrev unsealing : Result Error (UnsealResponse numbered) × Sealing
unsealing =
    handle_unseal numbered plain last_call (unseal_each numbered plain first_call initialized.1)

handle_initialize-handle_unseal_example :
    (initialized.0 ≡ ok (new_key_shares ((2 ∷ codes "k") ∷ (1 ∷ codes "k") ∷ (0 ∷ codes "k") ∷ [])))
    × (unsealing.0 ≡ ok complete)
    × (unsealing.1.pool.state ≡ unsealed)
    × (unsealing.1.key_shares ≡ [])
handle_initialize-handle_unseal_example =
    handle_initialize-handle_unseal numbered plain sound_numbers two_of_three (codes "k") first_call
      last_call refl refl
      (record {
        nonces = (refl, (refl, tt));
        shares = (refl, (refl, tt));
        texts = (refl, (refl, tt));
      })
      (here refl, (there (there (here refl)), tt)) (omega arith) (omega arith)
