-- ===== src/Auth/Storage.antt =====
-- The stored form of a credential: what is saved is what is loaded at the next boot.
use zmk_module_runtime_macro.Base.{
  ℕ, ◌^◌, ◌<◌, ◌≡◌, refl, sym, ap, ◌∙◌, List, ◌++◌, arith, length, get_or, take, drop,
  length-append, take-append, take-length, drop-append,
}
use zmk_module_runtime_macro.Auth.State.{
  Credential, credential_version, credential_storage_size, salt_size, key_size, put_le32, get_le32,
  serialize_credential, deserialize_credential,
}

-- The sizes of the struct's members.
pub record IsCredential (cred : Credential) : Type 0 where
  pub iterations : cred.iterations < 2 ^ 32
  pub salt : length cred.salt ≡ salt_size
  pub key : length cred.key ≡ key_size

get_le32-put_le32 : (v : ℕ) (rest : List ℕ) → v < 2 ^ 32 → get_le32 (put_le32 v ++ rest) ≡ v
unfolding get_le32 put_le32
get_le32-put_le32 v rest h = omega arith

take_exactly : (n : ℕ) (xs ys : List ℕ) → length xs ≡ n → take n (xs ++ ys) ≡ xs
take_exactly n xs ys e = rw (sym e) (take-append xs ys)

drop_exactly : (n : ℕ) (xs ys : List ℕ) → length xs ≡ n → drop n (xs ++ ys) ≡ ys
drop_exactly n xs ys e = rw (sym e) (drop-append xs ys)

salt-serialize :
    (cred : Credential)
    → IsCredential cred
    → take salt_size (drop 5 (serialize_credential cred)) ≡ cred.salt
unfolding serialize_credential put_le32
salt-serialize cred k = take_exactly salt_size cred.salt cred.key k.salt

key-serialize :
    (cred : Credential)
    → IsCredential cred
    → take key_size (drop 21 (serialize_credential cred)) ≡ cred.key
unfolding serialize_credential put_le32
key-serialize cred k =
    ap (take key_size) (drop_exactly salt_size cred.salt cred.key k.salt)
    ∙ ap (λ n. take n cred.key) (sym k.key)
    ∙ take-length cred.key

iterations-serialize :
    (cred : Credential)
    → IsCredential cred
    → get_le32 (drop 1 (serialize_credential cred)) ≡ cred.iterations
unfolding serialize_credential
iterations-serialize cred k = get_le32-put_le32 cred.iterations (cred.salt ++ cred.key) k.iterations

-- A credential is read back from its stored form, which has the version and the size that the
-- loader asks for.
pub deserialize_credential-serialize_credential :
    (cred : Credential)
    → IsCredential cred
    → (deserialize_credential (serialize_credential cred) ≡ cred)
      × (length (serialize_credential cred) ≡ credential_storage_size)
      × (get_or (serialize_credential cred) 0 0 ≡ credential_version)
deserialize_credential-serialize_credential cred k =
    (whole, size, unfold serialize_credential in refl)
  where
    whole : deserialize_credential (serialize_credential cred) ≡ cred
    whole =
        unfold deserialize_credential in
        rw (iterations-serialize cred k, salt-serialize cred k, key-serialize cred k) refl

    size : length (serialize_credential cred) ≡ credential_storage_size
    size =
        unfold serialize_credential put_le32 in
        rw (length-append cred.salt cred.key, k.salt, k.key) refl
