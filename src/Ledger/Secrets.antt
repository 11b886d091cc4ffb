-- ===== src/Ledger/Secrets.antt =====
-- `_SECRET_KEY` and `_check_metadata` of src/simplicio_fast/ledger.py: the case-insensitive search
-- for a secret-like word in every key and text of the metadata.
use Prim.Native.Nat.{ℕ, ◌+◌}
use simplicio_fast.Prelude.{
  String, ◌≡◌, refl, Bool, true, false, ◌&&◌, ◌||◌, List, [], ◌∷◌, leb, nat_beq, if◌then◌else◌, any,
}
use simplicio_fast.Prelude.Json.{
  Json, null, bool, str, arr, obj, Items, nil, item, Fields, end, field, codes,
}

-- The letter that a character stands for under `(?i)`. Beside A to Z these are the dotted and the
-- dotless i, the long s and the Kelvin sign.
fold_case : ℕ → ℕ
fold_case c =
    if leb b'A' c && leb c b'Z'
    then c + 32
    else if nat_beq c 0x130 || nat_beq c 0x131
    then b'i'
    else if nat_beq c 0x17f
    then b's'
    else if nat_beq c 0x212a
    then b'k'
    else c

starts_with : List ℕ → List ℕ → Bool
unfolding fold_case
starts_with [] cs = true
starts_with (w ∷ ws) [] = false
starts_with (w ∷ ws) (c ∷ cs) = nat_beq w (fold_case c) && starts_with ws cs

-- the alternatives of the pattern, `[_-]?` written out
abbrev words : List (List ℕ)
words =
    codes "password"
    ∷ codes "secret"
    ∷ codes "token"
    ∷ codes "apikey"
    ∷ codes "api_key"
    ∷ codes "api-key"
    ∷ codes "privatekey"
    ∷ codes "private_key"
    ∷ codes "private-key"
    ∷ []

search_secret : List ℕ → Bool
unfolding starts_with
search_secret [] = false
search_secret (c ∷ cs) = any (λ w. starts_with w (c ∷ cs)) words || search_secret cs

is_secret : String → Bool
unfolding search_secret
is_secret s = search_secret (codes s)

-- `walk(value, key)`, without the test of the key
mutual
  unfolding is_secret

  secret_value : Json → Bool
  secret_value (str s) = is_secret s
  secret_value (arr xs) = secret_items xs
  secret_value (obj fs) = secret_fields fs
  secret_value _ = false

  secret_items : Items → Bool
  secret_items nil = false
  secret_items (item x xs) = secret_value x || secret_items xs

  secret_fields : Fields → Bool
  secret_fields end = false
  secret_fields (field k v fs) = is_secret k || secret_value v || secret_fields fs

-- `_check_metadata` raises
unfoldable pub has_secret : Fields → Bool
unfolding secret_value
has_secret fs = secret_fields fs

has_secret_nested :
    has_secret (field "a" (arr (item (obj (field "x-API_Key" null end)) nil)) end) ≡ true
unfolding has_secret
has_secret_nested = refl

has_secret_none : has_secret (field "note" (str "api key") (field "n" (bool true) end)) ≡ false
unfolding has_secret
has_secret_none = refl
