-- ===== src/BTree/Map.antt =====
-- `BTreeMap<String, V>`: entries with ascending keys.
use fractal_d.Base.{
  ◌≡◌, refl, Bool, true, false, Option, none, some, List, [], ◌∷◌, arith, Text, text_eq, text_lt,
  text_eq_iff, text_lt_total, if◌then◌else◌,
}
use fractal_d.BTree.Set.{contains, insert, remove, IsDistinct}

abbrev pub TextMap {ℓ} : Type ℓ → Type ℓ
TextMap V = List (Text × V)

module _ {ℓ} {V : Type ℓ} where
  unfoldable pub get : TextMap V → Text → Option V
  get [] k = none
  get ((x, v) ∷ m) k = if text_eq x k then some v else get m k

  unfoldable pub insert_key : Text → V → TextMap V → TextMap V
  insert_key k v [] = (k, v) ∷ []
  insert_key k v ((x, w) ∷ m) =
      if text_lt k x
      then (k, v) ∷ (x, w) ∷ m
      else if text_lt x k
      then (x, w) ∷ insert_key k v m
      else (k, v) ∷ m

  -- The write through `get_mut`: a key that is there gets another value.
  unfoldable pub put : Text → V → TextMap V → TextMap V
  put k v [] = []
  put k v ((x, w) ∷ m) = if text_eq x k then (x, v) ∷ m else (x, w) ∷ put k v m

  unfoldable pub remove_key : Text → TextMap V → TextMap V
  remove_key k [] = []
  remove_key k ((x, w) ∷ m) = if text_eq x k then m else (x, w) ∷ remove_key k m

  unfoldable pub keys : TextMap V → List Text
  keys [] = []
  keys ((x, v) ∷ m) = x ∷ keys m

  -- `selected.iter().map(|name| (name.clone(), v)).collect()`
  unfoldable pub constant : List Text → V → TextMap V
  constant [] v = []
  constant (x ∷ xs) v = (x, v) ∷ constant xs v

  abbrev pub has_value : Option V → Bool
  has_value none = false
  has_value (some v) = true

  pub get-put :
      (m : TextMap V) (k j : Text) (v w : V)
      → get m k ≡ some w
      → get (put k v m) j ≡ (if text_eq k j then some v else get m j)
  unfolding get put
  get-put [] k j v w h = cc
  get-put ((x, u) ∷ m) k j v w h =
      ground (arith, get-put m k j v w, text_eq_iff x k, text_eq_iff x j, text_eq_iff k j)

  pub get-constant :
      (xs : List Text) (v : V) (k : Text)
      → get (constant xs v) k ≡ (if contains xs k then some v else none)
  unfolding get constant contains
  get-constant [] v k = refl
  get-constant (x ∷ xs) v k = ground (arith, get-constant xs v k)

  pub get-insert_key :
      (m : TextMap V) (k j : Text) (v : V)
      → get (insert_key k v m) j ≡ (if text_eq k j then some v else get m j)
  unfolding get insert_key
  get-insert_key [] k j v = refl
  get-insert_key ((x, w) ∷ m) k j v = ground (
    arith,
    get-insert_key m k j v,
    text_lt_total k x,
    text_eq_iff x k,
    text_eq_iff x j,
    text_eq_iff k j,
  )

  pub contains-keys : (m : TextMap V) (k : Text) → contains (keys m) k ≡ has_value (get m k)
  unfolding get keys contains
  contains-keys [] k = refl
  contains-keys ((x, v) ∷ m) k = ground (arith, contains-keys m k)

  pub keys-put : (m : TextMap V) (k : Text) (v : V) → keys (put k v m) ≡ keys m
  unfolding keys put
  keys-put [] k v = refl
  keys-put ((x, w) ∷ m) k v = ground (arith, keys-put m k v)

  pub keys-constant : (xs : List Text) (v : V) → keys (constant xs v) ≡ xs
  unfolding keys constant
  keys-constant [] v = refl
  keys-constant (x ∷ xs) v = ground (arith, keys-constant xs v)

  pub keys-insert_key :
      (m : TextMap V) (k : Text) (v : V) → keys (insert_key k v m) ≡ insert k (keys m)
  unfolding keys insert_key insert
  keys-insert_key [] k v = refl
  keys-insert_key ((x, w) ∷ m) k v = ground (arith, keys-insert_key m k v, text_lt_total k x)

  pub get-absent : (m : TextMap V) (k : Text) → contains (keys m) k ≡ false → get m k ≡ none
  unfolding get keys contains
  get-absent [] k h = refl
  get-absent ((x, v) ∷ m) k h = ground (arith, get-absent m k)

  pub get-remove_key :
      (m : TextMap V) (k j : Text)
      → IsDistinct (keys m)
      → get (remove_key k m) j ≡ (if text_eq k j then none else get m j)
  unfolding get remove_key keys
  get-remove_key [] k j d = ground arith
  get-remove_key ((x, w) ∷ m) k j d = ground (
    arith,
    get-remove_key m k j d.1,
    get-absent m k,
    text_eq_iff x k,
    text_eq_iff x j,
    text_eq_iff k j,
    d.0,
  )

  pub keys-remove_key : (m : TextMap V) (k : Text) → keys (remove_key k m) ≡ remove k (keys m)
  unfolding keys remove_key remove
  keys-remove_key [] k = refl
  keys-remove_key ((x, w) ∷ m) k = ground (arith, keys-remove_key m k)
