-- ===== src/Serialization/Objects.antt =====
-- A reader of the JSON values that src/Serialization.cpp makes, by the names of the fields.
use aex_cpp_sdk.Base.{
  ℕ, ℤ, ◌≡◌, refl, List, [], ◌∷◌, map, All, Bool, true, false, ◌&&◌, bytes_eq, if◌then◌else◌,
  Option, none, some,
}
use aex_cpp_sdk.Address.{binance_hrp, decode}
use aex_cpp_sdk.Address.RoundTrip.{IsBinance, decode-encode_address}
use aex_cpp_sdk.Serialization.{JsonLibrary, address_string}

infixl 5 ◌>>=◌
abbrev pub ◌>>=◌ : {A B : Type 0} → Option A → (A → Option B) → Option B
none >>= f = none
some a >>= f = f a

-- What the library reads from a value: the value of a field, and what a value is.
pub record JsonReader (J : Type 0) : Type 0 where
  pub find : J → List ℕ → Option J
  pub as_string : J → Option (List ℕ)
  pub as_number : J → Option ℤ
  pub as_array : J → Option (List J)

-- The value that a list of assignments leaves under a key: the last one.
unfoldable pub last_value : {J : Type 0} → List (List ℕ × J) → List ℕ → Option J
last_value [] key = none
last_value ((name, j) ∷ fields) key =
    let later = last_value fields key in
    elim later [ none ↦ if bytes_eq name key then some j else none | some k ↦ some k ]

unfoldable pub all_some : {A J : Type 0} → (J → Option A) → List J → Option (List A)
all_some read [] = some []
all_some read (j ∷ js) = read j >>= λ a. all_some read js >>= λ xs. some (a ∷ xs)

unfoldable pub is_some : {A : Type 0} → Option A → Bool
is_some none = false
is_some (some a) = true

-- The bytes of an address of the main network.
unfoldable pub read_address : List ℕ → Option (List ℕ)
read_address text =
    let (address, ok) = decode text in
    if ok && bytes_eq address.hrp binance_hrp then some address.key_hash else none

-- A key hash of 2 to 40 bytes.
abbrev pub IsKeyHash : List ℕ → Type 0
IsKeyHash bytes = IsBinance (record { hrp = binance_hrp; key_hash = bytes })

pub read_address-address_string :
    (bytes : List ℕ) → IsKeyHash bytes → read_address (address_string bytes) ≡ some bytes
unfolding read_address address_string bytes_eq
read_address-address_string bytes h =
    rw (decode-encode_address (record { hrp = binance_hrp; key_hash = bytes }) h) refl

module _ {J : Type 0} (json : JsonLibrary J) (reader : JsonReader J) where
  -- Assignments to `j[key]`, one after another.
  unfoldable pub assign : J → List (List ℕ × J) → J
  assign j [] = j
  assign j ((name, value) ∷ fields) = assign (json.set j name value) fields

  -- The values that are made can be read: an object has the last value of each key, and an array,
  -- a string and a number are what they are made of.
  pub record Readable : Type 0 where
    pub fields :
        (fields : List (List ℕ × J)) (key : List ℕ)
        → reader.find (assign json.null fields) key ≡ last_value fields key
    pub strings : (text : List ℕ) → reader.as_string (json.string text) ≡ some text
    pub numbers : (n : ℤ) → reader.as_number (json.number n) ≡ some n
    pub arrays : (js : List J) → reader.as_array (json.array js) ≡ some js

  -- The fields of an object.
  unfoldable pub has : J → List ℕ → Bool
  has j key = is_some (reader.find j key)

  unfoldable pub string_at : J → List ℕ → Option (List ℕ)
  string_at j key = reader.find j key >>= reader.as_string

  unfoldable pub address_at : J → List ℕ → Option (List ℕ)
  address_at j key = string_at j key >>= read_address

  unfoldable pub number_at : J → List ℕ → Option ℤ
  number_at j key = reader.find j key >>= reader.as_number

  unfoldable pub array_at : {A : Type 0} → (J → Option A) → J → List ℕ → Option (List A)
  array_at read j key = reader.find j key >>= reader.as_array >>= all_some read

  module _ (h : Readable) (fields : List (List ℕ × J)) (key : List ℕ) where
    pub has-assign : has (assign json.null fields) key ≡ is_some (last_value fields key)
    unfolding has
    has-assign = rw (h.fields fields key) refl

    pub string_at-assign :
        (text : List ℕ)
        → last_value fields key ≡ some (json.string text)
        → string_at (assign json.null fields) key ≡ some text
    unfolding string_at
    string_at-assign text e = rw (h.fields fields key) (rw e (h.strings text))

    pub address_at-assign :
        (bytes : List ℕ)
        → IsKeyHash bytes
        → last_value fields key ≡ some (json.string (address_string bytes))
        → address_at (assign json.null fields) key ≡ some bytes
    unfolding address_at
    address_at-assign bytes k e =
        rw (string_at-assign (address_string bytes) e) (read_address-address_string bytes k)

    pub number_at-assign :
        (n : ℤ)
        → last_value fields key ≡ some (json.number n)
        → number_at (assign json.null fields) key ≡ some n
    unfolding number_at
    number_at-assign n e = rw (h.fields fields key) (rw e (h.numbers n))

    pub array_at-assign :
        {A : Type 0} (read : J → Option A) (js : List J) (xs : List A)
        → all_some read js ≡ some xs
        → last_value fields key ≡ some (json.array js)
        → array_at read (assign json.null fields) key ≡ some xs
    unfolding array_at
    array_at-assign read js xs r e = rw (h.fields fields key) (rw e (rw (h.arrays js) r))

-- Elements that are read one by one.
pub all_some-map :
    {A J : Type 0} (P : A → Type 0) (write : A → J) (read : J → Option A) (xs : List A)
    → ((a : A) → P a → read (write a) ≡ some a)
    → All P xs
    → all_some read (map write xs) ≡ some xs
unfolding all_some
all_some-map P write read [] h p = refl
all_some-map P write read (a ∷ xs) h (p, ps) =
    rw (h a p) (rw (all_some-map P write read xs h ps) refl)
